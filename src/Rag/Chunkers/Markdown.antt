-- ===== src/Rag/Chunkers/Markdown.antt =====
-- rag/chunkers.go: the markdown strategy, a loop over the lines of the text.
use Prim.Native.String.{String, ◌++◌ as concat}
use text.Mathlib.Text.{◌==◌ as str_eq}
use turbograph.Prelude.{
  ℕ, suc, Bool, true, false, not, ◌&&◌, ◌||◌, List, [], ◌∷◌, ◌++◌, map, Option, none, some,
  if◌then◌else◌, length, get_elem?, leb, ltb, ◌==◌,
}
use turbograph.Rag.Chunkers.Defs.{
  Strings, Piece, pack_fragments, split_recursive, recursive_separators,
}

pub record Heading : Type 0 where
  pub level : ℕ
  pub title : String

-- the variables of the loop; the stack of headings has its top first
pub record Reading : Type 0 where
  pub stack : List Heading
  pub body : List String
  pub table : List String
  pub caption : String
  pub out : List Piece
  pub in_fence : Bool
  pub fence : List String

abbrev pub titles : List Heading → List String
titles [] = []
titles (h ∷ hs) = titles hs ++ h.title ∷ []

abbrev pub head_path : Reading → List String
head_path s = titles s.stack

-- the '#' that a line starts with
unfoldable pub hashes_of : List ℕ → ℕ
hashes_of [] = 0
hashes_of (c ∷ cs) = let rest = hashes_of cs in if c == 35 then suc rest else 0

abbrev pub is_blank_at : List ℕ → ℕ → Bool
is_blank_at cs n = elim (get_elem? cs n) [ none ↦ false | some c ↦ c == 32 ]

-- the loop that pops the headings of the same level or below
unfoldable pub pop_to : ℕ → List Heading → List Heading
pop_to level [] = []
pop_to level (h ∷ hs) = let rest = pop_to level hs in if leb level h.level then rest else h ∷ hs

module _ (o : Strings) where
  unfoldable pub is_table_row : String → Bool
  is_table_row line = let t = o.trim line in o.has_prefix t "|" && leb 2 (o.count t "|")

  unfoldable pub last_non_empty : List String → String
  last_non_empty [] = ""
  last_non_empty (l ∷ ls) =
      let rest = last_non_empty ls in if str_eq rest "" then o.trim l else rest

  unfoldable pub atx_heading : String → Option Heading
  atx_heading line =
      let s = o.trim line in
      let n = hashes_of (o.bytes s) in
      if n == 0 || ltb 6 n || leb (length (o.bytes s)) n || not (is_blank_at (o.bytes s) n)
      then none
      else some (record { level = n; title = o.trim (o.from s n) })

  abbrev pub is_fence : String → Bool
  is_fence line = o.has_prefix (o.trim line) "```"

  module _ (target overlap : ℕ) where
    unfoldable pub flush_body : Reading → Reading
    flush_body s =
        let pieces =
          pack_fragments o (split_recursive o recursive_separators target (o.join s.body "\n"))
            target overlap in
        if length s.body == 0 then s else record s {
          out = s.out ++ map (λ (p : Piece). record p { headings = head_path s }) pieces;
          body = [];
        }

    unfoldable pub flush_table : Reading → Reading
    flush_table s =
        let rows = o.join s.table "\n" in
        let text = if str_eq s.caption "" then rows else concat (concat s.caption "\n") rows in
        if length s.table == 0 then s else record s {
          out = s.out ++ record { text = o.trim text; headings = head_path s } ∷ [];
          table = [];
          caption = "";
        }

    unfoldable pub flush_fence : Reading → Reading
    flush_fence s = if length s.fence == 0 then s else record s {
      out = s.out ++ record { text = o.trim (o.join s.fence "\n"); headings = head_path s } ∷ [];
      fence = [];
    }

    unfoldable pub read_fence : String → Reading → Reading
    read_fence line s =
        let t = record s { fence = s.fence ++ line ∷ [] } in
        if is_fence line then flush_fence (record t { in_fence = false }) else t

    unfoldable pub open_fence : String → Reading → Reading
    open_fence line s =
        let t = flush_table s in
        let u = flush_body (record t { caption = last_non_empty t.body }) in
        record u { caption = ""; in_fence = true; fence = u.fence ++ line ∷ [] }

    unfoldable pub read_row : String → Reading → Reading
    read_row line s =
        let t = flush_body (record s { caption = last_non_empty s.body }) in
        let u = if length s.table == 0 then t else s in record u { table = u.table ++ line ∷ [] }

    unfoldable pub read_heading : Heading → Reading → Reading
    read_heading h s = let t = flush_body s in record t { stack = h ∷ pop_to h.level t.stack }

    unfoldable pub read_text : String → Reading → Reading
    read_text line s =
        let t = flush_table s in
        elim (atx_heading line) [
          | none ↦ record t { body = t.body ++ line ∷ [] }
          | some h ↦ read_heading h t
        ]

    unfoldable pub read_line : String → Reading → Reading
    read_line line s =
        if s.in_fence
        then read_fence line s
        else if is_fence line
        then open_fence line s
        else if is_table_row line
        then read_row line s
        else read_text line s

    unfoldable pub read_lines : List String → Reading → Reading
    read_lines [] s = s
    read_lines (l ∷ ls) s = read_lines ls (read_line l s)

    abbrev pub start : Reading
    start = record {
      stack = [];
      body = [];
      table = [];
      caption = "";
      out = [];
      in_fence = false;
      fence = [];
    }

    unfoldable pub split_markdown : String → List Piece
    split_markdown text =
        (flush_body (flush_table (flush_fence (read_lines (o.lines text) start)))).out
