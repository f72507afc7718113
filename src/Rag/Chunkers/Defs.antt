-- ===== src/Rag/Chunkers/Defs.antt =====
-- rag/chunkers.go: the bounds, and the word and recursive strategies.
use Prim.Native.String.{String}
use text.Mathlib.Text.{◌==◌ as str_eq}
use turbograph.Prelude.{
  ℕ, zero, suc, ◌+◌, ◌-◌, ◌/◌, Bool, not, ◌&&◌, List, [], ◌∷◌, ◌++◌, map, Option, none, some,
  if◌then◌else◌, length, take, drop, leb, ltb, ◌==◌,
}

-- What the chunkers call of package strings: Fields, Join, TrimSpace, SplitAfter, Split at a line
-- end, HasPrefix, Count; the bytes of a string, and the string from a byte on.
pub record Strings : Type 0 where
  pub fields : String → List String
  pub join : List String → String → String
  pub trim : String → String
  pub split_after : String → String → List String
  pub lines : String → List String
  pub has_prefix : String → String → Bool
  pub count : String → String → ℕ
  pub bytes : String → List ℕ
  pub from : String → ℕ → String

pub record Piece : Type 0 where
  pub text : String
  pub headings : List String

-- a target below zero counts as zero, and an overlap below zero is `none`
pub record ChunkConfig : Type 0 where
  pub target_words : ℕ
  pub overlap_words : Option ℕ

-- DefaultChunkConfig
abbrev pub default_chunk_config : ChunkConfig
default_chunk_config = record { target_words = 120; overlap_words = some 24 }

-- the overlap, if it is in bounds
abbrev pub clamp : ℕ → Option ℕ → ℕ
clamp target none = target / 4
clamp target (some overlap) = if leb target overlap then target / 4 else overlap

unfoldable pub chunk_bounds : ChunkConfig → ℕ × ℕ
chunk_bounds cfg =
    let chosen = if cfg.target_words == 0 then default_chunk_config else cfg in
    (chosen.target_words, clamp chosen.target_words chosen.overlap_words)

-- `stride` of wordChunker
unfoldable pub stride : ℕ → ℕ → ℕ
stride target overlap = if ltb (target - overlap) 1 then 1 else target - overlap

-- The loop of wordChunker, on the words from `start` on. Each turn drops a word at least, so that
-- as many turns as there are words are enough.
unfoldable pub windows : ℕ → ℕ → ℕ → List String → List (List String)
windows zero target step words = []
windows (suc fuel) target step [] = []
windows (suc fuel) target step (w ∷ ws) =
    let rest = windows fuel target step (drop step (w ∷ ws)) in
    take target (w ∷ ws) ∷ (if leb (length (w ∷ ws)) target then [] else rest)

abbrev pub plain : String → Piece
plain text = record { text = text; headings = [] }

abbrev pub is_visible : Piece → Bool
is_visible p = not (str_eq p.text "")

abbrev pub recursive_separators : List String
recursive_separators = "\n\n" ∷ "\n" ∷ ". " ∷ " " ∷ []

-- the variables of packFragments
pub record Packing : Type 0 where
  pub out : List Piece
  pub cur : List String
  pub words : ℕ

module _ (o : Strings) where
  unfoldable pub split_words : ℕ → ℕ → String → List Piece
  split_words target overlap text =
      let words = o.fields text in
      map (λ w. plain (o.join w " ")) (windows (length words) target (stride target overlap) words)

  unfoldable pub word_count : String → ℕ
  word_count s = length (o.fields s)

  abbrev pub is_empty : String → Bool
  is_empty s = str_eq (o.trim s) ""

  unfoldable pub last_words : String → ℕ → String
  last_words s n =
      let f = o.fields s in
      if leb (length f) n then o.join f " " else o.join (drop (length f - n) f) " "

  -- the loop over the parts, with the call that splits a part deeper
  unfoldable pub split_parts : (String → List String) → ℕ → List String → List String
  split_parts deeper target [] = []
  split_parts deeper target (part ∷ parts) =
      let rest = split_parts deeper target parts in
      if is_empty part
      then rest
      else if leb (word_count part) target
      then part ∷ rest
      else deeper part ++ rest

  unfoldable pub split_recursive : List String → ℕ → String → List String
  split_recursive [] target text = if is_empty text then [] else text ∷ []
  split_recursive (sep ∷ seps) target text =
      let parts = split_parts (split_recursive seps target) target (o.split_after text sep) in
      if leb (word_count text) target then (if is_empty text then [] else text ∷ []) else parts

  -- `flush` of packFragments
  unfoldable pub flush_pack : List String → ℕ → List Piece → List Piece
  flush_pack cur words out =
      let t = o.trim (o.join cur " ") in
      if words == 0 then out else if str_eq t "" then out else out ++ plain t ∷ []

  -- `tail`, the words that the next piece repeats
  unfoldable pub tail_of : ℕ → List String → String
  tail_of overlap cur = if ltb 0 overlap then last_words (o.join cur " ") overlap else ""

  unfoldable pub start_piece : ℕ → Packing → Packing
  start_piece overlap s =
      let tail = tail_of overlap s.cur in
      record {
        out = flush_pack s.cur s.words s.out;
        cur = if str_eq tail "" then [] else tail ∷ [];
        words = if str_eq tail "" then 0 else word_count tail;
      }

  unfoldable pub pack_one : ℕ → ℕ → String → Packing → Packing
  pack_one target overlap f s =
      let w = word_count f in
      let t = if ltb 0 s.words && ltb target (s.words + w) then start_piece overlap s else s in
      record t { cur = t.cur ++ o.trim f ∷ []; words = t.words + w }

  unfoldable pub pack_all : ℕ → ℕ → List String → Packing → List Piece
  pack_all target overlap [] s = flush_pack s.cur s.words s.out
  pack_all target overlap (f ∷ fs) s = pack_all target overlap fs (pack_one target overlap f s)

  unfoldable pub pack_fragments : List String → ℕ → ℕ → List Piece
  pack_fragments frags target overlap =
      pack_all target overlap frags (record { out = []; cur = []; words = 0 })

  unfoldable pub split_pieces : ℕ → ℕ → String → List Piece
  split_pieces target overlap text =
      pack_fragments (split_recursive recursive_separators target text) target overlap
