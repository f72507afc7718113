-- ===== src/Rag/Chunkers/Kept.antt =====
-- Empty pieces and the markdown strategy of rag/chunkers.go.
use Prim.Native.String.{String, ◌++◌ as concat}
use text.Mathlib.Text.{◌==◌ as str_eq}
use text.Mathlib.TextEquality.{eq_iff}
use turbograph.Prelude.{
  ℕ, ◌≡◌, refl, true, false, not, ◌||◌, List, [], ◌∷◌, ◌++◌, map, Option, none, some, if◌then◌else◌,
  length, ◌==◌, arith, any, All-append, if_cases,
}
use turbograph.Rag.Chunkers.{
  Strings, Piece, is_visible, is_empty, pack_fragments, split_recursive, recursive_separators,
  Reading, Heading, head_path, is_fence, is_table_row, flush_body, flush_table, flush_fence,
  read_fence, open_fence, read_row, read_heading, read_text, read_line, read_lines, start,
  split_markdown, atx_heading, last_non_empty,
}
use turbograph.Rag.Chunkers.Visible.{AreVisible, pack_fragments-AreVisible}

module _ (o : Strings) where
  -- What is documented of package strings: a text with a line that is not blank is not blank, and
  -- the empty string has no prefix but itself.
  pub record StringLaws : Type 0 where
    pub trim-join :
        (xs : List String)
        → any (λ x. not (is_empty o x)) xs ≡ true
        → is_empty o (o.join xs "\n") ≡ false
    pub trim-concat : (c r : String) → is_empty o r ≡ false → is_empty o (concat c r) ≡ false
    pub fence_prefix : o.has_prefix "" "```" ≡ false
    pub row_prefix : o.has_prefix "" "|" ≡ false

  module _ (laws : StringLaws) (target overlap : ℕ) where
    any-snoc :
        (xs : List String) (x : String)
        → is_empty o x ≡ false
        → any (λ y. not (is_empty o y)) (xs ++ x ∷ []) ≡ true
    any-snoc [] x h = ground arith
    any-snoc (y ∷ xs) x h = ground (arith, any-snoc xs x h)

    -- a table or a fence that is kept has a line that is not blank
    abbrev IsKept : List String → Type 0
    IsKept ls = (length ls == 0 || any (λ x. not (is_empty o x)) ls) ≡ true

    record IsReading (s : Reading) : Type 0 where
      out : AreVisible s.out
      table : IsKept s.table
      fence : IsKept s.fence

    flush_body-IsReading : (s : Reading) → IsReading s → IsReading (flush_body o target overlap s)
    unfolding flush_body
    flush_body-IsReading s v =
        let pieces =
          pack_fragments o (split_recursive o recursive_separators target (o.join s.body "\n"))
            target overlap in
        if_cases IsReading (length s.body == 0) (λ _. v)
          (λ _. record {
            out =
                All-append (λ p. is_visible p ≡ true) s.out _ v.out
                  (headed (head_path s) pieces (pack_fragments-AreVisible o _ target overlap));
            table = v.table;
            fence = v.fence;
          })
      where
        headed :
            (path : List String) (ps : List Piece)
            → AreVisible ps
            → AreVisible (map (λ (p : Piece). record p { headings = path }) ps)
        headed path [] h = tt
        headed path (p ∷ ps) h = (h.0, headed path ps h.1)

    flush_table-IsReading : (s : Reading) → IsReading s → IsReading (flush_table o target overlap s)
    unfolding flush_table
    flush_table-IsReading s v =
        let rows = o.join s.table "\n" in
        let text = if str_eq s.caption "" then rows else concat (concat s.caption "\n") rows in
        if_cases IsReading (length s.table == 0) (λ _. v)
          (λ some_rows.
            let full : is_empty o rows ≡ false = laws.trim-join s.table (ground (arith, v.table)) in
            let shown : is_empty o text ≡ false =
              if_cases (λ x. is_empty o x ≡ false) (str_eq s.caption "") (λ _. full)
                (λ _. laws.trim-concat (concat s.caption "\n") rows full) in
            record {
              out = All-append (λ p. is_visible p ≡ true) s.out _ v.out (ground arith, tt);
              table = refl;
              fence = v.fence;
            })

    flush_fence-IsReading : (s : Reading) → IsReading s → IsReading (flush_fence o target overlap s)
    unfolding flush_fence
    flush_fence-IsReading s v =
        if_cases IsReading (length s.fence == 0) (λ _. v)
          (λ some_lines. record {
            out =
                All-append (λ p. is_visible p ≡ true) s.out _ v.out
                  (ground (arith, laws.trim-join s.fence, v.fence), tt);
            table = v.table;
            fence = refl;
          })

    snoc-IsKept : (ls : List String) (l : String) → is_empty o l ≡ false → IsKept (ls ++ l ∷ [])
    snoc-IsKept ls l h = ground (arith, any-snoc ls l h)

    fence_line : (line : String) → is_fence o line ≡ true → is_empty o line ≡ false
    fence_line line h = ground (arith, eq_iff (o.trim line) "", laws.fence_prefix)

    row_line : (line : String) → is_table_row o line ≡ true → is_empty o line ≡ false
    unfolding is_table_row
    row_line line h = ground (arith, eq_iff (o.trim line) "", laws.row_prefix)

    IsKept-more :
        (ls : List String) (l : String)
        → (length ls == 0) ≡ false
        → IsKept ls
        → IsKept (ls ++ l ∷ [])
    IsKept-more [] l n h = ground arith
    IsKept-more (x ∷ ls) l n h = ground (arith, any-more (x ∷ ls) l)
      where
        any-more :
            (xs : List String) (y : String)
            → any (λ x. not (is_empty o x)) xs ≡ true
            → any (λ x. not (is_empty o x)) (xs ++ y ∷ []) ≡ true
        any-more [] y h = ground arith
        any-more (x ∷ xs) y h = ground (arith, any-more xs y)

    -- a fence that is open has its first line
    abbrev IsOpen : Reading → Type 0
    IsOpen s = s.in_fence ≡ true → (length s.fence == 0) ≡ false

    flush_body-IsOpen : (s : Reading) → IsOpen s → IsOpen (flush_body o target overlap s)
    unfolding flush_body
    flush_body-IsOpen s h = if_cases IsOpen (length s.body == 0) (λ _. h) (λ _. h)

    flush_table-IsOpen : (s : Reading) → IsOpen s → IsOpen (flush_table o target overlap s)
    unfolding flush_table
    flush_table-IsOpen s h = if_cases IsOpen (length s.table == 0) (λ _. h) (λ _. h)

    filled : (ls : List String) (l : String) → (length (ls ++ l ∷ []) == 0) ≡ false
    filled [] l = ground arith
    filled (x ∷ ls) l = ground arith

    read_fence-IsReading :
        (line : String) (s : Reading)
        → s.in_fence ≡ true
        → IsReading s
        → IsOpen s
        → IsReading (read_fence o target overlap line s)
          × IsOpen (read_fence o target overlap line s)
    unfolding read_fence flush_fence
    read_fence-IsReading line s inside v opened =
        let t = record s { fence = s.fence ++ line ∷ [] } in
        let w : IsReading t = record {
          out = v.out;
          table = v.table;
          fence = IsKept-more s.fence line (opened inside) v.fence;
        } in
        let P : Reading → Type 0 = λ r. IsReading r × IsOpen r in
        if_cases P (is_fence o line)
          (λ close. (
            flush_fence-IsReading (record t { in_fence = false })
                (record { out = w.out; table = w.table; fence = w.fence }),
            if_cases IsOpen (length t.fence == 0) (λ _ h. absurd (ground arith))
                (λ _ h. absurd (ground arith)),
          ))
          (λ inner. (w, λ _. filled s.fence line))

    open_fence-IsReading :
        (line : String) (s : Reading)
        → is_fence o line ≡ true
        → IsReading s
        → IsReading (open_fence o target overlap line s)
          × IsOpen (open_fence o target overlap line s)
    unfolding open_fence
    open_fence-IsReading line s first v =
        let t = flush_table o target overlap s in
        let w = flush_table-IsReading s v in
        let c = record t { caption = last_non_empty o t.body } in
        let u = flush_body o target overlap c in
        let x = flush_body-IsReading c (record { out = w.out; table = w.table; fence = w.fence }) in
        (
          record {
            out = x.out;
            table = x.table;
            fence = snoc-IsKept u.fence line (fence_line line first);
          },
          λ _. filled u.fence line,
        )

    read_row-IsReading :
        (line : String) (s : Reading)
        → is_table_row o line ≡ true
        → IsReading s
        → IsOpen s
        → IsReading (read_row o target overlap line s) × IsOpen (read_row o target overlap line s)
    unfolding read_row
    read_row-IsReading line s row v opened =
        let c = record s { caption = last_non_empty o s.body } in
        let x = flush_body-IsReading c (record { out = v.out; table = v.table; fence = v.fence }) in
        let P : Reading → Type 0 = λ u.
          IsReading (record u { table = u.table ++ line ∷ [] })
          × IsOpen (record u { table = u.table ++ line ∷ [] }) in
        let kept : (ls : List String) → IsKept (ls ++ line ∷ []) =
          λ ls. snoc-IsKept ls line (row_line line row) in
        if_cases P (length s.table == 0)
          (λ _.
            (record { out = x.out; table = kept _; fence = x.fence }, flush_body-IsOpen c opened))
          (λ _. (record { out = v.out; table = kept _; fence = v.fence }, opened))

    read_text-IsReading :
        (line : String) (s : Reading)
        → IsReading s
        → IsOpen s
        → IsReading (read_text o target overlap line s) × IsOpen (read_text o target overlap line s)
    unfolding read_text read_heading
    read_text-IsReading line s v opened =
        let t = flush_table o target overlap s in
        let w = flush_table-IsReading s v in
        let k = flush_table-IsOpen s opened in
        let x = flush_body-IsReading t w in
        elim (atx_heading o line) as (λ h. IsReading (read_as h) × IsOpen (read_as h)) [
          | none ↦ (record { out = w.out; table = w.table; fence = w.fence }, k)
          | some h ↦
              (record { out = x.out; table = x.table; fence = x.fence }, flush_body-IsOpen t k)
        ]
      where
        read_as : Option Heading → Reading
        read_as h = elim h [
          | none ↦ let t = flush_table o target overlap s in record t { body = t.body ++ line ∷ [] }
          | some h ↦ read_heading o target overlap h (flush_table o target overlap s)
        ]

    read_line-IsReading :
        (line : String) (s : Reading)
        → IsReading s
        → IsOpen s
        → IsReading (read_line o target overlap line s) × IsOpen (read_line o target overlap line s)
    unfolding read_line
    read_line-IsReading line s v opened =
        let P : Reading → Type 0 = λ r. IsReading r × IsOpen r in
        if_cases P s.in_fence (λ inside. read_fence-IsReading line s inside v opened)
          λ _.
            if_cases P (is_fence o line) (λ first. open_fence-IsReading line s first v)
              λ _.
                if_cases P (is_table_row o line) (λ row. read_row-IsReading line s row v opened)
                  (λ _. read_text-IsReading line s v opened)

    read_lines-IsReading :
        (ls : List String) (s : Reading)
        → IsReading s
        → IsOpen s
        → IsReading (read_lines o target overlap ls s)
    unfolding read_lines
    read_lines-IsReading [] s v opened = v
    read_lines-IsReading (l ∷ ls) s v opened =
        let (w, k) = read_line-IsReading l s v opened in
        read_lines-IsReading ls (read_line o target overlap l s) w k

    -- The markdown strategy returns no empty piece, also where the text does not close a fence or
    -- a table. Package strings is assumed to trim a text with a line that is not blank to a text
    -- that is not empty.
    pub split_markdown-AreVisible :
        (text : String) → AreVisible (split_markdown o target overlap text)
    unfolding split_markdown
    split_markdown-AreVisible text =
        let v =
          read_lines-IsReading (o.lines text) (start o target overlap)
            (record { out = tt; table = refl; fence = refl }) (λ h. absurd (ground arith)) in
        (flush_body-IsReading _ (flush_table-IsReading _ (flush_fence-IsReading _ v))).out
