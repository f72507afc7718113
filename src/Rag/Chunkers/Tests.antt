-- ===== src/Rag/Chunkers/Tests.antt =====
-- The chunkers over strings that are one word, or a list of known lines.
use Prim.Native.String.{String, ◌++◌ as concat}
use text.Mathlib.Text.{◌==◌ as str_eq}
use text.Mathlib.TextEquality.{eq_iff}
use text.Mathlib.TextLemmas.{append-eq-nil_iff}
use turbograph.Prelude.{
  ◌≤◌, ◌<◌, ◌≡◌, refl, Bool, true, false, not, List, [], ◌∷◌, if◌then◌else◌, length, arith, any,
  All,
}
use turbograph.Rag.Chunkers.{Strings, windows, split_markdown}
use turbograph.Rag.Chunkers.Windows.{rejoin, windows_lem}
use turbograph.Rag.Chunkers.Visible.{AreVisible}
use turbograph.Rag.Chunkers.Kept.{StringLaws, split_markdown-AreVisible}

-- "x" is the only text: a blank one stays blank, and any other is "x"
abbrev shape : Bool → String
shape true = "x"
shape false = ""

abbrev is_text : String → Bool
is_text s = not (str_eq s "")

abbrev toy : Strings
toy = record {
  fields = λ s. if is_text s then s ∷ [] else [];
  join = λ xs _. shape (any is_text xs);
  trim = λ s. s;
  split_after = λ s _. s ∷ [];
  lines = λ _. "```" ∷ "x" ∷ "" ∷ "```" ∷ "x" ∷ [];
  has_prefix = λ s p. str_eq s p;
  count = λ _ _. 0;
  bytes = λ _. [];
  from = λ s _. s;
}

shape_lem : (b : Bool) → b ≡ true → str_eq (shape b) "" ≡ false
shape_lem true h = refl
shape_lem false h = absurd (ground arith)

toy_laws : StringLaws toy
toy_laws = record {
  trim-join = λ xs h. shape_lem (any is_text xs) h;
  trim-concat = λ c r h.
      ground (arith, eq_iff (concat c r) "", eq_iff r "", append-eq-nil_iff {p = c} {q = r});
  fence_prefix = refl;
  row_prefix = refl;
}

split_markdown-AreVisible_example : AreVisible (split_markdown toy 100 20 "text")
split_markdown-AreVisible_example = split_markdown-AreVisible toy toy_laws 100 20 "text"

abbrev five : List String
five = "a" ∷ "b" ∷ "c" ∷ "d" ∷ "e" ∷ []

windows_lem_example :
    (rejoin 2 (windows 5 3 2 five) ≡ five)
    × All (λ w. (0 < length w) × (length w ≤ 3)) (windows 5 3 2 five)
windows_lem_example = windows_lem 5 3 2 five (omega arith) (omega arith) (omega arith)
