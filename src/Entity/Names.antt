-- ===== src/Entity/Names.antt =====
-- mergeableNames of entity/canonical.go: whether a name is a surface variant of another one.
use Prim.Native.String.{String}
use text.Mathlib.Text.{◌==◌ as str_eq}
use turbograph.Prelude.{
  ℕ, ◌*◌, Bool, true, false, not, ◌||◌, List, [], ◌∷◌, none, some, if◌then◌else◌, length, ltb, leb,
  max, ◌==◌,
}
use turbograph.Prelude.Keys.{string_key}
use turbograph.Prelude.Assoc.{contains}
use turbograph.Entity.{is_blank}
use turbograph.Entity.Distance.{levenshtein}
use turbograph.Entity.Prune.{generic_names}

-- The bytes of a string, and strings.Fields.
pub record Spelling : Type 0 where
  pub bytes : String → List ℕ
  pub fields : String → List String

-- 1 - part / whole, as the pair of the two numbers
abbrev pub Ratio : Type 0
Ratio = ℕ × ℕ

-- `ratio >= 0.9`; exact as long as the lengths are below 2^50
abbrev pub is_high : Ratio → Bool
is_high r = leb (10 * r.0) r.1

module _ (sp : Spelling) where
  abbrev pub byte_len : String → ℕ
  byte_len s = length (sp.bytes s)

  -- levenshtein never panics
  abbrev pub edit_distance : String → String → ℕ
  edit_distance a b = elim (levenshtein (sp.bytes a) (sp.bytes b)) [ none ↦ 0 | some d ↦ d ]

  unfoldable pub edit_ratio : String → String → Ratio
  edit_ratio a b =
      if str_eq a b
      then (0, 1)
      else if max (byte_len a) (byte_len b) == 0
      then (0, 1)
      else (edit_distance a b, max (byte_len a) (byte_len b))

  -- a token that a short name may share with a long one
  unfoldable pub is_salient : List String → String → Bool
  is_salient long_tokens tk =
      not (ltb (byte_len tk) 4 || contains generic_names tk || not (contains long_tokens tk))

  unfoldable pub all_salient : List String → List String → Bool
  all_salient long_tokens [] = true
  all_salient long_tokens (tk ∷ tks) =
      let rest = all_salient long_tokens tks in if is_salient long_tokens tk then rest else false

  unfoldable pub is_short_form : String → String → Bool
  is_short_form short long =
      let st = sp.fields short in
      let lt = sp.fields long in
      if ltb (length lt) 2 || length st == 0 || leb (length lt) (length st)
      then false
      else all_salient lt st

  unfoldable pub mergeable_names : String → String → Bool
  mergeable_names a b =
      if str_eq a b || is_blank a || is_blank b
      then false
      else if is_high (edit_ratio a b)
      then true
      else if ltb (byte_len b) (byte_len a)
      then is_short_form b a
      else is_short_form a b
