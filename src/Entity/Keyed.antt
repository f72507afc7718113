-- ===== src/Entity/Keyed.antt =====
-- The keys of a map and their order, as Canonicalize goes through them.
use Prim.Native.String.{String}
use text.Mathlib.Text.{◌==◌ as str_eq}
use text.Mathlib.TextEquality.{eq_iff}
use turbograph.Prelude.{
  ◌≡◌, refl, subst, inl, inr, Bool, true, List, [], ◌∷◌, none, some, arith, if◌then◌else◌,
  Bool-cases, All, All-map, if_cases,
}
use turbograph.Prelude.Keys.{Eq, string_key, pair_key}
use turbograph.Prelude.Assoc.{lookup, has, contains, IsMap, keys_where}
use turbograph.Prelude.Sorting.{sum_by, sort_in, sort_by}
use turbograph.Entity.{Entity}
use turbograph.Entity.Canonical.{entity_at}
use turbograph.Entity.Heads.{occurrences}
use turbograph.Entity.Merged.{total_mentions}

lookup_behind {ℓ κ} :
    {K : Type ℓ} {V : Type κ} ⦃e : Eq K⦄ (k j : K) (v w : V) (m : List (K × V))
    → lookup k m ≡ none
    → lookup j m ≡ some w
    → lookup j ((k, v) ∷ m) ≡ some w
unfolding lookup
lookup_behind ⦃e⦄ k j v w m out found = ground (arith, e.beq_iff k j)

-- every entry of a map is found under its key
pub IsMap-All {ℓ κ} :
    {K : Type ℓ} {V : Type κ} ⦃e : Eq K⦄ (m : List (K × V))
    → IsMap m
    → All (λ (x : K × V). lookup x.0 m ≡ some x.1) m
unfolding lookup
IsMap-All [] h = tt
IsMap-All ⦃e⦄ ((k, v) ∷ m) h = (
  ground (arith, e.beq_iff k k),
  All-map m (λ x found. lookup_behind k x.0 v x.1 m h.0 found) (IsMap-All m h.1),
)

module _ {ℓ} {A : Type ℓ} where
  All-sort_in :
      (P : A → Type 0) (before : A → A → Bool) (x : A) (ys : List A)
      → P x
      → All P ys
      → All P (sort_in before x ys)
  unfolding sort_in
  All-sort_in P before x [] h hs = (h, tt)
  All-sort_in P before x (y ∷ ys) h hs =
      if_cases (All P) (before y x) (λ _. (hs.0, All-sort_in P before x ys h hs.1)) (λ _. (h, hs))

  pub All-sort_by :
      (P : A → Type 0) (before : A → A → Bool) (xs : List A) → All P xs → All P (sort_by before xs)
  unfolding sort_by
  All-sort_by P before [] h = tt
  All-sort_by P before (x ∷ xs) h =
      All-sort_in P before x (sort_by before xs) h.0 (All-sort_by P before xs h.1)

pub All-contains :
    (P : String → Type 0) (xs : List String) (n : String) → All P xs → contains xs n ≡ true → P n
unfolding contains
All-contains P [] n h c = absurd (cc)
All-contains P (x ∷ xs) n h c = elim (Bool-cases (str_eq x n)) [
  | inl same ↦ subst P ((eq_iff x n).0 same) h.0
  | inr other ↦ All-contains P xs n h.1 (ground arith)
]

-- the keys of a map
abbrev pub keys_of : List (String × Entity) → List String
keys_of = keys_where (λ _ _. true)

pub occurrences-keys_of :
    (k : String) (m : List (String × Entity))
    → IsMap m
    → occurrences k (keys_of m) ≡ (if has k m then 1 else 0)
unfolding lookup keys_where
occurrences-keys_of k [] h = refl
occurrences-keys_of k ((j, e) ∷ m) h = ground (arith, eq_iff j k, occurrences-keys_of k m h.1, h.0)

pub All-keys_of :
    (P : String → Type 0) (m : List (String × Entity)) → All (λ x. P x.0) m → All P (keys_of m)
unfolding keys_where
All-keys_of P [] h = tt
All-keys_of P ((k, e) ∷ m) h = (h.0, All-keys_of P m h.1)

pub sum_by-keys_of :
    (entities m : List (String × Entity))
    → All (λ x. lookup x.0 entities ≡ some x.1) m
    → sum_by (λ n. (entity_at n entities).mentions) (keys_of m) ≡ total_mentions m
unfolding keys_where total_mentions
sum_by-keys_of entities [] h = refl
sum_by-keys_of entities ((k, e) ∷ m) h =
    let here : entity_at k entities ≡ e = rw (h.0, entity_at) refl in
    rw here (omega (arith, sum_by-keys_of entities m h.1))
