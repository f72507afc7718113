-- ===== src/Prelude/Sorting.antt =====
-- sort.Slice and sort.Strings as an insertion sort: `before` is the `less` of the call.
use Prim.Native.Nat.{ℕ, ◌+◌}
use mathlib.Core.Path.{◌≡◌, refl}
use mathlib.Core.Bool.{Bool}
use mathlib.Core.List.{List, [], ◌∷◌}
use native.Mathlib.Omega.{arith}
use turbograph.Prelude.Tests.{if◌then◌else◌, if_cases}

module _ {ℓ} {A : Type ℓ} where
  unfoldable pub sort_in : (A → A → Bool) → A → List A → List A
  sort_in before x [] = x ∷ []
  sort_in before x (y ∷ ys) =
      let rest = sort_in before x ys in if before y x then y ∷ rest else x ∷ y ∷ ys

  unfoldable pub sort_by : (A → A → Bool) → List A → List A
  unfolding sort_in
  sort_by before [] = []
  sort_by before (x ∷ xs) = sort_in before x (sort_by before xs)

  abbrev pub sum_by : (A → ℕ) → List A → ℕ
  sum_by f [] = 0
  sum_by f (x ∷ xs) = f x + sum_by f xs

  sum_by-sort_in :
      (f : A → ℕ) (before : A → A → Bool) (x : A) (ys : List A)
      → sum_by f (sort_in before x ys) ≡ f x + sum_by f ys
  unfolding sort_in
  sum_by-sort_in f before x [] = refl
  sum_by-sort_in f before x (y ∷ ys) =
      if_cases (λ (r : List A). sum_by f r ≡ f x + sum_by f (y ∷ ys)) (before y x)
        (λ _. omega (arith, sum_by-sort_in f before x ys)) (λ _. refl)

  -- a sum over a sorted list is the sum over the list
  pub sum_by-sort_by :
      (f : A → ℕ) (before : A → A → Bool) (xs : List A) → sum_by f (sort_by before xs) ≡ sum_by f xs
  unfolding sort_by
  sum_by-sort_by f before [] = refl
  sum_by-sort_by f before (x ∷ xs) =
      omega (arith, sum_by-sort_in f before x (sort_by before xs), sum_by-sort_by f before xs)
