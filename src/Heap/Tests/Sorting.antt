-- ===== src/Heap/Tests/Sorting.antt =====
-- A sort for the runs: `before` tells what goes first.
use turbograph.Prelude.{
  ℕ, ap, ◌+◌, ◌≡◌, refl, Bool, List, [], ◌∷◌, if◌then◌else◌, arith, if_cases, zero, suc, true,
  false, All, All-map, take, drop,
}
use turbograph.Heap.Array.{count, SameItems}

module _ {A : Type 0} (before : A → A → Bool) where
  abbrev pub sort_in : A → List A → List A
  sort_in x [] = x ∷ []
  sort_in x (y ∷ ys) = let rest = sort_in x ys in if before y x then y ∷ rest else x ∷ y ∷ ys

  abbrev pub sort_by : List A → List A
  sort_by [] = []
  sort_by (x ∷ xs) = sort_in x (sort_by xs)

  sort_in-count :
      (p : A → Bool) (x : A) (ys : List A)
      → count p (sort_in x ys) ≡ (if p x then 1 else 0) + count p ys
  sort_in-count p x [] = refl
  sort_in-count p x (y ∷ ys) =
      if_cases (λ (r : List A). count p r ≡ (if p x then 1 else 0) + count p (y ∷ ys)) (before y x)
        (λ _. omega (arith, sort_in-count p x ys)) (λ _. refl)

  pub sort_by-SameItems : (xs : List A) → SameItems (sort_by xs) xs
  sort_by-SameItems [] p = refl
  sort_by-SameItems (x ∷ xs) p =
      omega (arith, sort_in-count p x (sort_by xs), sort_by-SameItems xs p)

  -- no entry stands behind one that is worse, where what goes first is what is not worse
  abbrev Sorted : List A → Type 0
  Sorted [] = Unit
  Sorted (x ∷ xs) = All (λ d. before d x ≡ false) xs × Sorted xs

  module _ (asym : (x y : A) → before x y ≡ true → before y x ≡ false)
      (negtrans : (x y w : A) → before y x ≡ false → before w y ≡ false → before w x ≡ false) where
    sort_in-All :
        (d x : A) (ys : List A)
        → before x d ≡ false
        → All (λ y. before y d ≡ false) ys
        → All (λ y. before y d ≡ false) (sort_in x ys)
    sort_in-All d x [] hx hs = (hx, tt)
    sort_in-All d x (y ∷ ys) hx hs =
        if_cases (All (λ y. before y d ≡ false)) (before y x)
          (λ _. (hs.0, sort_in-All d x ys hx hs.1)) (λ _. (hx, hs))

    sort_in-Sorted : (x : A) (ys : List A) → Sorted ys → Sorted (sort_in x ys)
    sort_in-Sorted x [] s = (tt, tt)
    sort_in-Sorted x (y ∷ ys) s =
        if_cases Sorted (before y x)
          (λ first. (sort_in-All y x ys (asym y x first) s.0, sort_in-Sorted x ys s.1))
          (λ behind. ((behind, All-map ys (λ d h. negtrans x y d behind h) s.0), s))

    sort_by-Sorted : (xs : List A) → Sorted (sort_by xs)
    sort_by-Sorted [] = tt
    sort_by-Sorted (x ∷ xs) = sort_in-Sorted x (sort_by xs) (sort_by-Sorted xs)

    All-drop : (P : A → Type 0) (n : ℕ) (xs : List A) → All P xs → All P (drop n xs)
    All-drop P zero xs h = h
    All-drop P (suc n) [] h = tt
    All-drop P (suc n) (x ∷ xs) h = All-drop P n xs h.1

    both :
        {P Q R : A → Type 0} (xs : List A)
        → ((x : A) → P x → Q x → R x)
        → All P xs
        → All Q xs
        → All R xs
    both [] f h k = tt
    both (x ∷ xs) f h k = (f x h.0 k.0, both xs f h.1 k.1)

    ranked :
        (n : ℕ) (xs : List A)
        → Sorted xs
        → All (λ d. count (λ y. before d y) (take n xs) ≡ 0) (drop n xs)
    ranked zero [] s = tt
    ranked zero (x ∷ xs) s = (refl, ranked zero xs s.1)
    ranked (suc n) [] s = tt
    ranked (suc n) (x ∷ xs) s =
        both (drop n xs)
          (λ d out none_first. omega (arith, ap {B = ℕ} (λ b. if b then 1 else 0) out, none_first))
          (All-drop (λ d. before d x ≡ false) n xs s.0) (ranked n xs s.1)

    pub sort_by-ranked :
        (xs : List A) (n : ℕ)
        → All (λ d. count (λ y. before d y) (take n (sort_by xs)) ≡ 0) (drop n (sort_by xs))
    sort_by-ranked xs n = ranked n (sort_by xs) (sort_by-Sorted xs)
