-- ===== src/Heap/Array.antt =====
-- Entries of an array, exchanges, and how often a test holds.
use turbograph.Prelude.{
  ℕ, zero, suc, ◌+◌, ◌<◌, ◌≡◌, ap, ◌∙◌, Bool, List, [], ◌∷◌, ◌++◌, none, some, if◌then◌else◌,
  length, take, get_elem?, set, ◌==◌, arith, length-set, get_elem?-set, get_elem?-lt,
}
use turbograph.Heap.{test, swap}

module _ {ℓ} {A : Type ℓ} where
  -- the entry at `i`, and `z` past the end
  abbrev pub nth : A → List A → ℕ → A
  nth z a i = elim (get_elem? a i) [ none ↦ z | some x ↦ x ]

  pub get_elem?-nth : (z : A) (a : List A) (i : ℕ) → i < length a → get_elem? a i ≡ some (nth z a i)
  get_elem?-nth z a i h = ground (arith, get_elem?-lt a i)

  -- how many entries pass a test
  abbrev pub count : (A → Bool) → List A → ℕ
  count p [] = 0
  count p (x ∷ xs) = (if p x then 1 else 0) + count p xs

  -- Two arrays hold the same entries, as often, by whichever test they are counted.
  abbrev pub SameItems : List A → List A → Type ℓ
  SameItems a b = (p : A → Bool) → count p a ≡ count p b

  pub count-append : (p : A → Bool) (a b : List A) → count p (a ++ b) ≡ count p a + count p b
  count-append p [] b = omega arith
  count-append p (x ∷ a) b = omega (arith, count-append p a b)

  pub count-set :
      (p : A → Bool) (a : List A) (i : ℕ) (x y : A)
      → get_elem? a i ≡ some x
      → count p (set a i y) + (if p x then 1 else 0) ≡ count p a + (if p y then 1 else 0)
  count-set p [] i x y h = absurd (ground arith)
  count-set p (w ∷ a) zero x y h = ground arith
  count-set p (w ∷ a) (suc i) x y h = omega (arith, count-set p a i x y h)

  pub count-take :
      (z : A) (p : A → Bool) (n : ℕ) (a : List A)
      → length a ≡ suc n
      → count p (take n a) + (if p (nth z a n) then 1 else 0) ≡ count p a
  count-take z p zero (x ∷ []) h = omega arith
  count-take z p (suc n) (x ∷ a) h = omega (arith, count-take z p n a (omega arith))
  count-take z p zero [] h = absurd (omega arith)
  count-take z p (suc n) [] h = absurd (omega arith)
  count-take z p zero (x ∷ y ∷ a) h = absurd (omega arith)

  module _ (z : A) (a : List A) (i j : ℕ) (hi : i < length a) (hj : j < length a) where
    pub test_lem : (f : A → A → Bool) → test f a i j ≡ f (nth z a i) (nth z a j)
    unfolding test
    test_lem f = ground (arith, get_elem?-nth z a i hi, get_elem?-nth z a j hj)

    swap_lem : swap a i j ≡ set (set a i (nth z a j)) j (nth z a i)
    unfolding swap
    swap_lem = ground (arith, get_elem?-nth z a i hi, get_elem?-nth z a j hj)

    pub length-swap : length (swap a i j) ≡ length a
    length-swap = ap length swap_lem ∙ (length-set _ j (nth z a i) ∙ length-set a i (nth z a j))

    pub nth-swap :
        (c : ℕ)
        → nth z (swap a i j) c
          ≡ (if j == c then nth z a i else if i == c then nth z a j else nth z a c)
    nth-swap c =
        ap (λ b. nth z b c) swap_lem
        ∙ ground (
          arith,
          get_elem?-set (set a i (nth z a j)) j c (nth z a i)
              (omega (arith, length-set a i (nth z a j))),
          get_elem?-set a i c (nth z a j) hi,
        )

    pub swap-SameItems : SameItems (swap a i j) a
    swap-SameItems p =
        ap (count p) swap_lem
        ∙ ground (
          arith,
          get_elem?-nth z a i hi,
          get_elem?-nth z a j hj,
          get_elem?-set a i j (nth z a j) hi,
          count-set p (set a i (nth z a j)) j (nth z a j) (nth z a i),
          count-set p a i (nth z a i) (nth z a j),
        )
