-- ===== src/Heap/Items.antt =====
-- The entries of the arrays that the heap operations make, whatever the tests and the array.
use mathlib.Core.Option.{some_inj}
use turbograph.Prelude.{
  ℕ, zero, suc, ◌+◌, ◌≤◌, ◌<◌, ◌≡◌, refl, sym, ap, ◌∙◌, subst, inl, inr, Bool, true, List, [], ◌∷◌,
  ◌++◌, some, if◌then◌else◌, length, take, get_elem?, set, arith, Option-cases,
}
use turbograph.Heap.{parent, swap, up, down, choose, push, pop}
use turbograph.Heap.Array.{nth, count, swap-SameItems, count-append, count-take, get_elem?-nth}

module _ {ℓ} {A : Type ℓ} where
  get_elem?-inside : (a : List A) (i : ℕ) (x : A) → get_elem? a i ≡ some x → i < length a
  get_elem?-inside [] i x h = absurd (ground arith)
  get_elem?-inside (y ∷ a) zero x h = omega arith
  get_elem?-inside (y ∷ a) (suc i) x h = omega (arith, get_elem?-inside a i x h)

  swap-count : (p : A → Bool) (a : List A) (i j : ℕ) → count p (swap a i j) ≡ count p a
  unfolding swap
  swap-count p a i j = elim (Option-cases (get_elem? a i)) [
    | inl missing ↦ ground (arith, missing)
    | inr (x, found) ↦ elim (Option-cases (get_elem? a j)) [
      | inl missing ↦ ground (arith, found, missing)
      | inr (y, there) ↦
          swap-SameItems x a i j (get_elem?-inside a i x found) (get_elem?-inside a j y there) p
    ]
  ]

  up-count :
      (stays : A → A → Bool) (p : A → Bool) (k : ℕ) (a : List A) (i : ℕ)
      → count p (up stays k a i) ≡ count p a
  unfolding up
  up-count stays p zero a i = refl
  up-count stays p (suc k) a i =
      ground
        (arith, up-count stays p k (swap a (parent i) i) (parent i), swap-count p a (parent i) i)

  down-count :
      (before : A → A → Bool) (p : A → Bool) (k : ℕ) (a : List A) (i : ℕ)
      → count p (down before k a i) ≡ count p a
  unfolding down
  down-count before p zero a i = refl
  down-count before p (suc k) a i =
      let c = choose before (length a) a i in
      ground (arith, down-count before p k (swap a i c) c, swap-count p a i c)

  pub push-count :
      (stays : A → A → Bool) (p : A → Bool) (x : A) (a : List A)
      → count p (push stays x a) ≡ count p a + (if p x then 1 else 0)
  unfolding push
  push-count stays p x a =
      omega (
        arith,
        up-count stays p (suc (length a)) (a ++ x ∷ []) (length a),
        count-append p a (x ∷ []),
      )

  pub count-length : (a : List A) → count (λ _. true) a ≡ length a
  count-length [] = refl
  count-length (x ∷ a) = omega (arith, count-length a)

  pub count-le : (p : A → Bool) (a : List A) → count p a ≤ length a
  count-le p [] = omega arith
  count-le p (x ∷ a) = ground (arith, count-le p a)

  pub count_mono :
      (p q : A → Bool) → ((x : A) → p x ≡ true → q x ≡ true) → (a : List A) → count p a ≤ count q a
  count_mono p q h [] = omega arith
  count_mono p q h (x ∷ a) = ground (arith, h x, count_mono p q h a)

  last_stays :
      (top : A) (xs : List A)
      → nth top (nth top (top ∷ xs) (length xs) ∷ xs) (length xs) ≡ nth top (top ∷ xs) (length xs)
  last_stays top [] = refl
  last_stays top (x ∷ xs) = refl

  -- `pop` takes the first entry and leaves the others.
  pub pop-count :
      (before : A → A → Bool) (top : A) (xs : List A)
      → (b : List A) × (pop before (top ∷ xs) ≡ some (top, b))
        × ((p : A → Bool) → count p b + (if p top then 1 else 0) ≡ count p (top ∷ xs))
  unfolding pop
  pop-count before top xs =
      let n = length xs in
      let last = nth top (top ∷ xs) n in
      let found : get_elem? (top ∷ xs) n ≡ some last =
        get_elem?-nth top (top ∷ xs) n (omega arith) in
      let a : List A = take n (set (top ∷ xs) 0 last) in
      (
        down before (suc n) a 0,
        ground (arith, found),
        λ p. omega (
          arith,
          down-count before p (suc n) a 0,
          count-take top p n (last ∷ xs) refl,
          ap {B = ℕ} (λ x. if p x then 1 else 0) (last_stays top xs),
        ),
      )

  pub length-push :
      (stays : A → A → Bool) (x : A) (a : List A) → length (push stays x a) ≡ suc (length a)
  length-push stays x a =
      omega (arith, push-count stays (λ _. true) x a, count-length (push stays x a), count-length a)

  pub popped-count :
      (before : A → A → Bool) (p : A → Bool) (a : List A) (r : A × List A)
      → pop before a ≡ some r
      → count p r.1 + (if p r.0 then 1 else 0) ≡ count p a
  unfolding pop
  popped-count before p [] r found = absurd (ground arith)
  popped-count before p (top ∷ xs) r found =
      let (b, same, items) = pop-count before top xs in
      let there : (top, b) ≡ r = some_inj.0 (sym same ∙ found) in
      subst (λ (w : A × List A). count p w.1 + (if p w.0 then 1 else 0) ≡ count p (top ∷ xs)) there
        (items p)

  pub length-popped :
      (before : A → A → Bool) (a : List A) (r : A × List A)
      → pop before a ≡ some r
      → suc (length r.1) ≡ length a
  length-popped before a r found =
      omega (arith, popped-count before (λ _. true) a r found, count-length r.1, count-length a)
