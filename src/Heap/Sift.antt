-- ===== src/Heap/Sift.antt =====
-- The loops of the heaps: an entry that rises, and one that sinks.
use turbograph.Prelude.{
  ℕ, zero, suc, ◌+◌, ◌-◌, ◌*◌, ◌<◌, ◌≡◌, ◌⊎◌, refl, ◌∙◌, inl, inr, Bool, true, false, ◌&&◌, List,
  length, arith, ltb, ◌==◌, if◌then◌else◌, if_cases, Bool-cases,
}
use turbograph.Heap.{parent, test, swap, up, choose, down}
use turbograph.Heap.Array.{nth, test_lem, length-swap, nth-swap, swap-SameItems}
use turbograph.Heap.Order.{IsOrder, IsAbove, IsRising, IsSinking, IsSorting}

module _ {ℓ} {A : Type ℓ} (stays before : A → A → Bool) (order : IsOrder stays before) (z : A) where
  swap-IsSorting :
      (a b : List A) (i j : ℕ)
      → i < length a
      → j < length a
      → IsSorting before z (swap a i j) b
      → IsSorting before z a b
  swap-IsSorting a b i j hi hj s = record {
    heap = s.heap;
    items = λ p. s.items p ∙ swap-SameItems z a i j hi hj p;
    size = s.size ∙ length-swap z a i j hi hj;
  }

  swap-IsRising :
      (a : List A) (i : ℕ)
      → IsRising before z a i
      → 0 < i
      → before (nth z a i) (nth z a (parent i)) ≡ true
      → IsRising before z (swap a (parent i) i) (parent i)
  swap-IsRising a i v pos below =
      let hp : parent i < length a = omega (arith, v.inside) in
      let at = nth-swap z a (parent i) i hp v.inside in
      let size = length-swap z a (parent i) i hp v.inside in
      record {
        inside = omega arith;
        edges = λ c p q r. ground (
          arith,
          at c,
          at (parent c),
          v.edges c,
          v.bridged c,
          order.asym (nth z a i) (nth z a (parent i)) below,
          order.negtrans (nth z a i) (nth z a (parent i)) (nth z a c),
        );
        bridged = λ c p q r t. ground (
          arith,
          at c,
          at (parent (parent i)),
          v.edges c,
          v.edges (parent i),
          order.negtrans (nth z a (parent (parent i))) (nth z a (parent i)) (nth z a c),
        );
      }

  pub up-IsSorting :
      (k : ℕ) (a : List A) (i : ℕ)
      → i < k
      → IsRising before z a i
      → IsSorting before z a (up stays k a i)
  unfolding up
  up-IsSorting zero a i f v = absurd (omega arith)
  up-IsSorting (suc k) a i f v =
      let hp : parent i < length a = omega (arith, v.inside) in
      if_cases (IsSorting before z a) (i == 0)
        (λ root. record {
          heap = λ c p q. v.edges c p q (ground arith);
          items = λ p. refl;
          size = refl;
        })
        (λ deep.
          if_cases (IsSorting before z a) (test stays a (parent i) i)
            (λ settled. record {
              heap = λ c p q. ground (
                arith,
                v.edges c,
                test_lem z a (parent i) i hp v.inside stays,
                order.settled (nth z a (parent i)) (nth z a i),
              );
              items = λ p. refl;
              size = refl;
            })
            (λ below. swap-IsSorting a _ (parent i) i hp v.inside (
              up-IsSorting k (swap a (parent i) i) (parent i) (ground arith) (
                swap-IsRising a i v (ground arith) (
                  ground (
                    arith,
                    test_lem z a (parent i) i hp v.inside stays,
                    order.settled (nth z a (parent i)) (nth z a i),
                  ))))))

  pub irrefl : (x : A) → before x x ≡ false
  irrefl x = elim (Bool-cases (before x x)) [
    | inl loop ↦ absurd (ground (arith, order.asym x x))
    | inr none_before ↦ none_before
  ]

  sides : (i c : ℕ) → 0 < c → parent c ≡ i → (c ≡ 2 * i + 1) ⊎ (c ≡ 2 * i + 2)
  sides i c p e = ground arith

  -- what `choose` finds among `i` and its children
  record IsFirst (a : List A) (i m : ℕ) : Type 0 where
    inside : m < length a
    child : (m ≡ 2 * i + 1) ⊎ (m ≡ 2 * i + 2)
    below : before (nth z a m) (nth z a i) ≡ true
    first : (c : ℕ) → 0 < c → c < length a → parent c ≡ i → IsAbove before z a m c

  choose-cases :
      (a : List A) (i : ℕ)
      → i < length a
      → ((choose before (length a) a i ≡ i)
          × ((c : ℕ) → 0 < c → c < length a → parent c ≡ i → IsAbove before z a i c))
        ⊎ IsFirst a i (choose before (length a) a i)
  unfolding choose
  choose-cases a i h =
      let l = 2 * i + 1 in
      let r = 2 * i + 2 in
      let P : ℕ → Type 0 = λ m.
        ((m ≡ i) × ((c : ℕ) → 0 < c → c < length a → parent c ≡ i → IsAbove before z a i c))
        ⊎ IsFirst a i m in
      let Q : ℕ → Type 0 = λ s. P (if ltb r (length a) && test before a r s then r else s) in
      if_cases Q (ltb l (length a) && test before a l i)
        (λ left.
          let hl : l < length a = ground arith in
          let lb : before (nth z a l) (nth z a i) ≡ true =
            ground (arith, test_lem z a l i hl h before) in
          if_cases P (ltb r (length a) && test before a r l)
            (λ right.
              let hr : r < length a = ground arith in
              let rb : before (nth z a r) (nth z a l) ≡ true =
                ground (arith, test_lem z a r l hr hl before) in
              inr (record {
                inside = hr;
                child = inr refl;
                below = ground (
                  arith,
                  order.asym (nth z a l) (nth z a i) lb,
                  order.negtrans (nth z a l) (nth z a i) (nth z a r),
                );
                first = λ c p q e. ground (
                  arith,
                  sides i c p e,
                  order.asym (nth z a r) (nth z a l) rb,
                  irrefl (nth z a r),
                );
              }))
            (λ other. inr (record {
              inside = hl;
              child = inl refl;
              below = lb;
              first = λ c p q e.
                  ground (arith, sides i c p e, test_lem z a c l q hl before, irrefl (nth z a l));
            })))
        (λ none_left.
          if_cases P (ltb r (length a) && test before a r i)
            (λ right.
              let hr : r < length a = ground arith in
              let rb : before (nth z a r) (nth z a i) ≡ true =
                ground (arith, test_lem z a r i hr h before) in
              inr (record {
                inside = hr;
                child = inr refl;
                below = rb;
                first = λ c p q e. ground (
                  arith,
                  sides i c p e,
                  test_lem z a c i q h before,
                  irrefl (nth z a r),
                  order.asym (nth z a r) (nth z a i) rb,
                  order.negtrans (nth z a r) (nth z a i) (nth z a c),
                );
              }))
            (λ other.
              inl (refl, λ c p q e. ground (arith, sides i c p e, test_lem z a c i q h before))))

  swap-IsSinking :
      (a : List A) (i m : ℕ)
      → i < length a
      → IsSinking before z a i
      → IsFirst a i m
      → IsSinking before z (swap a i m) m
  swap-IsSinking a i m h v s =
      let at = nth-swap z a i m h s.inside in
      let size = length-swap z a i m h s.inside in
      let low = order.asym (nth z a m) (nth z a i) s.below in
      record {
        edges = λ c p q r.
            ground (arith, at c, at (parent c), v.edges c, v.bridged m, s.first c, s.child, low);
        bridged = λ c p q r pos. ground (arith, at c, at (parent m), v.edges c, s.child);
      }

  pub down-IsSorting :
      (k : ℕ) (a : List A) (i : ℕ)
      → length a - i < k
      → i < length a
      → IsSinking before z a i
      → IsSorting before z a (down before k a i)
  unfolding down
  down-IsSorting zero a i f h v = absurd (omega arith)
  down-IsSorting (suc k) a i f h v = elim (choose-cases a i h) [
    | inl (same, least) ↦
        if_cases (IsSorting before z a) (choose before (length a) a i == i)
          (λ _. record {
            heap = λ c p q. ground (arith, v.edges c, least c);
            items = λ p. refl;
            size = refl;
          })
          (λ moved. absurd (ground arith))
    | inr s ↦
        if_cases (IsSorting before z a) (choose before (length a) a i == i)
          (λ stuck. absurd (ground (arith, s.child)))
          (λ _. swap-IsSorting a _ i (choose before (length a) a i) h s.inside (
            down-IsSorting k (swap a i (choose before (length a) a i))
              (choose before (length a) a i)
              (omega (arith, length-swap z a i (choose before (length a) a i) h s.inside, s.child))
              (omega (arith, length-swap z a i (choose before (length a) a i) h s.inside, s.inside))
              (swap-IsSinking a i (choose before (length a) a i) h v s)))
  ]
