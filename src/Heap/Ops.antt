-- ===== src/Heap/Ops.antt =====
-- The operations of the heaps.
use turbograph.Prelude.{
  ℕ, zero, suc, ◌<◌, Bool, List, [], ◌∷◌, ◌++◌, length, take, set, arith, length-append, length-set,
  get_elem?-set, get_elem?-snoc,
}
use turbograph.Heap.{parent, push, replace_root}
use turbograph.Heap.Array.{nth}
use turbograph.Heap.Order.{IsOrder, IsAbove, IsHeap, IsSorting}
use turbograph.Heap.Sift.{irrefl, up-IsSorting, down-IsSorting}

module _ {ℓ} {A : Type ℓ} (stays before : A → A → Bool) (order : IsOrder stays before) (z : A) where
  -- A push makes a heap of the entries of the heap and the new one.
  pub push-IsSorting :
      (x : A) (a : List A) → IsHeap before z a → IsSorting before z (a ++ x ∷ []) (push stays x a)
  unfolding push
  push-IsSorting x a h =
      up-IsSorting stays before order z (suc (length a)) (a ++ x ∷ []) (length a) (omega arith)
        (record {
          inside = omega (arith, length-append a (x ∷ []));
          edges = λ c p q r. ground (
            arith,
            length-append a (x ∷ []),
            get_elem?-snoc a x c,
            get_elem?-snoc a x (parent c),
            h c,
          );
          bridged = λ c p q e pos. absurd (omega (arith, length-append a (x ∷ []), e));
        })

  -- A replaced root gives a heap of the entries with the new one in its place.
  pub replace_root-IsSorting :
      (x : A) (a : List A)
      → 0 < length a
      → IsHeap before z a
      → IsSorting before z (set a 0 x) (replace_root before x a)
  unfolding replace_root
  replace_root-IsSorting x a pos h =
      down-IsSorting stays before order z (suc (length a)) (set a 0 x) 0
        (omega (arith, length-set a 0 x)) (omega (arith, length-set a 0 x))
        (record {
          edges = λ c p q r. ground (
            arith,
            length-set a 0 x,
            get_elem?-set a 0 c x pos,
            get_elem?-set a 0 (parent c) x pos,
            h c,
          );
          bridged = λ c p q e pos. absurd (omega arith);
        })

  root_first_below :
      (k : ℕ) (a : List A) (i : ℕ)
      → IsHeap before z a
      → i < k
      → i < length a
      → IsAbove before z a 0 i
  root_first_below zero a i h f p = absurd (omega arith)
  root_first_below (suc k) a zero h f p = irrefl stays before order z (nth z a 0)
  root_first_below (suc k) a (suc i) h f p = ground (
    arith,
    h (suc i),
    root_first_below k a (parent (suc i)) h,
    order.negtrans (nth z a 0) (nth z a (parent (suc i))) (nth z a (suc i)),
  )

  -- No entry of a heap comes before its root.
  pub root_first : (a : List A) (i : ℕ) → IsHeap before z a → i < length a → IsAbove before z a 0 i
  root_first a i h p = root_first_below (suc i) a i h (omega arith) p

  -- the array that `pop` sinks the root of
  abbrev moved : A → List A → List A
  moved top xs = take (length xs) (set (top ∷ xs) 0 (nth z (top ∷ xs) (length xs)))
