-- ===== src/Heap/Tests.antt =====
-- Heaps of numbers, where a smaller number goes up, or goes first.
pub mod Sorting
use turbograph.Prelude.{
  ℕ, zero, suc, ◌+◌, ◌-◌, ◌≤◌, ◌<◌, ◌≡◌, refl, Bool, true, false, not, List, [], ◌∷◌, ◌++◌, some,
  length, ltb, leb, arith, set,
}
use turbograph.Heap.{
  parent, test, swap, up, push, choose, down, replace_root, pop, push_bounded, push_all,
}
use turbograph.Heap.Array.{SameItems}
use turbograph.Heap.Order.{IsOrder, IsHeap, IsSorting}
use turbograph.Heap.Ops.{push-IsSorting, replace_root-IsSorting}
use turbograph.Heap.Bounded.{keeps, IsBest, push_all-IsBest}

abbrev smaller : ℕ → ℕ → Bool
smaller c p = ltb c p

-- the tests of the heaps of index/topheap.go and lexical/bm25.go
keeps-IsOrder : IsOrder (keeps smaller) smaller
keeps-IsOrder = record {
  settled = λ p c. refl;
  asym = λ x y h. ground arith;
  negtrans = λ x y w h k. ground arith;
}

abbrev three : List ℕ
three = 2 ∷ 7 ∷ 4 ∷ []

pushed : push leb 1 three ≡ 1 ∷ 2 ∷ 4 ∷ 7 ∷ []
unfolding push up test swap
pushed = refl

popped : pop smaller (1 ∷ 2 ∷ 4 ∷ 7 ∷ []) ≡ some (1, 2 ∷ 7 ∷ 4 ∷ [])
unfolding pop down choose test swap
popped = refl

best_two : push_all smaller 2 (5 ∷ 9 ∷ 1 ∷ 7 ∷ []) [] ≡ 7 ∷ 9 ∷ []
unfolding push_all push_bounded push up replace_root down choose test swap
best_two = refl

push_all-IsBest_example :
    (d : List ℕ) × IsBest smaller 2
      (5 ∷ 9 ∷ 1 ∷ 7 ∷ [])
      (push_all smaller 2 (5 ∷ 9 ∷ 1 ∷ 7 ∷ []) [])
      d
push_all-IsBest_example = push_all-IsBest smaller keeps-IsOrder 0 2 (5 ∷ 9 ∷ 1 ∷ 7 ∷ [])
