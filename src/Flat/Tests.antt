-- ===== src/Flat/Tests.antt =====
-- A flat index of whole numbers, which are their own codes, scored by their distance.
use turbograph.Prelude.{ℕ, ◌+◌, ◌-◌, ◌≡◌, refl, true, List, [], ◌∷◌, ltb, arith}
use turbograph.Heap.{push_all, push_bounded, push, up, replace_root, down, choose, test, swap}
use turbograph.Heap.Bounded.{IsBest}
use turbograph.Heap.Merge.{IsRanked}
use turbograph.Heap.Tests.Sorting.{sort_by, sort_by-SameItems, sort_by-ranked}
use turbograph.Flat.{
  Metric, l2, Codes, FlatIndex, Hit, top_worse, hits_from, scan_parts, scan, flat_search,
}
use turbograph.Flat.Scan.{IsRating, scan-IsBest}

abbrev points : Codes
points = record {
  Vec = ℕ;
  Code = ℕ;
  Query = ℕ;
  Norm = ℕ;
  Score = ℕ;
  encode = λ v. v;
  prepare_query = λ v. v;
  score = λ m q c. (q - c) + (c - q);
  vnorm = λ v. v;
  exact = λ m q qn v n. (q - v) + (v - q);
  less = ltb;
}

points-IsRating : IsRating points
points-IsRating = record { asym = λ a b h. ground arith; negtrans = λ a b c h k. ground arith }

abbrev five : FlatIndex points
five = record {
  metric = l2;
  codes = 10 ∷ 3 ∷ 7 ∷ 8 ∷ 30 ∷ [];
  ids = "a" ∷ "b" ∷ "c" ∷ "d" ∷ "e" ∷ [];
  keep_vecs = true;
  vdim = 1;
  vecs = 10 ∷ 3 ∷ 7 ∷ 8 ∷ 30 ∷ [];
  vnorms = 10 ∷ 3 ∷ 7 ∷ 8 ∷ 30 ∷ [];
}

abbrev best_first : Metric → List (Hit points) → List (Hit points)
best_first m = sort_by (λ a b. top_worse m b a)

best_first-IsRanked :
    (m : Metric) (hs : List (Hit points)) → IsRanked (top_worse m) (best_first m hs)
unfolding top_worse
best_first-IsRanked m hs n =
    sort_by-ranked (λ a b. top_worse m b a) (λ x y h. ground arith) (λ x y w h k. ground arith) hs n

found : flat_search best_first 2 five 6 2 2 ≡ ("c", 1) ∷ ("d", 2) ∷ []
unfolding flat_search scan scan_parts push_all push_bounded push up replace_root down choose test
    swap top_worse
found = refl

scan-IsBest_example :
    (dropped : List (Hit points)) × IsBest
      (top_worse l2)
      2
      (hits_from l2 6 0 five.codes)
      (scan best_first 2 five 6 2)
      dropped
scan-IsBest_example =
    scan-IsBest points-IsRating 0 best_first (λ m. sort_by-SameItems (λ a b. top_worse m b a))
      best_first-IsRanked 2 five 6 2 (omega arith) (omega arith)
