-- ===== src/Hnsw/Visited.antt =====
-- The operations of a visited set of index/hnsw_heap.go.
use turbograph.Prelude.{
  ℕ, zero, suc, ◌+◌, ◌%◌, ◌≤◌, ◌<◌, ◌≡◌, inl, inr, false, List, ◌++◌, none, some, length, get_elem?,
  drop, replicate, ltb, ◌==◌, arith, if_cases, Option-cases, length-replicate,
}
use turbograph.Hnsw.{VisitedSet, grow, clear, reset, seen}

-- The slice fits its array, the epoch fits 32 bits, and no mark of the array is from a later epoch.
pub record IsEpochal (v : VisitedSet) : Type 0 where
  pub fits : v.n ≤ length v.array
  pub small : v.epoch < 4294967296
  pub past : (i m : ℕ) → get_elem? v.array i ≡ some m → m ≤ v.epoch

get_elem?-replicate : (n i m : ℕ) → get_elem? (replicate n 0) i ≡ some m → m ≡ 0
get_elem?-replicate zero i m h = ground arith
get_elem?-replicate (suc n) zero m h = ground arith
get_elem?-replicate (suc n) (suc i) m h = get_elem?-replicate n i m h

get_elem?-clear :
    (n i m : ℕ) (xs : List ℕ) → i < n → get_elem? (replicate n 0 ++ xs) i ≡ some m → m ≡ 0
get_elem?-clear zero i m xs h found = absurd (omega arith)
get_elem?-clear (suc n) zero m xs h found = ground arith
get_elem?-clear (suc n) (suc i) m xs h found = get_elem?-clear n i m xs (omega arith) found

grow-IsEpochal : (n : ℕ) (v : VisitedSet) → IsEpochal v → IsEpochal (grow n v)
unfolding grow
grow-IsEpochal n v h =
    if_cases IsEpochal (ltb (length v.array) n)
      (λ short. record {
        fits = omega (arith, length-replicate {A = ℕ} n 0);
        small = omega arith;
        past = λ i m found. omega (arith, get_elem?-replicate n i m found);
      })
      (λ long. record { fits = ground arith; small = h.small; past = h.past })

next_epoch :
    (e : ℕ) → e < 4294967296 → ((e + 1) % 4294967296 == 0) ≡ false → (e + 1) % 4294967296 ≡ e + 1
next_epoch e small plain = ground arith

unmarked :
    (xs : List ℕ) (e i : ℕ)
    → ((m : ℕ) → get_elem? xs i ≡ some m → (m == e) ≡ false)
    → (elim (get_elem? xs i) [ none ↦ false | some m ↦ m == e ]) ≡ false
unmarked xs e i h = elim (Option-cases (get_elem? xs i)) [
  | inl missing ↦ ground arith
  | inr (m, found) ↦ ground (arith, h m found)
]

-- After a reset for n nodes of a visited set in which no mark is from a later epoch, none of the n
-- nodes is seen, also where the epoch wraps around.
pub reset-unseen : (n i : ℕ) (v : VisitedSet) → IsEpochal v → i < n → seen i (reset n v) ≡ false
unfolding reset seen clear
reset-unseen n i v h inside =
    let g : VisitedSet = grow n v in
    let w = grow-IsEpochal n v h in
    if_cases
      (λ (r : VisitedSet).
        (elim (get_elem? r.array i) [ none ↦ false | some m ↦ m == r.epoch ]) ≡ false)
      ((g.epoch + 1) % 4294967296 == 0)
      (λ wrapped.
        unmarked (clear n g.array) 1 i
          (λ m found. ground (arith, get_elem?-clear n i m (drop n g.array) inside found)))
      (λ plain. unmarked g.array ((g.epoch + 1) % 4294967296) i (λ m found.
        let before : m ≤ g.epoch = w.past i m found in
        let next : (g.epoch + 1) % 4294967296 ≡ g.epoch + 1 = next_epoch g.epoch w.small plain in
        ground arith))
