-- ===== src/Graph/Propagate.antt =====
-- graph/community.go: label propagation. A sum of weights is of the type of the weights; the weight
-- -1 that the loop over the labels starts from is no weight, and any label is heavier.
use Prim.Native.Nat.{bit_xor}
use turbograph.Prelude.{
  ℕ, zero, suc, ◌+◌, ◌-◌, ◌*◌, ◌/◌, ◌%◌, ◌^◌, Bool, true, false, ◌&&◌, ◌||◌, List, [], ◌∷◌, Option,
  none, some, if◌then◌else◌, length, get_elem?, set, ltb, ◌==◌,
}
use turbograph.Prelude.Keys.{nat_key}
use turbograph.Prelude.Assoc.{lookup, insert}
use turbograph.Heap.{swap}
use turbograph.Graph.Defs.{Weights}
use turbograph.Graph.Community.{Communities, compact}
use turbograph.Graph.Rows.{Csr, node_count, degree, neighbors}

-- the sum of weights
pub record Sums (ω : Weights) : Type 0 where
  pub plus : ω.Weight → ω.Weight → ω.Weight
  pub same : ω.Weight → ω.Weight → Bool

-- splitMix64.next: the number and the next state
unfoldable pub next : ℕ → ℕ × ℕ
next state =
    let s = (state + 11400714819323198485) % 2 ^ 64 in
    let y = (bit_xor s (s / 2 ^ 30) * 13787848793156543929) % 2 ^ 64 in
    let x = (bit_xor y (y / 2 ^ 27) * 10723151780598845931) % 2 ^ 64 in (bit_xor x (x / 2 ^ 31), s)

-- the loop of shuffle from `i` down
unfoldable pub shuffle_from : ℕ → List ℕ → ℕ → List ℕ × ℕ
shuffle_from zero order rng = (order, rng)
shuffle_from (suc i) order rng =
    let r = next rng in shuffle_from i (swap order (suc i) (r.0 % (suc i + 1))) r.1

unfoldable pub shuffle : List ℕ → ℕ → List ℕ × ℕ
shuffle order rng = shuffle_from (length order - 1) order rng

-- the numbers from `i` on
abbrev pub numbers : ℕ → ℕ → List ℕ
numbers i zero = []
numbers i (suc n) = i ∷ numbers (suc i) n

module _ {ω : Weights} (u : Sums ω) where
  -- `weightByLabel[labels[j]] += w`
  unfoldable pub weigh : List ℕ → List (ℕ × ω.Weight) → List (ℕ × ω.Weight) → List (ℕ × ω.Weight)
  weigh labs [] m = m
  weigh labs ((j, w) ∷ es) m = elim (get_elem? labs j) [
    | none ↦ weigh labs es m
    | some l ↦ weigh labs es (insert l (elim (lookup l m) [ none ↦ w | some v ↦ u.plus v w ]) m)
  ]

  -- whether a label is heavier, or as heavy and smaller
  abbrev pub is_better : ℕ → ω.Weight → ℕ → Option ω.Weight → Bool
  is_better lab w best heaviest = elim heaviest [
    | none ↦ true
    | some b ↦ ω.above w b || (u.same w b && ltb lab best)
  ]

  -- the loop over the labels
  unfoldable pub heaviest : List (ℕ × ω.Weight) → ℕ → Option ω.Weight → ℕ
  heaviest [] best b = best
  heaviest ((lab, w) ∷ m) best b =
      let yes_better = heaviest m lab (some w) in
      let no_better = heaviest m best b in if is_better lab w best b then yes_better else no_better

  -- the body of the loop over the nodes: the labels, and whether one has changed
  unfoldable pub relabel : Csr ω → ℕ → List ℕ × Bool → List ℕ × Bool
  relabel g node s =
      let old : ℕ = elim (get_elem? s.0 node) [ none ↦ 0 | some l ↦ l ] in
      let best : ℕ = heaviest (weigh s.0 (neighbors g node) []) old none in
      if degree g node == 0 then s else if best == old then s else (set s.0 node best, true)

  unfoldable pub sweep : Csr ω → List ℕ → List ℕ × Bool → List ℕ × Bool
  sweep g [] s = s
  sweep g (node ∷ nodes) s = sweep g nodes (relabel g node s)

  -- the loop of the sweeps, at most `iters` of them
  unfoldable pub propagate : Csr ω → ℕ → List ℕ → ℕ → List ℕ → List ℕ
  propagate g zero order rng labs = labs
  propagate g (suc iters) order rng labs =
      let mixed = shuffle order rng in
      let s = sweep g mixed.0 (labs, false) in
      let rest = propagate g iters mixed.0 mixed.1 s.0 in if s.1 then rest else s.0

  unfoldable pub detect_communities : Csr ω → ℕ → ℕ → Communities
  detect_communities g max_iter seed =
      let all = numbers 0 (node_count g) in
      compact (propagate g (if max_iter == 0 then 20 else max_iter) all (seed % 2 ^ 64) all)
