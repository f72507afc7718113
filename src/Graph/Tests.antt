-- ===== src/Graph/Tests.antt =====
-- A triangle with a node apart, and the labels of four nodes.
use turbograph.Prelude.{
  get_elem?, ◌↔◌, map, ap, ◌+◌, ℕ, ◌<◌, ◌≡◌, refl, List, [], ◌∷◌, some, length, ltb, ◌==◌, is_some,
  arith,
}
use turbograph.Prelude.Keys.{nat_key}
use turbograph.Prelude.Assoc.{lookup, insert, contains, holds}
use turbograph.Graph.{Weights, Builder, add_edge, compact, label, members_of}
use turbograph.Heap.{swap}
use turbograph.Graph.{
  Sums, Csr, build, emit_rows, detect_communities, propagate, sweep, relabel, weigh, heaviest,
  shuffle, shuffle_from, next, neighbors, degree, node_count, compact_from, assign, add_member,
  put_edge,
}
use turbograph.Graph.{row}
use turbograph.Graph.Frozen.{neighbors-build}
use turbograph.Graph.Joined.{Joined, detect_communities-Joined}
use turbograph.Graph.Compact.{compact_exact}

abbrev whole : Weights
whole = record { Weight = ℕ; is_positive = λ w. ltb 0 w; above = λ w cur. ltb cur w }

abbrev four : Builder whole
four = record { n = 4; adj = [] ∷ [] ∷ [] ∷ [] ∷ [] }

abbrev joined : Builder whole
joined = add_edge 0 1 5 four

abbrev spread : List ℕ
spread = 3 ∷ 1 ∷ 3 ∷ 0 ∷ []

compact_exact_example :
    ((i : ℕ) → is_some (label (compact spread) i) ≡ ltb i (length spread))
    × ((i j a b : ℕ)
        → get_elem? spread i ≡ some a
        → get_elem? spread j ≡ some b
        → (label (compact spread) i ≡ label (compact spread) j) ↔ (a ≡ b))
    × ((i c : ℕ) → label (compact spread) i ≡ some c → c < (compact spread).num)
    × ((c : ℕ) → c < (compact spread).num → (i : ℕ) × (label (compact spread) i ≡ some c))
    × ((i c : ℕ)
        → contains (members_of (compact spread) c) i
          ≡ holds (λ k. k == c) (label (compact spread) i))
compact_exact_example = compact_exact spread

abbrev sums : Sums whole
sums = record { plus = λ a b. a + b; same = λ a b. a == b }

-- two pairs of nodes
abbrev pairs : Csr whole
pairs = record {
  n = 4;
  row_ptr = 0 ∷ 1 ∷ 2 ∷ 3 ∷ 4 ∷ [];
  cols = 2 ∷ 3 ∷ 0 ∷ 1 ∷ [];
  wts = 5 ∷ 6 ∷ 5 ∷ 6 ∷ [];
}

built : build (λ js. js) (add_edge 1 3 6 (add_edge 0 2 5 four)) ≡ pairs
unfolding build emit_rows add_edge put_edge insert lookup
built = refl

labels_of_pairs :
    detect_communities sums pairs 5 1
    ≡ record { labels = 0 ∷ 1 ∷ 0 ∷ 1 ∷ []; members = (0 ∷ 2 ∷ []) ∷ (1 ∷ 3 ∷ []) ∷ []; num = 2 }
unfolding detect_communities propagate sweep relabel weigh heaviest shuffle shuffle_from next swap
    neighbors degree node_count compact compact_from assign add_member insert lookup
labels_of_pairs = refl

detect_communities-Joined_example : Joined pairs 1 3
unfolding label
detect_communities-Joined_example =
    detect_communities-Joined sums pairs 5 1 1 3 1 (ap (λ c. label c 1) labels_of_pairs)
      (ap (λ c. label c 3) labels_of_pairs)

abbrev three_nodes : Builder whole
three_nodes = record { n = 3; adj = ((2, 5) ∷ []) ∷ [] ∷ ((0, 5) ∷ []) ∷ [] }

neighbors-build_example :
    (map (λ e. e.0) (neighbors (build (λ js. js) three_nodes) 2)
      ≡ map (λ e. e.0) (row three_nodes 2))
    × ((j : ℕ)
        → lookup j (neighbors (build (λ js. js) three_nodes) 2) ≡ lookup j (row three_nodes 2))
neighbors-build_example =
    neighbors-build whole (λ js. js) (λ js j. refl) three_nodes 2 (omega arith)
