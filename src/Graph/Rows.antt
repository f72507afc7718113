-- ===== src/Graph/Rows.antt =====
-- graph/graph.go: the graph in compressed rows, without the sums of the rows, which are floats.
use turbograph.Prelude.{
  ℕ, suc, ◌-◌, List, [], ◌∷◌, ◌++◌, map, none, some, length, get_elem?, take, drop,
}
use turbograph.Prelude.Keys.{nat_key}
use turbograph.Prelude.Assoc.{lookup}
use turbograph.Graph.Defs.{Weights, Builder}

-- Graph
pub record Csr (ω : Weights) : Type 0 where
  pub n : ℕ
  pub row_ptr : List ℕ
  pub cols : List ℕ
  pub wts : List ω.Weight

abbrev pub ptr : List ℕ → ℕ → ℕ
ptr ps i = elim (get_elem? ps i) [ none ↦ 0 | some p ↦ p ]

abbrev pub zip_edges : {V : Type 0} → List ℕ → List V → List (ℕ × V)
zip_edges (c ∷ cs) (w ∷ ws) = (c, w) ∷ zip_edges cs ws
zip_edges _ _ = []

-- the edges of a row by ascending column
abbrev pub pick : {V : Type 0} → List (ℕ × V) → List ℕ → List (ℕ × V)
pick r [] = []
pick r (j ∷ js) = elim (lookup j r) [ none ↦ pick r js | some w ↦ (j, w) ∷ pick r js ]

abbrev pub emit_row : {V : Type 0} → (List ℕ → List ℕ) → List (ℕ × V) → List (ℕ × V)
emit_row sort r = pick r (sort (map (λ e. e.0) r))

module _ {ω : Weights} where
  unfoldable pub node_count : Csr ω → ℕ
  node_count g = g.n

  unfoldable pub degree : Csr ω → ℕ → ℕ
  degree g i = ptr g.row_ptr (suc i) - ptr g.row_ptr i

  -- the edges that Neighbors visits, in order
  unfoldable pub neighbors : Csr ω → ℕ → List (ℕ × ω.Weight)
  neighbors g i = take (degree g i) (drop (ptr g.row_ptr i) (zip_edges g.cols g.wts))

  -- `sort` is sort.Ints
  module _ (sort : List ℕ → List ℕ) where
    -- the loop of Build over the rows
    unfoldable pub emit_rows : List (List (ℕ × ω.Weight)) → Csr ω → Csr ω
    emit_rows [] g = record g { row_ptr = g.row_ptr ++ length g.cols ∷ [] }
    emit_rows (r ∷ rs) g = emit_rows rs (record g {
      row_ptr = g.row_ptr ++ length g.cols ∷ [];
      cols = g.cols ++ map (λ e. e.0) (emit_row sort r);
      wts = g.wts ++ map (λ e. e.1) (emit_row sort r);
    })

    unfoldable pub build : Builder ω → Csr ω
    build b = emit_rows b.adj (record { n = b.n; row_ptr = []; cols = []; wts = [] })
