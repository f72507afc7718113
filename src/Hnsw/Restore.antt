-- ===== src/Hnsw/Restore.antt =====
-- index/hnsw.go: links that are exported, and indexes made from them.
use turbograph.Prelude.{
  ℕ, ◌≡◌, refl, ap, false, not, List, [], ◌∷◌, map, some, length, any, ◌==◌, arith,
}
use turbograph.Hnsw.Grow.{IsWell}
use turbograph.Hnsw.Query.{length-map}
use turbograph.Hnsw.{Space, Hnsw, HnswConfig, Node, nodes_of, assemble, snapshot, restore_hnsw}

nodes_of-levels :
    (ns : List Node)
    → nodes_of (map (λ (n : Node). n.level) ns) (map (λ (n : Node). n.friends) ns) ≡ ns
unfolding nodes_of
nodes_of-levels [] = refl
nodes_of-levels (n ∷ ns) = ap (◌∷◌ n) (nodes_of-levels ns)

module _ {σ : Space} where
  -- The snapshot of a well-formed index and vectors of the dimension, one for each id, restore an
  -- index with the same nodes, entry, top and ids.
  pub restore_hnsw-snapshot :
      (dim : ℕ) (cfg : HnswConfig) (h : Hnsw σ) (vecs : List σ.Vec)
      → IsWell h
      → length vecs ≡ length h.ids
      → any (λ v. not (σ.len v == dim)) vecs ≡ false
      → (g : Hnsw σ) × (restore_hnsw dim cfg h.ids vecs (snapshot h) ≡ some g)
        × (g.nodes ≡ h.nodes)
        × (g.entry ≡ h.entry)
        × (g.top ≡ h.top)
        × (g.ids ≡ h.ids)
  unfolding restore_hnsw snapshot
  restore_hnsw-snapshot dim cfg h vecs w fit lens =
      let g = assemble {σ = σ} dim cfg h.ids (map (σ.normalize dim) vecs) (snapshot h) in
      let a = length-map (λ (n : Node). n.level) h.nodes in
      let b = length-map (λ (n : Node). n.friends) h.nodes in
      (g, ground (arith, lens, fit, a, b, w.ids_fit), nodes_of-levels h.nodes, refl, refl, refl)
