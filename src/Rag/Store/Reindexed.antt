-- ===== src/Rag/Store/Reindexed.antt =====
-- Reindex of rag/store.go under the invariant of a store.
use turbograph.Prelude.{◌≡◌, ◌∙◌, false, not, if_cases}
use turbograph.Prelude.Keys.{Eq}
use turbograph.Rag.Store.{
  Sorts, Store, Services, IndexLaws, ensure_search, ensure_graph, reindex_exported,
}
use turbograph.Rag.Store.Sound.{IsSound}
use turbograph.Rag.Store.Exported.{
  reindex-IsSameDocs, reindex-IsSettled, ensure_search-IsSound, ensure_search-IsSameDocs,
}

module _ {τ : Sorts} ⦃e : Eq τ.Hash⦄ (o : Services τ) where
  module _ (laws : IndexLaws o) where
    graph_due-IsSound :
        (t : Store τ)
        → IsSound o t
        → IsSound o (record t { defer_graph = false; indexed_up_to = 0 })
    graph_due-IsSound t v = record {
      aligned = v.aligned;
      sync = v.sync;
      listed = v.listed;
      hashed = v.hashed;
    }

    ensure_graph-IsSound :
        (s : Store τ)
        → IsSound o s
        → IsSound o (ensure_graph o s) × ((ensure_graph o s).id_hash ≡ s.id_hash)
    unfolding ensure_graph
    ensure_graph-IsSound s v =
        let t : Store τ = ensure_search o s in
        let w = ensure_search-IsSound o laws s v in
        let same = (ensure_search-IsSameDocs o s).id_hash in
        let due : Store τ = record t { defer_graph = false; indexed_up_to = 0 } in
        if_cases (λ (r : Store τ). IsSound o r × (r.id_hash ≡ s.id_hash)) (not t.defer_graph)
          (λ _. (w, same))
          (λ _. (
            (reindex-IsSettled o laws due (graph_due-IsSound t w)).0,
            (reindex-IsSameDocs o due).id_hash ∙ same,
          ))

    -- the invariant, and the hashes of the documents
    pub reindex_exported-IsSound :
        (s : Store τ)
        → IsSound o s
        → IsSound o (reindex_exported o s) × ((reindex_exported o s).id_hash ≡ s.id_hash)
    unfolding reindex_exported
    reindex_exported-IsSound s v =
        let (w, same) = ensure_graph-IsSound s v in
        (
          (reindex-IsSettled o laws (ensure_graph o s) w).0,
          (reindex-IsSameDocs o (ensure_graph o s)).id_hash ∙ same,
        )
