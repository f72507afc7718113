-- ===== src/Rag/Store/Index.antt =====
-- rag/store.go, rag/update.go: the vector and lexical indexes of a store, which are derived from its
-- arrays, built on first use and rebuilt when a document has been removed.
use turbograph.Prelude.{
  ◌*◌, Bool, true, false, not, ◌||◌, List, [], ◌∷◌, ◌++◌, map, Option, none, some, if◌then◌else◌,
  length, take, ◌==◌, leb, is_some,
}
use mathlib.Core.Option
use turbograph.Rag.Chunk.{Chunk, index_text}
use turbograph.Rag.Store.Defs.{Sorts, Store, Services, chunk_ids}

module _ {τ : Sorts} (o : Services τ) where
  unfoldable pub init_indexes : Store τ → Store τ
  init_indexes s = record s { hnsw = some (o.new_hnsw s.dim); bm25 = o.new_bm25 }

  -- the loop of rebuildIndexesLocked over the chunks and their embeddings
  unfoldable pub add_all : τ.Hnsw → List Chunk → List τ.Vec → τ.Hnsw
  add_all x (c ∷ cs) (v ∷ vs) = add_all (o.hnsw_add x c.id v) cs vs
  add_all x _ _ = x

  unfoldable pub rebuild_lexical : Store τ → Store τ
  rebuild_lexical s = record s {
    bm25 = o.add_batch o.new_bm25 (chunk_ids s.chunks) (map index_text s.chunks);
  }

  unfoldable pub rebuild_indexes : Store τ → Store τ
  rebuild_indexes s =
      let i = init_indexes s in
      rebuild_lexical (record i { hnsw = some (add_all (o.new_hnsw s.dim) s.chunks s.embeds) })

  -- the vectors of the index, if these are as many as the embeddings
  unfoldable pub views : Store τ → List τ.Vec
  views s = elim s.hnsw [
    | none ↦ s.embeds
    | some x ↦
        if length (o.vectors x) == length s.embeds then map (λ p. p.1) (o.vectors x) else s.embeds
  ]

  -- shareVectorsLocked: the embeddings become views of the vectors of the index
  unfoldable pub share_vectors : Store τ → Store τ
  share_vectors s = record s { embeds = views s }

  -- the index that the links read from disk give, if they serve
  unfoldable pub restored : Store τ → Option τ.Hnsw
  restored s = elim s.saved_hnsw [
    | none ↦ none
    | some g ↦
        if length s.chunks == 0 || not (o.levels g == length s.chunks)
        then none
        else let rest = o.restore_hnsw s.dim (chunk_ids s.chunks) s.embeds g in
          if o.block_len s.flat == length s.chunks * s.dim
          then elim (o.adopt_flat s.dim (chunk_ids s.chunks) s.flat g) [
            | some x ↦ some x
            | none ↦ rest
          ]
          else rest
  ]

  -- whatever it reports, the links and the block read from disk are used up
  unfoldable pub restore_hnsw_locked : Store τ → Store τ × Bool
  restore_hnsw_locked s = (
    record s {
      saved_hnsw = none;
      flat = o.nil_block;
      hnsw = elim (restored s) [ none ↦ s.hnsw | some x ↦ some x ];
    },
    is_some (restored s),
  )

  -- the vector index from disk with a new lexical index, or both from the arrays
  unfoldable pub build_search : Store τ → Store τ
  build_search s =
      let r = restore_hnsw_locked s in if r.1 then rebuild_lexical r.0 else rebuild_indexes r.0

  -- how both branches of ensureSearchLocked end
  unfoldable pub settle : Store τ → Store τ
  settle s = share_vectors (record s { needs_rebuild = false })

  unfoldable pub ensure_search : Store τ → Store τ
  ensure_search s =
      if not s.defer_index then s else settle (build_search (record s { defer_index = false }))

  unfoldable pub rebuild_graph : Store τ → Store τ
  rebuild_graph s = record s { graph_nodes = some (length s.chunks) }

  -- the part of reindexLocked behind the rebuild of the indexes
  unfoldable pub extend_graph : Store τ → Store τ
  extend_graph s =
      if s.defer_graph
      then s
      else if leb (length s.chunks) s.indexed_up_to
      then (if not (is_some s.graph_nodes) || s.indexed_up_to == 0 then rebuild_graph s else s)
      else rebuild_graph (record s { indexed_up_to = length s.chunks })

  unfoldable pub reindex : Store τ → Store τ
  reindex s =
      if s.defer_index
      then s
      else if s.needs_rebuild
      then extend_graph
          (record (share_vectors (rebuild_indexes s)) { needs_rebuild = false; indexed_up_to = 0 })
      else extend_graph s

  unfoldable pub ensure_graph : Store τ → Store τ
  ensure_graph s =
      let t = ensure_search s in
      if not t.defer_graph then t else reindex (record t { defer_graph = false; indexed_up_to = 0 })

  unfoldable pub reindex_exported : Store τ → Store τ
  reindex_exported s = reindex (ensure_graph s)

  abbrev pub push : Chunk → τ.Vec → Store τ → Store τ
  push c v s = record s {
    chunks = s.chunks ++ c ∷ [];
    embeds = s.embeds ++ v ∷ [];
    doc_set = c.doc_id ∷ s.doc_set;
  }

  -- appendToArraysLocked, for at least as many embeddings as chunks
  unfoldable pub append_to_arrays : List Chunk → List τ.Vec → Store τ → Store τ
  append_to_arrays cs vs s = record s {
    chunks = s.chunks ++ cs;
    embeds = s.embeds ++ take (length cs) vs;
    doc_set = map (λ c. c.doc_id) cs ++ s.doc_set;
  }

  -- the body of the loop of appendChunksLocked; no caller has a nil index
  abbrev pub index_chunk : Chunk → τ.Vec → Store τ → Store τ
  index_chunk c v s = push c v (record s {
    hnsw = Option.map (λ x. o.hnsw_add x c.id v) s.hnsw;
    bm25 = o.bm25_add s.bm25 c.id (index_text c);
  })

  -- appendChunksLocked: it stops, with an error, at the first embedding of another dimension
  unfoldable pub append_chunks : List Chunk → List τ.Vec → Store τ → Store τ × Bool
  append_chunks (c ∷ cs) (v ∷ vs) s =
      let rest = append_chunks cs vs (index_chunk c v s) in
      if o.dim_of v == s.dim then rest else (s, false)
  append_chunks _ _ s = (s, true)
