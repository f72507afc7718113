-- ===== src/Rag/Store/Exported.antt =====
-- AddDocuments and DeleteDocument behind the lock (rag/store.go, rag/update.go).
use Prim.Native.String.{String}
use turbograph.Prelude.{
  ℕ, ◌-◌, ◌≡◌, refl, sym, subst, inl, inr, Bool, false, not, ◌||◌, List, [], ◌∷◌, length, ◌==◌, leb,
  is_some, arith, Bool-cases, if_cases, All,
}
use turbograph.Prelude.Keys.{Eq, string_key}
use turbograph.Rag.Chunk.{Chunk}
use turbograph.Rag.Store.Even.{
  HandsOutEven, AreEven, share_vectors-AreEven, ensure_search-AreEven, reindex-AreEven,
  apply_all-AreEven,
}
use turbograph.Rag.Store.{
  Sorts, Store, Services, IndexLaws, Prepared, others, init_indexes, rebuild_lexical,
  rebuild_indexes, restore_hnsw_locked, build_search, settle, share_vectors, ensure_search,
  rebuild_graph, extend_graph, reindex, forget_hash, remove_doc, apply_all, add_prepared,
  delete_document, prune_extract_cache,
}
use turbograph.Rag.Store.Sync.{
  IsAligned, InSync, IsCurrent, ensure_search-InSync, reindex-IsCurrent, share_vectors-IsAligned,
}
use turbograph.Rag.Store.Listed.{IsPrepared, others-le}
use turbograph.Rag.Store.Sound.{
  IsSound, remove_doc-IsHashed, remove_doc-IsListed, remove_doc-IsAligned,
}
use turbograph.Rag.Store.Batch.{apply_all-IsSound}

-- The documents of a store, without what is derived from them.
pub record IsSameDocs {τ : Sorts} (s t : Store τ) : Type 0 where
  pub chunks : t.chunks ≡ s.chunks
  pub doc_set : t.doc_set ≡ s.doc_set
  pub hashes : t.hashes ≡ s.hashes
  pub id_hash : t.id_hash ≡ s.id_hash
  pub versions : t.versions ≡ s.versions
  pub doc_meta : t.doc_meta ≡ s.doc_meta
  pub eg : t.eg ≡ s.eg
  pub extract_cache : t.extract_cache ≡ s.extract_cache

pub same_docs : {τ : Sorts} (s : Store τ) → IsSameDocs s s
same_docs s = record {
  chunks = refl;
  doc_set = refl;
  hashes = refl;
  id_hash = refl;
  versions = refl;
  doc_meta = refl;
  eg = refl;
  extract_cache = refl;
}

module _ {τ : Sorts} (o : Services τ) where
  build_search-IsSameDocs : (s : Store τ) → IsSameDocs s (build_search o s)
  unfolding build_search restore_hnsw_locked rebuild_lexical rebuild_indexes init_indexes
  build_search-IsSameDocs s =
      let r : Store τ × Bool = restore_hnsw_locked o s in
      if_cases (IsSameDocs s) r.1 {x = rebuild_lexical o r.0} {y = rebuild_indexes o r.0}
        (λ _. record {
          chunks = refl;
          doc_set = refl;
          hashes = refl;
          id_hash = refl;
          versions = refl;
          doc_meta = refl;
          eg = refl;
          extract_cache = refl;
        })
        (λ _. record {
          chunks = refl;
          doc_set = refl;
          hashes = refl;
          id_hash = refl;
          versions = refl;
          doc_meta = refl;
          eg = refl;
          extract_cache = refl;
        })

  pub ensure_search-IsSameDocs : (s : Store τ) → IsSameDocs s (ensure_search o s)
  unfolding ensure_search settle share_vectors
  ensure_search-IsSameDocs s =
      if_cases (IsSameDocs s) (not s.defer_index) (λ _. same_docs s)
        λ _.
          let b = build_search-IsSameDocs (record s { defer_index = false }) in
          record {
            chunks = b.chunks;
            doc_set = b.doc_set;
            hashes = b.hashes;
            id_hash = b.id_hash;
            versions = b.versions;
            doc_meta = b.doc_meta;
            eg = b.eg;
            extract_cache = b.extract_cache;
          }

  extend_graph-IsSameDocs : (s : Store τ) → IsSameDocs s (extend_graph o s)
  unfolding extend_graph rebuild_graph
  extend_graph-IsSameDocs s =
      if_cases (IsSameDocs s) s.defer_graph (λ _. same_docs s)
        λ _.
          if_cases (IsSameDocs s) (leb (length s.chunks) s.indexed_up_to)
            (λ _.
              if_cases (IsSameDocs s) (not (is_some s.graph_nodes) || s.indexed_up_to == 0)
                (λ _. record {
                  chunks = refl;
                  doc_set = refl;
                  hashes = refl;
                  id_hash = refl;
                  versions = refl;
                  doc_meta = refl;
                  eg = refl;
                  extract_cache = refl;
                })
                (λ _. same_docs s))
            (λ _. record {
              chunks = refl;
              doc_set = refl;
              hashes = refl;
              id_hash = refl;
              versions = refl;
              doc_meta = refl;
              eg = refl;
              extract_cache = refl;
            })

  pub reindex-IsSameDocs : (s : Store τ) → IsSameDocs s (reindex o s)
  unfolding reindex share_vectors rebuild_indexes rebuild_lexical init_indexes
  reindex-IsSameDocs s =
      if_cases (IsSameDocs s) s.defer_index (λ _. same_docs s)
        λ _.
          if_cases (IsSameDocs s) s.needs_rebuild
            (λ _.
              let g = extend_graph-IsSameDocs (record (share_vectors o (rebuild_indexes o s)) {
                needs_rebuild = false;
                indexed_up_to = 0;
              }) in
              record {
                chunks = g.chunks;
                doc_set = g.doc_set;
                hashes = g.hashes;
                id_hash = g.id_hash;
                versions = g.versions;
                doc_meta = g.doc_meta;
                eg = g.eg;
                extract_cache = g.extract_cache;
              })
            (λ _. extend_graph-IsSameDocs s)

-- A store between two calls: its invariant, and indexes that are up to date unless deferred.
abbrev pub IsSettled : {τ : Sorts} ⦃e : Eq τ.Hash⦄ → Services τ → Store τ → Type 0
IsSettled o s = IsSound o s × (s.defer_index ≡ false → IsCurrent o s)

module _ {τ : Sorts} ⦃e : Eq τ.Hash⦄ (o : Services τ) (laws : IndexLaws o) where
  -- the invariant goes over to a store with the same documents
  IsSound-same :
      {s t : Store τ} → IsSameDocs s t → IsAligned t → InSync o t → IsSound o s → IsSound o t
  IsSound-same d a sy v = record {
    aligned = a;
    sync = sy;
    listed = λ id. rw (d.doc_set, d.chunks) (v.listed id);
    hashed = rw (d.doc_set, d.hashes, d.id_hash) v.hashed;
  }

  -- Reindexing a sound store that is not deferred brings its indexes up to date.
  pub reindex-IsSettled : (s : Store τ) → IsSound o s → IsSettled o (reindex o s)
  unfolding reindex
  reindex-IsSettled s v = elim (Bool-cases s.defer_index) [
    | inl deferred ↦
        if_cases (IsSettled o) s.defer_index (λ _. (v, λ built. absurd (ground arith)))
          (λ built. absurd (ground arith))
    | inr built ↦
        let (current, aligned) = reindex-IsCurrent o laws s v.aligned v.sync built in
        (IsSound-same (reindex-IsSameDocs o s) aligned (inr (inr current)) v, λ _. current)
  ]

  pub ensure_search-IsSound : (s : Store τ) → IsSound o s → IsSound o (ensure_search o s)
  ensure_search-IsSound s v =
      let (sync, _, aligned) = ensure_search-InSync o laws s v.aligned v.sync in
      IsSound-same (ensure_search-IsSameDocs o s) aligned sync v

  others-all :
      (id : String) (cs : List Chunk) → length cs - length (others id cs) ≡ 0 → others id cs ≡ cs
  unfolding others
  others-all id [] h = refl
  others-all id (c ∷ cs) h = ground (arith, others-all id cs, others-le id cs)

  -- without a chunk to remove the indexes are left as they are
  remove_doc-index :
      (P : List Chunk → Type 0) (id : String) (s : Store τ)
      → length s.chunks - length (others id s.chunks) ≡ 0
      → P s.chunks
      → P (others id s.chunks)
  remove_doc-index P id s none_left = subst P (sym (others-all id s.chunks none_left))

  remove_doc-sync : (id : String) (s : Store τ) → IsSound o s → InSync o (remove_doc id s).0
  unfolding remove_doc forget_hash
  remove_doc-sync id s v =
      if_cases (λ b. InSync o (record (remove_doc id s).0 { needs_rebuild = b }))
        (length s.chunks - length (others id s.chunks) == 0)
        (λ none_left.
          remove_doc-index (λ cs. InSync o (record s { chunks = cs })) id s (ground arith) v.sync)
        (λ some_gone. inr (inl refl))

  remove_doc-IsSound : (id : String) (s : Store τ) → IsSound o s → IsSound o (remove_doc id s).0
  remove_doc-IsSound id s v = record {
    aligned = remove_doc-IsAligned id s v.aligned;
    sync = remove_doc-sync id s v;
    listed = remove_doc-IsListed id s v.listed;
    hashed = remove_doc-IsHashed id s v.hashed;
  }

  remove_doc-IsCurrent :
      (id : String) (s : Store τ)
      → (remove_doc id s).1 ≡ 0
      → (s.defer_index ≡ false → IsCurrent o s)
      → s.defer_index ≡ false
      → IsCurrent o (remove_doc id s).0
  unfolding remove_doc forget_hash
  remove_doc-IsCurrent id s none_left c built =
      remove_doc-index (λ cs. IsCurrent o (record s { chunks = cs })) id s none_left (c built)

  -- DeleteDocument keeps the invariant of a store, where the indexes keep their laws: one
  -- embedding for each chunk, the documents of the chunks, and hash maps that are inverse. It
  -- brings the indexes of a store that is not deferred up to date with the chunks that are left.
  pub delete_document-IsSettled :
      (id : String) (s : Store τ) → IsSettled o s → IsSettled o (delete_document o id s).0
  unfolding delete_document prune_extract_cache remove_doc forget_hash
  delete_document-IsSettled id s (v, c) =
      let r : Store τ × ℕ = remove_doc id s in
      let w : IsSound o r.0 = remove_doc-IsSound id s v in
      let P : Store τ × ℕ → Type 0 = λ q. IsSettled o q.0 in
      if_cases P (r.1 == 0)
        (λ none_left. (
          record { aligned = w.aligned; sync = w.sync; listed = w.listed; hashed = w.hashed },
          remove_doc-IsCurrent id s (ground arith) c,
        ))
        (λ _.
          reindex-IsSettled _
            record { aligned = w.aligned; sync = w.sync; listed = w.listed; hashed = w.hashed })

  -- AddDocuments, from the chunked and embedded documents on, keeps the invariant of a store for
  -- every batch of documents whose chunks are their own and have an embedding each, all of one
  -- dimension that the embeddings of the store have too, where the indexes keep their laws and
  -- hand out vectors of that dimension: one embedding for each chunk, of that dimension, the set
  -- of documents is that of the chunks, the two hash maps are inverse to each other, and the ids
  -- of the indexes are those of the chunks unless the indexes are deferred.
  pub add_prepared-IsSettled :
      (now d : ℕ) (ps : List (Prepared τ)) (s : Store τ)
      → All IsPrepared ps
      → HandsOutEven o d
      → All (λ p. AreEven o d p.vecs) ps
      → AreEven o d s.embeds
      → IsSettled o s
      → IsSettled o (add_prepared o now ps s) × AreEven o d (add_prepared o now ps s).embeds
  unfolding add_prepared prune_extract_cache share_vectors
  add_prepared-IsSettled now d ps s prep hands new even (v, c) =
      let r : Store τ × Bool = apply_all o now ps (ensure_search o s) in
      let w : IsSound o r.0 =
        apply_all-IsSound o laws now ps (ensure_search o s) prep (ensure_search-IsSound s v) in
      let u : AreEven o d r.0.embeds =
        apply_all-AreEven o d now ps (ensure_search o s) new
          (ensure_search-AreEven o d hands s even) in
      let Q : Store τ → Type 0 = λ t. IsSound o t × AreEven o d t.embeds in
      if_cases (λ t. IsSettled o t × AreEven o d t.embeds) (length ps == 0) (λ _. ((v, c), even))
        (λ _.
          let last =
            if_cases Q r.1
              {x = prune_extract_cache o (record (share_vectors o r.0) { comm_summary = [] })}
              {y = r.0}
              (λ _. (
                record {
                  aligned = share_vectors-IsAligned o laws r.0 w.aligned;
                  sync = w.sync;
                  listed = w.listed;
                  hashed = w.hashed;
                },
                share_vectors-AreEven o d hands r.0 u,
              ))
              (λ _. (w, u)) in
          (reindex-IsSettled _ last.0, reindex-AreEven o d hands _ last.1))
