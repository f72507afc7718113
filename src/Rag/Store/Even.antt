-- ===== src/Rag/Store/Even.antt =====
-- The lengths of the embeddings of a store (rag/store.go, rag/update.go).
use Prim.Native.String.{String}
use turbograph.Prelude.{
  ℕ, zero, suc, ◌≡◌, ◌||◌, inl, inr, false, not, Bool, List, [], ◌∷◌, map, take, length, ◌==◌, leb,
  is_some, Option-cases, if_cases, All, All-append,
}
use turbograph.Prelude.Keys.{Eq, string_key}
use turbograph.Rag.Chunk.{Chunk}
use turbograph.Rag.Store.{
  Sorts, Store, Services, Prepared, is_of, others_embeds, forget_hash, remove_doc, share_vectors,
  views, init_indexes, rebuild_lexical, rebuild_indexes, restore_hnsw_locked, build_search, settle,
  ensure_search, rebuild_graph, extend_graph, reindex, index_chunk, append_to_arrays, append_chunks,
  prepare_index, record_doc, record_hash, record_version, record_meta, replace_doc, add_doc,
  apply_prepared, apply_all, has_doc, unchanged, owned_by_other, first_dim, drop_entity_chunks,
}

All-take {ℓ κ} : {A : Type ℓ} (P : A → Type κ) (k : ℕ) (xs : List A) → All P xs → All P (take k xs)
All-take P zero xs h = tt
All-take P (suc k) [] h = tt
All-take P (suc k) (x ∷ xs) h = (h.0, All-take P k xs h.1)

All-others_embeds {ℓ κ} :
    {V : Type ℓ} (P : V → Type κ) (id : String) (cs : List Chunk) (vs : List V)
    → All P vs
    → All P (others_embeds id cs vs)
unfolding others_embeds
All-others_embeds P id [] vs h = tt
All-others_embeds P id (c ∷ cs) [] h = tt
All-others_embeds P id (c ∷ cs) (v ∷ vs) h =
    let rest = All-others_embeds P id cs vs h.1 in
    if_cases (All P) (is_of id c) (λ _. rest) (λ _. (h.0, rest))

All-unzip {ℓ κ μ} :
    {A : Type ℓ} {B : Type κ} (P : B → Type μ) (ps : List (A × B))
    → All (λ p. P p.1) ps
    → All P (map (λ p. p.1) ps)
All-unzip P [] h = tt
All-unzip P (p ∷ ps) h = (h.0, All-unzip P ps h.1)

module _ {τ : Sorts} ⦃e : Eq τ.Hash⦄ (o : Services τ) (d : ℕ) where
  -- an index hands out vectors of the dimension
  abbrev pub HandsOutEven : Type 0
  HandsOutEven = (x : τ.Hnsw) → All (λ p. o.dim_of p.1 ≡ d) (o.vectors x)

  abbrev pub AreEven : List τ.Vec → Type 0
  AreEven = All (λ v. o.dim_of v ≡ d)

  module _ (hands : HandsOutEven) where
    pub share_vectors-AreEven :
        (s : Store τ) → AreEven s.embeds → AreEven (share_vectors o s).embeds
    unfolding share_vectors views
    share_vectors-AreEven s h = elim (Option-cases s.hnsw) [
      | inl missing ↦ rw (missing, views) h
      | inr (x, found) ↦
          rw (found, views)
            (if_cases AreEven (length (o.vectors x) == length s.embeds)
              (λ _. All-unzip (λ v. o.dim_of v ≡ d) (o.vectors x) (hands x)) (λ _. h))
    ]

    build_search-AreEven : (s : Store τ) → AreEven s.embeds → AreEven (build_search o s).embeds
    unfolding build_search restore_hnsw_locked rebuild_lexical rebuild_indexes init_indexes
    build_search-AreEven s h =
        let r : Store τ × Bool = restore_hnsw_locked o s in
        if_cases (λ (t : Store τ). AreEven t.embeds) r.1 {x = rebuild_lexical o r.0}
          {y = rebuild_indexes o r.0} (λ _. h) (λ _. h)

    pub ensure_search-AreEven :
        (s : Store τ) → AreEven s.embeds → AreEven (ensure_search o s).embeds
    unfolding ensure_search settle
    ensure_search-AreEven s h =
        if_cases (λ (t : Store τ). AreEven t.embeds) (not s.defer_index) (λ _. h)
          (λ _.
            share_vectors-AreEven
              (record (build_search o (record s { defer_index = false })) { needs_rebuild = false })
              (build_search-AreEven (record s { defer_index = false }) h))

    extend_graph-AreEven : (s : Store τ) → AreEven s.embeds → AreEven (extend_graph o s).embeds
    unfolding extend_graph rebuild_graph
    extend_graph-AreEven s h =
        let P : Store τ → Type 0 = λ t. AreEven t.embeds in
        if_cases P s.defer_graph (λ _. h)
          (λ _.
            if_cases P (leb (length s.chunks) s.indexed_up_to)
              (λ _.
                if_cases P (not (is_some s.graph_nodes) || s.indexed_up_to == 0) (λ _. h) (λ _. h))
              (λ _. h))

    pub reindex-AreEven : (s : Store τ) → AreEven s.embeds → AreEven (reindex o s).embeds
    unfolding reindex rebuild_indexes rebuild_lexical init_indexes
    reindex-AreEven s h =
        let P : Store τ → Type 0 = λ t. AreEven t.embeds in
        if_cases P s.defer_index (λ _. h)
          (λ _.
            if_cases P s.needs_rebuild
              (λ _.
                extend_graph-AreEven
                  (record (share_vectors o (rebuild_indexes o s)) {
                    needs_rebuild = false;
                    indexed_up_to = 0;
                  })
                  (share_vectors-AreEven (rebuild_indexes o s) h))
              (λ _. extend_graph-AreEven s h))

  append_to_arrays-AreEven :
      (cs : List Chunk) (vs : List τ.Vec) (s : Store τ)
      → AreEven vs
      → AreEven s.embeds
      → AreEven (append_to_arrays o cs vs s).embeds
  unfolding append_to_arrays
  append_to_arrays-AreEven cs vs s new h =
      All-append (λ v. o.dim_of v ≡ d) s.embeds (take (length cs) vs) h
        (All-take (λ v. o.dim_of v ≡ d) (length cs) vs new)

  append_chunks-AreEven :
      (cs : List Chunk) (vs : List τ.Vec) (s : Store τ)
      → AreEven vs
      → AreEven s.embeds
      → AreEven (append_chunks o cs vs s).0.embeds
  unfolding append_chunks
  append_chunks-AreEven [] vs s new h = h
  append_chunks-AreEven (c ∷ cs) [] s new h = h
  append_chunks-AreEven (c ∷ cs) (v ∷ vs) s new h =
      let ih =
        append_chunks-AreEven cs vs (index_chunk o c v s) new.1
          (All-append (λ v. o.dim_of v ≡ d) s.embeds (v ∷ []) h (new.0, tt)) in
      if_cases (λ (r : Store τ × Bool). AreEven r.0.embeds) (o.dim_of v == s.dim) (λ _. ih) (λ _. h)

  apply_prepared-AreEven :
      (now : ℕ) (p : Prepared τ) (s : Store τ)
      → AreEven p.vecs
      → AreEven s.embeds
      → AreEven (apply_prepared o now p s).0.embeds
  unfolding apply_prepared prepare_index init_indexes replace_doc add_doc record_doc record_hash
      record_version record_meta drop_entity_chunks remove_doc forget_hash
  apply_prepared-AreEven now p s new h =
      let t : Store τ = prepare_index o p s in
      let P : Store τ × Bool → Type 0 = λ r. AreEven r.0.embeds in
      let Q : Store τ → Type 0 = λ r. AreEven r.embeds in
      let w : Q t = if_cases Q (is_some s.hnsw) (λ _. h) (λ _. h) in
      if_cases P (length p.chunks == 0) (λ _. h)
        (λ _.
          if_cases P (not (first_dim o p.vecs == t.dim)) (λ _. w)
            (λ _.
              if_cases P (owned_by_other o p t) (λ _. w)
                (λ _.
                  if_cases P (has_doc p.id t)
                    (λ _.
                      if_cases P (unchanged o p t) (λ _. w)
                        (λ _.
                          append_to_arrays-AreEven p.chunks p.vecs
                            (remove_doc p.id (drop_entity_chunks p.id t)).0 new
                            (All-others_embeds (λ v. o.dim_of v ≡ d) p.id t.chunks t.embeds w)))
                    (λ _.
                      let r = append_chunks-AreEven p.chunks p.vecs t new w in
                      if_cases Q t.needs_rebuild
                        (λ _. append_to_arrays-AreEven p.chunks p.vecs t new w)
                        (λ _.
                          if_cases Q (append_chunks o p.chunks p.vecs t).1 (λ _. r)
                            (λ _.
                              append_to_arrays-AreEven p.chunks p.vecs
                                (append_chunks o p.chunks p.vecs t).0 new r))))))

  pub apply_all-AreEven :
      (now : ℕ) (ps : List (Prepared τ)) (s : Store τ)
      → All (λ p. AreEven p.vecs) ps
      → AreEven s.embeds
      → AreEven (apply_all o now ps s).0.embeds
  unfolding apply_all
  apply_all-AreEven now [] s new h = h
  apply_all-AreEven now (p ∷ ps) s new h =
      apply_all-AreEven now ps (apply_prepared o now p s).0 new.1
        (apply_prepared-AreEven now p s new.0 h)
