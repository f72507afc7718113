-- ===== src/Rag/Store/Batch.antt =====
-- The invariant of a store over whole operations (rag/store.go, rag/update.go).
use text.Mathlib.TextEquality.{eq_iff}
use turbograph.Prelude.{
  ℕ, ◌≡◌, refl, inl, inr, Bool, true, false, not, List, [], ◌∷◌, none, some, length, ◌==◌, is_some,
  arith, Option-cases, if_cases, All,
}
use turbograph.Prelude.Assoc.{lookup, contains}
use turbograph.Prelude.Keys.{Eq, string_key}
use turbograph.Rag.Store.{
  Sorts, Store, Services, IndexLaws, Prepared, has_doc, init_indexes, prepare_index, apply_prepared,
  apply_all, unchanged, owned_by_other, first_dim,
}
use turbograph.Rag.Store.Sync.{InSync}
use turbograph.Rag.Store.Listed.{IsPrepared}
use turbograph.Rag.Store.Sound.{IsSound}
use turbograph.Rag.Store.Apply.{replace_doc-IsSound, add_doc-IsSound}

module _ {τ : Sorts} ⦃e : Eq τ.Hash⦄ (o : Services τ) (laws : IndexLaws o) (now : ℕ) where
  prepare_index-IsSound :
      (p : Prepared τ) (s : Store τ)
      → IsSound o s
      → IsSound o (prepare_index o p s) × (is_some (prepare_index o p s).hnsw ≡ true)
  unfolding prepare_index init_indexes
  prepare_index-IsSound p s v =
      if_cases (λ t. IsSound o t × (is_some t.hnsw ≡ true)) (is_some s.hnsw) (λ index. (v, index))
        (λ bare. (
          record {
            aligned = v.aligned;
            sync = sync bare v.sync;
            listed = v.listed;
            hashed = v.hashed;
          },
          refl,
        ))
    where
      sync :
          is_some s.hnsw ≡ false
          → InSync o s
          → InSync o
              (init_indexes o (record s { dim = first_dim o p.vecs; encoder = o.fingerprint }))
      sync bare (inl deferred) = inl deferred
      sync bare (inr (inl stale)) = inr (inl stale)
      sync bare (inr (inr (inl (missing, empty)))) = inr (
          inr (
            inr
              (rw (empty, laws.vectors-new (first_dim o p.vecs)) refl, rw empty laws.indexed-new)))
      sync bare (inr (inr (inr whole))) = elim (Option-cases s.hnsw) [
        | inl missing ↦ absurd (ground arith)
        | inr (x, found) ↦ absurd (ground arith)
      ]

  -- A content that nobody else owns, and that is not the document's own already, has no owner.
  free_hash :
      (p : Prepared τ) (s : Store τ)
      → IsSound o s
      → owned_by_other o p s ≡ false
      → (contains s.doc_set p.id ≡ true → unchanged o p s ≡ false)
      → lookup p.hash s.hashes ≡ none
  free_hash p s v mine changed = elim (Option-cases (lookup p.hash s.hashes)) [
    | inl missing ↦ missing
    | inr (owner, found) ↦
        let same : owner ≡ p.id = ground (arith, eq_iff owner p.id) in
        let hashed : lookup p.id s.id_hash ≡ some p.hash =
          v.hashed.owner p.hash p.id (ground arith) in
        let there = v.hashed.known p.id p.hash hashed in
        absurd (ground (arith, changed there, e.beq_iff p.hash p.hash))
  ]

  -- For a document whose chunks are its own and have an embedding each, applyPreparedLocked keeps
  -- the invariant of a store on every path, where the indexes keep their laws: refused, unchanged,
  -- updated, new, and where an embedding of another dimension is met.
  pub apply_prepared-IsSound :
      (p : Prepared τ) (s : Store τ)
      → IsPrepared p
      → IsSound o s
      → IsSound o (apply_prepared o now p s).0
  unfolding apply_prepared
  apply_prepared-IsSound p s prep v =
      let t : Store τ = prepare_index o p s in
      let (w, index) = prepare_index-IsSound p s v in
      let P : Store τ × Bool → Type 0 = λ r. IsSound o r.0 in
      if_cases P (length p.chunks == 0) (λ _. v)
        λ full.
          if_cases P (not (first_dim o p.vecs == t.dim)) (λ _. w)
            λ fits.
              if_cases P (owned_by_other o p t) (λ _. w)
                λ mine.
                  if_cases P (has_doc p.id t)
                    (λ there.
                      if_cases P (unchanged o p t) (λ _. w)
                        λ changed.
                          replace_doc-IsSound o laws now p t prep w there full
                            (free_hash p t w mine (λ _. changed)))
                    λ new.
                      add_doc-IsSound o laws now p t prep w full new
                        (free_hash p t w mine (λ there. absurd (ground arith))) index

  pub apply_all-IsSound :
      (ps : List (Prepared τ)) (s : Store τ)
      → All IsPrepared ps
      → IsSound o s
      → IsSound o (apply_all o now ps s).0
  unfolding apply_all
  apply_all-IsSound [] s prep v = v
  apply_all-IsSound (p ∷ ps) s prep v =
      apply_all-IsSound ps _ prep.1 (apply_prepared-IsSound p s prep.0 v)
