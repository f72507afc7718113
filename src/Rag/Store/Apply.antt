-- ===== src/Rag/Store/Apply.antt =====
-- Adding and updating documents (rag/update.go) under the invariant of a store.
use text.Mathlib.TextEquality.{eq_iff}
use turbograph.Prelude.{
  ℕ, ◌≡◌, refl, ◌∙◌, inl, inr, Bool, true, false, List, ◌++◌, none, length, ◌==◌, is_some, arith,
  Option-cases, if_cases, any,
}
use turbograph.Prelude.Assoc.{lookup, contains}
use turbograph.Prelude.Keys.{Eq, string_key}
use turbograph.Rag.Chunk.{Chunk}
use turbograph.Rag.Store.{
  Sorts, Store, Services, IndexLaws, Prepared, is_of, append_to_arrays, append_chunks, record_hash,
  record_version, record_meta, remove_doc, drop_entity_chunks, record_doc, replace_doc, add_doc,
}
use turbograph.Rag.Store.Sync.{IsAligned, InSync}
use turbograph.Rag.Store.Append.{
  append_to_arrays-IsAligned, append_chunks-IsFrame, append_chunks-IsAligned,
  append_chunks-IsIndexed,
}
use turbograph.Rag.Store.Listed.{
  IsListed, IsPrepared, append_to_arrays-IsListed, append_chunks-IsListed, append_chunks-known,
  append_chunks-chunks, any-own, any-append,
}
use turbograph.Rag.Store.Sound.{
  IsHashed, IsSound, record_hash-IsHashed, forget_hash-gone, forget_hash-owner, remove_doc-IsHashed,
  remove_doc-IsListed, remove_doc-IsAligned, remove_doc-stale, append_to_arrays-IsHashed,
}

module _ {τ : Sorts} ⦃e : Eq τ.Hash⦄ (o : Services τ) (laws : IndexLaws o) (now : ℕ) where
  append_chunks-IsHashed :
      (cs : List Chunk) (vs : List τ.Vec) (s : Store τ)
      → IsHashed s
      → IsHashed (append_chunks o cs vs s).0
  append_chunks-IsHashed cs vs s v =
      let f = append_chunks-IsFrame o cs vs s in
      rw (f.hashes, f.id_hash)
        (record {
          owner = v.owner;
          hash = v.hash;
          known = λ j h found. append_chunks-known o cs vs s j (v.known j h found);
        })

  -- a store to which the chunks of a document have been added, and not yet its hash
  record IsReady (p : Prepared τ) (s : Store τ) : Type 0 where
    aligned : IsAligned s
    sync : InSync o s
    listed : IsListed s
    hashed : IsHashed s
    there : contains s.doc_set p.id ≡ true
    unhashed : lookup p.id s.id_hash ≡ none
    free : lookup p.hash s.hashes ≡ none

  record_doc-IsSound :
      (p : Prepared τ) (s : Store τ) → IsReady p s → IsSound o (record_doc o now p s)
  unfolding record_doc record_meta record_version record_hash
  record_doc-IsSound p s r = record {
    aligned = r.aligned;
    sync = r.sync;
    listed = r.listed;
    hashed = record_hash-IsHashed p.id p.hash s r.hashed r.there r.unhashed r.free;
  }

  pub replace_doc-IsSound :
      (p : Prepared τ) (s : Store τ)
      → IsPrepared p
      → IsSound o s
      → contains s.doc_set p.id ≡ true
      → (length p.chunks == 0) ≡ false
      → lookup p.hash s.hashes ≡ none
      → IsSound o (replace_doc o now p s)
  unfolding replace_doc drop_entity_chunks append_to_arrays remove_doc
  replace_doc-IsSound p s prep v there full free =
      let s1 : Store τ = drop_entity_chunks p.id s in
      let r : Store τ = (remove_doc p.id s1).0 in
      let t : Store τ = append_to_arrays o p.chunks p.vecs r in
      let listed : IsListed t =
        append_to_arrays-IsListed o p.chunks p.vecs r (remove_doc-IsListed p.id s1 v.listed) in
      let busy : any (is_of p.id) s.chunks ≡ true = ground (arith, v.listed p.id) in
      record_doc-IsSound p t (record {
        aligned =
            append_to_arrays-IsAligned o p.chunks p.vecs r prep.same
              (remove_doc-IsAligned p.id s1 v.aligned);
        sync = inr (inl (remove_doc-stale p.id s1 busy));
        listed = listed;
        hashed =
            append_to_arrays-IsHashed o p.chunks p.vecs r (remove_doc-IsHashed p.id s1 v.hashed);
        there = ground (
          arith,
          listed p.id,
          any-append (is_of p.id) r.chunks p.chunks,
          any-own p.id p.id p.chunks prep.own,
          eq_iff p.id p.id,
        );
        unhashed = forget_hash-gone p.id _;
        free = forget_hash-owner p.id _ p.hash free;
      })

  module _ (p : Prepared τ) (s : Store τ) (prep : IsPrepared p) (v : IsSound o s)
      (full : (length p.chunks == 0) ≡ false) (new : contains s.doc_set p.id ≡ false)
      (free : lookup p.hash s.hashes ≡ none) where
    unhashed_new : lookup p.id s.id_hash ≡ none
    unhashed_new = elim (Option-cases (lookup p.id s.id_hash)) [
      | inl missing ↦ missing
      | inr (h, found) ↦ absurd (ground (arith, v.hashed.known p.id h))
    ]

    -- every chunk of the document stands in the arrays of `t`, behind those of `b`
    there_new :
        (b : List Chunk) (t : Store τ)
        → IsListed t
        → t.chunks ≡ b ++ p.chunks
        → contains t.doc_set p.id ≡ true
    there_new b t listed e = ground (
      arith,
      listed p.id,
      any-append (is_of p.id) b p.chunks,
      any-own p.id p.id p.chunks prep.own,
      eq_iff p.id p.id,
    )

    plain-IsReady :
        (t : Store τ)
        → IsAligned t
        → IsListed t
        → IsHashed t
        → t.id_hash ≡ s.id_hash
        → t.hashes ≡ s.hashes
        → (b : Bool) → b ≡ true
        → IsReady p (record (append_to_arrays o p.chunks p.vecs t) { needs_rebuild = b })
    unfolding append_to_arrays
    plain-IsReady t a l h e f b stale =
        let u = append_to_arrays o p.chunks p.vecs t in
        let listed = append_to_arrays-IsListed o p.chunks p.vecs t l in
        record {
          aligned = append_to_arrays-IsAligned o p.chunks p.vecs t prep.same a;
          sync = inr (inl stale);
          listed = listed;
          hashed = append_to_arrays-IsHashed o p.chunks p.vecs t h;
          there = there_new t.chunks u listed refl;
          unhashed = rw e unhashed_new;
          free = rw f free;
        }

    indexed-IsReady :
        (append_chunks o p.chunks p.vecs s).1 ≡ true
        → is_some s.hnsw ≡ true
        → s.needs_rebuild ≡ false
        → IsReady p (append_chunks o p.chunks p.vecs s).0
    indexed-IsReady fits index fresh =
        let r = (append_chunks o p.chunks p.vecs s).0 in
        let f = append_chunks-IsFrame o p.chunks p.vecs s in
        let listed = append_chunks-IsListed o p.chunks p.vecs s v.listed in
        record {
          aligned = append_chunks-IsAligned o p.chunks p.vecs s v.aligned;
          sync = sync v.sync;
          listed = listed;
          hashed = append_chunks-IsHashed p.chunks p.vecs s v.hashed;
          there =
              there_new s.chunks r listed (append_chunks-chunks o p.chunks p.vecs s prep.same fits);
          unhashed = rw f.id_hash unhashed_new;
          free = rw f.hashes free;
        }
      where
        sync : InSync o s → InSync o (append_chunks o p.chunks p.vecs s).0
        sync (inl deferred) =
            inl ((append_chunks-IsFrame o p.chunks p.vecs s).defer_index ∙ deferred)
        sync (inr (inl stale)) = absurd (ground arith)
        sync (inr (inr (inl (missing, none_left)))) = absurd (ground arith)
        sync (inr (inr (inr whole))) =
            inr (inr (inr (append_chunks-IsIndexed o laws p.chunks p.vecs s whole)))

    pub add_doc-IsSound : is_some s.hnsw ≡ true → IsSound o (add_doc o now p s)
    unfolding add_doc append_to_arrays
    add_doc-IsSound index =
        let r : Store τ × Bool = append_chunks o p.chunks p.vecs s in
        let f = append_chunks-IsFrame o p.chunks p.vecs s in
        let Q : Store τ → Type 0 = λ t. IsSound o (record_doc o now p t) in
        if_cases Q s.needs_rebuild
          (λ stale.
            record_doc-IsSound p _
              (plain-IsReady s v.aligned v.listed v.hashed refl refl s.needs_rebuild stale))
          (λ fresh.
            if_cases Q r.1 (λ fits. record_doc-IsSound p r.0 (indexed-IsReady fits index fresh))
              (λ other. record_doc-IsSound p _ (
                plain-IsReady r.0 (append_chunks-IsAligned o p.chunks p.vecs s v.aligned)
                  (append_chunks-IsListed o p.chunks p.vecs s v.listed)
                  (append_chunks-IsHashed p.chunks p.vecs s v.hashed) f.id_hash f.hashes true
                  refl)))
