-- ===== src/Rag/Store/Forget.antt =====
-- What a deleted document leaves behind (DeleteDocument in rag/store.go).
use Prim.Native.String.{String}
use text.Mathlib.TextEquality.{eq_iff}
use mathlib.Core.Option
use turbograph.Prelude.{
  ℕ, ◌-◌, ◌≡◌, refl, sym, ap, ◌∙◌, inl, inr, Bool, true, false, List, [], ◌∷◌, map, Option, none,
  if◌then◌else◌, some, filter, length, ◌==◌, arith, Bool-cases, Option-cases, if_cases, All,
}
use turbograph.Prelude.Assoc.{lookup, delete, holds, contains, lookup-delete}
use turbograph.Prelude.Keys.{Eq, string_key}
use turbograph.Entity.{Graph, Entity, TextOps, drop_chunks}
use turbograph.Entity.Valid.{IsValid}
use turbograph.Entity.Drop.{drop_chunks_uncited}
use turbograph.Rag.Chunk.{Chunk}
use turbograph.Rag.Store.{
  Sorts, Store, Services, others, chunks_of, chunk_ids, without, forget_hash, remove_doc,
  delete_document, prune_extract_cache,
}
use turbograph.Rag.Store.Listed.{contains-without, others-le}
use turbograph.Rag.Store.Sound.{forget_hash-gone}
use turbograph.Rag.Store.Exported.{reindex-IsSameDocs}

-- The texts of the chunks include the one of every cached extraction.
abbrev pub IsLive : {τ : Sorts} ⦃e : Eq τ.Hash⦄ → Services τ → Store τ → Type 0
IsLive o s =
    All (λ p. contains (map (λ c. o.sha256 c.text) s.chunks) p.1.text ≡ true) s.extract_cache

-- No entity of the graph cites the chunk.
abbrev pub IsUncited : String → Option Graph → Type 0
IsUncited c eg =
    (g : Graph) (n : String) (e : Entity)
    → eg ≡ some g
    → lookup n g.entities ≡ some e
    → contains e.chunks c ≡ false

length-chunks_of :
    (id : String) (cs : List Chunk) → length cs - length (others id cs) ≡ length (chunks_of id cs)
unfolding others chunks_of
length-chunks_of id [] = refl
length-chunks_of id (c ∷ cs) = ground (arith, length-chunks_of id cs, others-le id cs)

All-filter {ℓ} : {A : Type ℓ} (p : A → Bool) (xs : List A) → All (λ x. p x ≡ true) (filter p xs)
All-filter p [] = tt
All-filter p (x ∷ xs) = elim (Bool-cases (p x)) [
  | inl keep ↦ rw keep (keep, All-filter p xs)
  | inr cut ↦ rw cut (All-filter p xs)
]

module _ {τ : Sorts} ⦃e : Eq τ.Hash⦄ (o : Services τ) where
  -- of the owners, only the one by the hash of the document is gone
  lookup-forget_hash :
      (id : String) (s : Store τ) (h : τ.Hash)
      → lookup h (forget_hash id s).hashes
        ≡ (if holds (λ g. e.beq g h) (lookup id s.id_hash) then none else lookup h s.hashes)
  unfolding forget_hash
  lookup-forget_hash id s h = elim (Option-cases (lookup id s.id_hash)) [
    | inl missing ↦ ground arith
    | inr (g, had) ↦ ground (arith, lookup-delete g h s.hashes)
  ]

  -- what a deleted document leaves, whether it had chunks or not
  abbrev pub IsForgotten : String → Store τ → Store τ × ℕ → Type 0
  IsForgotten id s r =
      (r.0.chunks ≡ others id s.chunks)
      × (r.1 ≡ length (chunks_of id s.chunks))
      × (contains r.0.doc_set id ≡ false)
      × (lookup id r.0.id_hash ≡ none)
      × ((h : τ.Hash)
          → lookup h r.0.hashes
            ≡ (if holds (λ g. e.beq g h) (lookup id s.id_hash) then none else lookup h s.hashes))
      × (lookup id r.0.versions ≡ none)
      × (lookup id r.0.doc_meta ≡ none)

  -- DeleteDocument leaves exactly the chunks of the other documents, reports the number of those
  -- it removed, and leaves no version or metadata of the document and no hash of it in either map:
  -- by its id there is none, and of the owners by content exactly that of the hash that it had is
  -- gone.
  pub delete_document_forgets :
      (id : String) (s : Store τ) → IsForgotten id s (delete_document o id s)
  unfolding delete_document prune_extract_cache remove_doc forget_hash
  delete_document_forgets id s =
      let r : Store τ × ℕ = remove_doc id s in
      let gone : contains (without id s.doc_set) id ≡ false =
        ground (arith, contains-without id id s.doc_set, eq_iff id id) in
      let hash = forget_hash-gone id s in
      let owners = lookup-forget_hash id s in
      let version : lookup id (delete id s.versions) ≡ none =
        ground (arith, lookup-delete id id s.versions, eq_iff id id) in
      let meta : lookup id (delete id s.doc_meta) ≡ none =
        ground (arith, lookup-delete id id s.doc_meta, eq_iff id id) in
      let count = length-chunks_of id s.chunks in
      if_cases (IsForgotten id s) (r.1 == 0) (λ _. (refl, count, gone, hash, owners, version, meta))
        (λ _.
          let d = reindex-IsSameDocs o _ in
          (
            d.chunks,
            count,
            ap (λ ds. contains ds id) d.doc_set ∙ gone,
            ap (lookup id) d.id_hash ∙ hash,
            λ h. ap (lookup h) d.hashes ∙ owners h,
            ap (lookup id) d.versions ∙ version,
            ap (lookup id) d.doc_meta ∙ meta,
          ))

  -- When the document has chunks and the entity graph is valid, DeleteDocument leaves no entity
  -- that cites one of them any more, and the cached extractions that are left are those of texts
  -- that a chunk still has.
  pub delete_document_uncites :
      (t : TextOps) (id c : String) (s : Store τ)
      → ((g : Graph) → s.eg ≡ some g → IsValid t g)
      → (length (chunks_of id s.chunks) == 0) ≡ false
      → contains (chunk_ids (chunks_of id s.chunks)) c ≡ true
      → IsUncited c (delete_document o id s).0.eg × IsLive o (delete_document o id s).0
  unfolding delete_document prune_extract_cache remove_doc forget_hash
  delete_document_uncites t id c s valid full out =
      let r : Store τ × ℕ = remove_doc id s in
      if_cases (λ (q : Store τ × ℕ). IsUncited c q.0.eg × IsLive o q.0) (r.1 == 0)
        (λ none_left. absurd (ground (arith, length-chunks_of id s.chunks)))
        (λ _.
          let d = reindex-IsSameDocs o _ in
          (
            λ g n e now found. uncited g n e (sym d.eg ∙ now) found,
            rw (d.chunks, d.extract_cache) (All-filter _ s.extract_cache),
          ))
    where
      uncited :
          IsUncited c (Option.map (λ g. (drop_chunks (chunk_ids (chunks_of id s.chunks)) g).0) s.eg)
      uncited g n e now found = elim (Option-cases s.eg) [
        | inl missing ↦ absurd (ground arith)
        | inr (h, was) ↦
            (drop_chunks_uncited t (chunk_ids (chunks_of id s.chunks)) h n c e (valid h was) out
              (ground arith)).0
      ]
