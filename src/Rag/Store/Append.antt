-- ===== src/Rag/Store/Append.antt =====
-- Appending chunks to the arrays and the indexes of rag/store.go.
use mathlib.Core.List.{map-append}
use turbograph.Prelude.{
  ◌≡◌, refl, ap, ◌∙◌, inl, inr, Bool, List, [], ◌∷◌, ◌++◌, some, length, take, ◌==◌, arith,
  if_cases, Option-cases, length-append, length-take,
}
use turbograph.Prelude.Keys.{string_key}
use turbograph.Rag.Chunk.{Chunk, index_text}
use turbograph.Rag.Store.{
  Sorts, Store, Services, IndexLaws, chunk_ids, append_to_arrays, append_chunks, index_chunk,
}
use turbograph.Rag.Store.Sync.{IsIndexed, IsAligned}

pub append_to_arrays-IsAligned :
    {τ : Sorts} (o : Services τ) (cs : List Chunk) (vs : List τ.Vec) (s : Store τ)
    → length vs ≡ length cs
    → IsAligned s
    → IsAligned (append_to_arrays o cs vs s)
unfolding append_to_arrays
append_to_arrays-IsAligned o cs vs s h a = omega (
  arith,
  length-append s.embeds (take (length cs) vs),
  length-append s.chunks cs,
  length-take (length cs) vs,
)

-- what appending leaves alone
pub record IsFrame {τ : Sorts} (s t : Store τ) : Type 0 where
  pub hashes : t.hashes ≡ s.hashes
  pub id_hash : t.id_hash ≡ s.id_hash
  pub defer_index : t.defer_index ≡ s.defer_index
  pub needs_rebuild : t.needs_rebuild ≡ s.needs_rebuild

module _ {τ : Sorts} (o : Services τ) where
  pub append_chunks-IsFrame :
      (cs : List Chunk) (vs : List τ.Vec) (s : Store τ) → IsFrame s (append_chunks o cs vs s).0
  unfolding append_chunks
  append_chunks-IsFrame [] vs s = record {
    hashes = refl;
    id_hash = refl;
    defer_index = refl;
    needs_rebuild = refl;
  }
  append_chunks-IsFrame (c ∷ cs) [] s = record {
    hashes = refl;
    id_hash = refl;
    defer_index = refl;
    needs_rebuild = refl;
  }
  append_chunks-IsFrame (c ∷ cs) (v ∷ vs) s =
      let ih = append_chunks-IsFrame cs vs (index_chunk o c v s) in
      if_cases (λ (r : Store τ × Bool). IsFrame s r.0) (o.dim_of v == s.dim)
        (λ _. record {
          hashes = ih.hashes;
          id_hash = ih.id_hash;
          defer_index = ih.defer_index;
          needs_rebuild = ih.needs_rebuild;
        })
        (λ _. record { hashes = refl; id_hash = refl; defer_index = refl; needs_rebuild = refl })

  index_chunk-IsAligned :
      (c : Chunk) (v : τ.Vec) (s : Store τ) → IsAligned s → IsAligned (index_chunk o c v s)
  index_chunk-IsAligned c v s a =
      omega (arith, length-append s.embeds (v ∷ []), length-append s.chunks (c ∷ []))

  pub append_chunks-IsAligned :
      (cs : List Chunk) (vs : List τ.Vec) (s : Store τ)
      → IsAligned s
      → IsAligned (append_chunks o cs vs s).0
  unfolding append_chunks
  append_chunks-IsAligned [] vs s a = a
  append_chunks-IsAligned (c ∷ cs) [] s a = a
  append_chunks-IsAligned (c ∷ cs) (v ∷ vs) s a =
      let ih =
        append_chunks-IsAligned cs vs (index_chunk o c v s) (index_chunk-IsAligned c v s a) in
      if_cases (λ (r : Store τ × Bool). IsAligned r.0) (o.dim_of v == s.dim) (λ _. ih) (λ _. a)

  module _ (laws : IndexLaws o) where
    index_chunk-IsIndexed :
        (c : Chunk) (v : τ.Vec) (s : Store τ) → IsIndexed o s → IsIndexed o (index_chunk o c v s)
    index_chunk-IsIndexed c v s (h, l) =
        let joined : chunk_ids (s.chunks ++ c ∷ []) ≡ chunk_ids s.chunks ++ c.id ∷ [] =
          map-append (λ (d : Chunk). d.id) s.chunks (c ∷ []) in
        elim (Option-cases s.hnsw) [
          | inl missing ↦ absurd (ground arith)
          | inr (x, found) ↦ (
            rw (found, joined)
                (ap some (laws.vectors-add x c.id v ∙ ap (λ l. l ++ c.id ∷ []) (ground arith))),
            rw joined (laws.indexed-add s.bm25 c.id (index_text c) ∙ ap (λ l. l ++ c.id ∷ []) l),
          )
        ]

    -- Also when an embedding is refused, the indexes hold the chunks that were taken.
    pub append_chunks-IsIndexed :
        (cs : List Chunk) (vs : List τ.Vec) (s : Store τ)
        → IsIndexed o s
        → IsIndexed o (append_chunks o cs vs s).0
    unfolding append_chunks
    append_chunks-IsIndexed [] vs s h = h
    append_chunks-IsIndexed (c ∷ cs) [] s h = h
    append_chunks-IsIndexed (c ∷ cs) (v ∷ vs) s h =
        let ih =
          append_chunks-IsIndexed cs vs (index_chunk o c v s) (index_chunk-IsIndexed c v s h) in
        if_cases (λ (r : Store τ × Bool). IsIndexed o r.0) (o.dim_of v == s.dim) (λ _. ih) (λ _. h)
