-- ===== src/Rag/Ingest/Recorded.antt =====
-- What installing a document does to the hashes of the documents, and what prepareDoc prepares.
use Prim.Native.String.{String}
use text.Mathlib.Text.{◌==◌ as str_eq}
use text.Mathlib.TextEquality.{eq_iff}
use turbograph.Prelude.{
  ℕ, ◌≡◌, refl, ap, ◌∙◌, Bool, true, not, ◌&&◌, List, [], ◌∷◌, Option, none, some, arith,
  if◌then◌else◌, length, ◌==◌, if_cases, match_cases, All,
}
use turbograph.Prelude.Keys.{Eq, string_key}
use turbograph.Prelude.Assoc.{lookup, insert, lookup-insert, lookup-delete}
use turbograph.Rag.Chunk.{Chunk}
use turbograph.Rag.Store.{
  Sorts, Store, Services, Prepared, Document, is_of, prepare_index, apply_prepared, replace_doc,
  add_doc, record_doc, record_meta, record_version, record_hash, remove_doc, drop_entity_chunks,
  forget_hash, append_to_arrays, append_chunks, index_chunk, init_indexes, owned_by_other, has_doc,
  unchanged, first_dim,
}
use turbograph.Rag.Store.Listed.{IsPrepared}
use turbograph.Rag.Journal.{Json, Journal}
use turbograph.Rag.Ingest.{
  Sources, Preparation, ready, Outcome, skipped, failed, done, IngestResult, fill_vecs,
  doc_embeddings, missing_texts, prepared_with, journal_done, owned_elsewhere, is_unchanged,
  prepare_doc, prepare_for_ingest, outcome_of,
}

module _ {τ : Sorts} ⦃e : Eq τ.Hash⦄ (o : Services τ) where
  prepare_index-id_hash : (p : Prepared τ) (s : Store τ) → (prepare_index o p s).id_hash ≡ s.id_hash
  unfolding prepare_index init_indexes
  prepare_index-id_hash p s = ground arith

  append_chunks-id_hash :
      (cs : List Chunk) (vs : List τ.Vec) (s : Store τ)
      → (append_chunks o cs vs s).0.id_hash ≡ s.id_hash
  unfolding append_chunks
  append_chunks-id_hash [] vs s = refl
  append_chunks-id_hash (c ∷ cs) [] s = refl
  append_chunks-id_hash (c ∷ cs) (v ∷ vs) s =
      if_cases (λ (r : Store τ × Bool). r.0.id_hash ≡ s.id_hash) (o.dim_of v == s.dim)
        (λ _. append_chunks-id_hash cs vs (index_chunk o c v s)) (λ _. refl)

  append_to_arrays-id_hash :
      (cs : List Chunk) (vs : List τ.Vec) (s : Store τ)
      → (append_to_arrays o cs vs s).id_hash ≡ s.id_hash
  unfolding append_to_arrays
  append_to_arrays-id_hash cs vs s = ground arith

  record_doc-id_hash :
      (now : ℕ) (p : Prepared τ) (s : Store τ)
      → (record_doc o now p s).id_hash ≡ insert p.id p.hash s.id_hash
  unfolding record_doc record_meta record_version record_hash
  record_doc-id_hash now p s = ground arith

  lookup-remove_doc :
      (id k : String) (s : Store τ)
      → lookup k (remove_doc id (drop_entity_chunks id s)).0.id_hash
        ≡ (if str_eq id k then none else lookup k s.id_hash)
  unfolding remove_doc drop_entity_chunks forget_hash
  lookup-remove_doc id k s =
      match_cases
        (λ (m : List (String × τ.Hash)).
          lookup k m ≡ (if str_eq id k then none else lookup k s.id_hash))
        (lookup id s.id_hash) (λ out. ground (arith, out, eq_iff id k))
        (λ h found. lookup-delete id k s.id_hash)

  lookup-replace_doc :
      (now : ℕ) (p : Prepared τ) (s : Store τ) (k : String)
      → lookup k (replace_doc o now p s).id_hash
        ≡ (if str_eq p.id k then some p.hash else lookup k s.id_hash)
  unfolding replace_doc
  lookup-replace_doc now p s k =
      let bare = (remove_doc p.id (drop_entity_chunks p.id s)).0 in
      let t = append_to_arrays o p.chunks p.vecs bare in
      ap (lookup k) (record_doc-id_hash now p t)
      ∙ lookup-insert p.id k p.hash t.id_hash
      ∙ ground (arith, append_to_arrays-id_hash p.chunks p.vecs bare, lookup-remove_doc p.id k s)

  add_doc-id_hash :
      (now : ℕ) (p : Prepared τ) (s : Store τ)
      → (add_doc o now p s).id_hash ≡ insert p.id p.hash s.id_hash
  unfolding add_doc append_to_arrays
  add_doc-id_hash now p s =
      let r = append_chunks o p.chunks p.vecs s in
      let grown = append_chunks-id_hash p.chunks p.vecs s in
      record_doc-id_hash now p _
      ∙ ap (insert p.id p.hash) (
          if_cases (λ (t : Store τ). t.id_hash ≡ s.id_hash) s.needs_rebuild (λ _. refl)
            (λ _. if_cases (λ (t : Store τ). t.id_hash ≡ s.id_hash) r.1 (λ _. grown) (λ _. grown)))

  -- installing a document records its hash exactly if it reports so
  pub lookup-apply_prepared :
      (now : ℕ) (p : Prepared τ) (s : Store τ) (k : String)
      → lookup k (apply_prepared o now p s).0.id_hash ≡ (
          if (apply_prepared o now p s).1 && str_eq p.id k then some p.hash else lookup k s.id_hash)
  unfolding apply_prepared
  lookup-apply_prepared now p s k =
      let t : Store τ = prepare_index o p s in
      let same = ap (lookup k) (prepare_index-id_hash p s) in
      let P : Store τ × Bool → Type 0 = λ r.
        lookup k r.0.id_hash ≡ (if r.1 && str_eq p.id k then some p.hash else lookup k s.id_hash) in
      if_cases P (length p.chunks == 0) (λ _. refl)
        λ _.
          if_cases P (not (first_dim o p.vecs == t.dim)) (λ _. same)
            λ _.
              if_cases P (owned_by_other o p t) (λ _. same)
                λ _.
                  if_cases P (has_doc p.id t)
                    (λ _.
                      if_cases P (unchanged o p t) (λ _. same)
                        (λ _. lookup-replace_doc now p t k ∙ ground (arith, same)))
                    (λ _.
                      ap (lookup k) (add_doc-id_hash now p t)
                      ∙ lookup-insert p.id k p.hash t.id_hash
                      ∙ ground (arith, same))

-- A result that is ready belongs to its document, which has an embedding for each of its chunks.
abbrev pub IsGoodOutcome : {τ : Sorts} → String → Outcome τ → Type 0
IsGoodOutcome id skipped = Unit
IsGoodOutcome id (failed err) = Unit
IsGoodOutcome id (done p) = (p.id ≡ id) × IsPrepared p

abbrev pub IsGood : {τ : Sorts} → IngestResult τ → Type 0
IsGood x = IsGoodOutcome x.id x.outcome

-- a chunker gives chunks of the document
abbrev pub KeepsOwn : {τ : Sorts} → Sources τ → Type 0
KeepsOwn src = (d : Document) → All (λ c. is_of d.id c ≡ true) (src.chunked d)

module _ {τ : Sorts} ⦃e : Eq τ.Hash⦄ (o : Services τ) (src : Sources τ) (own : KeepsOwn src) where
  length-fill_vecs :
      (reuse : List (τ.Hash × τ.Vec)) (cs : List Chunk) (vs : List τ.Vec)
      → length (fill_vecs o src reuse cs vs) ≡ length cs
  unfolding fill_vecs
  length-fill_vecs reuse [] vs = refl
  length-fill_vecs reuse (c ∷ cs) [] = ground (arith, length-fill_vecs reuse cs [])
  length-fill_vecs reuse (c ∷ cs) (v ∷ vs) =
      ground (arith, length-fill_vecs reuse cs vs, length-fill_vecs reuse cs (v ∷ vs))

  outcome_of-IsGood :
      (d : Document) (p : Prepared τ)
      → p.id ≡ d.id
      → IsPrepared p
      → IsGoodOutcome d.id (outcome_of o src (ready p))
  outcome_of-IsGood d p same h =
      if_cases (IsGoodOutcome d.id) (length p.chunks == 0) (λ _. tt) (λ _. (same, h))

  prepare_doc-IsGood :
      (d : Document) (s : Store τ) → IsGoodOutcome d.id (outcome_of o src (prepare_doc o src d s))
  unfolding prepare_doc
  prepare_doc-IsGood d s =
      let cs = src.chunked d in
      let reuse = doc_embeddings o src d.id s in
      let texts = missing_texts o src reuse cs in
      let P : Preparation τ → Type 0 = λ r. IsGoodOutcome d.id (outcome_of o src r) in
      let filled = λ (vs : List τ.Vec).
        outcome_of-IsGood d (prepared_with o src d cs (fill_vecs o src reuse cs vs)) refl
          (record { same = length-fill_vecs reuse cs vs; own = own d }) in
      if_cases P (length cs == 0)
        (λ _.
          outcome_of-IsGood d (prepared_with o src d [] []) refl (record { same = refl; own = tt }))
        λ _.
          if_cases P (length texts == 0) (λ _. filled [])
            λ _.
              match_cases P (src.embed texts) (λ _. tt)
                λ vs _. if_cases P (not (length vs == length texts)) (λ _. tt) (λ _. filled vs)

  pub prepare_for_ingest-IsGood :
      {json : Json} (d : Document) (s : Store τ) (j : Option (Journal json))
      → IsGood (prepare_for_ingest o src d s j)
  unfolding prepare_for_ingest
  prepare_for_ingest-IsGood d s j =
      if_cases (IsGoodOutcome d.id) (journal_done d.id j) (λ _. tt)
        λ _.
          if_cases (IsGoodOutcome d.id) (owned_elsewhere o src d s) (λ _. tt)
            λ _.
              if_cases (IsGoodOutcome d.id) (is_unchanged o src d s) (λ _. tt)
                (λ _. prepare_doc-IsGood d s)
