-- ===== src/Rag/Store/Refuse.antt =====
-- The documents that a store takes, and those that it refuses (rag/update.go).
use Prim.Native.String.{String}
use text.Mathlib.Text.{◌==◌ as str_eq}
use turbograph.Rag.Store.Exported.{IsSameDocs, same_docs}
use turbograph.Prelude.{
  Bool, refl, ap, not, length, ◌==◌, ℕ, ◌≡◌, false, List, [], ◌∷◌, some, arith, if_cases, is_some,
}
use turbograph.Prelude.Assoc.{lookup, contains, has}
use turbograph.Prelude.Keys.{Eq, string_key}
use turbograph.Rag.Store.{
  Sorts, Store, Services, Prepared, Document, prepare_index, apply_prepared, init_indexes,
  first_dim, owned_by_other, has_doc, unchanged, new_documents,
}

module _ {τ : Sorts} ⦃e : Eq τ.Hash⦄ (o : Services τ) where
  -- When applyPreparedLocked reports that it took nothing, for whatever reason, the chunks, the
  -- document set, the hashes, the versions, the metadata, the entity graph and the cached
  -- extractions of the store are as they were; and it takes no document whose content another
  -- document of the store has.
  pub apply_prepared_refuses :
      (now : ℕ) (p : Prepared τ) (s : Store τ)
      → ((apply_prepared o now p s).1 ≡ false → IsSameDocs s (apply_prepared o now p s).0)
        × ((owner : String)
            → lookup p.hash s.hashes ≡ some owner
            → str_eq owner p.id ≡ false
            → (apply_prepared o now p s).1 ≡ false)
  unfolding apply_prepared prepare_index init_indexes
  apply_prepared_refuses now p s =
      let t = prepare_index o p s in
      let P : Store τ × Bool → Type 0 = λ r. r.1 ≡ false → IsSameDocs s r.0 in
      let same : IsSameDocs s t =
        if_cases (IsSameDocs s) (is_some s.hnsw) (λ _. same_docs s) (λ _. bare) in
      (
        if_cases P (length p.chunks == 0) (λ _ _. same_docs s)
            (λ _.
              if_cases P (not (first_dim o p.vecs == t.dim)) (λ _ _. same)
                (λ _.
                  if_cases P (owned_by_other o p t) (λ _ _. same)
                    (λ _.
                      if_cases P (has_doc p.id t)
                        (λ _.
                          if_cases P (unchanged o p t) (λ _ _. same)
                            (λ _ bad. absurd (ground arith)))
                        (λ _ bad. absurd (ground arith))))),
        λ owner found other. ground (arith, ap (lookup p.hash) same.hashes),
      )
    where
      bare :
          IsSameDocs s
            (init_indexes o (record s { dim = first_dim o p.vecs; encoder = o.fingerprint }))
      bare = record {
        chunks = refl;
        doc_set = refl;
        hashes = refl;
        id_hash = refl;
        versions = refl;
        doc_meta = refl;
        eg = refl;
        extract_cache = refl;
      }

  -- one of the batch's own documents, by its id and by the hash of its text
  abbrev IsFresh : Store τ → List String → List τ.Hash → Document → Type 0
  IsFresh s ids hashes d =
      (has (o.sha256 d.text) s.hashes ≡ false)
      × (contains ids d.id ≡ false)
      × (contains hashes (o.sha256 d.text) ≡ false)

  -- no document of a batch repeats the id or the text of one before it
  abbrev pub IsDistinct : Store τ → List String → List τ.Hash → List Document → Type 0
  IsDistinct s ids hashes [] = Unit
  IsDistinct s ids hashes (d ∷ ds) =
      IsFresh s ids hashes d × IsDistinct s (d.id ∷ ids) (o.sha256 d.text ∷ hashes) ds

  -- newDocuments keeps documents that are new to the store by their content, none of which repeats
  -- the id or the content of one kept before it.
  pub new_documents-IsDistinct :
      (s : Store τ) (ids : List String) (hashes : List τ.Hash) (ds : List Document)
      → IsDistinct s ids hashes (new_documents o s ids hashes ds)
  unfolding new_documents
  new_documents-IsDistinct s ids hashes [] = tt
  new_documents-IsDistinct s ids hashes (d ∷ ds) =
      let h = o.sha256 d.text in
      let P = IsDistinct s ids hashes in
      let skip = new_documents-IsDistinct s ids hashes ds in
      if_cases P (has h s.hashes) (λ _. skip)
        λ unknown.
          if_cases P (contains hashes h) (λ _. skip)
            λ new_text.
              if_cases P (contains ids d.id) (λ _. skip)
                λ new_id. (
                  (unknown, new_id, new_text),
                  new_documents-IsDistinct s (d.id ∷ ids) (h ∷ hashes) ds,
                )
