-- ===== src/Rag/Store/Docs.antt =====
-- rag/store.go, rag/update.go, rag/versions.go, rag/document.go: adding, updating and removing
-- documents under the write lock, with their hashes, versions, metadata and extraction cache.
use Prim.Native.String.{String}
use text.Mathlib.Text.{◌==◌ as str_eq}
use mathlib.Core.Option
use turbograph.Prelude.{
  ℕ, ◌-◌, Bool, true, false, not, ◌||◌, List, [], ◌∷◌, ◌++◌, map, Option, none, some, if◌then◌else◌,
  filter, length, ◌==◌, is_some,
}
use turbograph.Prelude.Keys.{Eq, string_key}
use turbograph.Prelude.Assoc.{lookup, insert, delete, has, contains}
use turbograph.Entity.{drop_chunks}
use turbograph.Rag.Chunk.{Chunk}
use turbograph.Rag.Store.Defs.{Sorts, DocVersion, Store, Services, chunk_ids}
use turbograph.Rag.Store.Index.{
  init_indexes, share_vectors, ensure_search, reindex, append_to_arrays, append_chunks,
}

-- `prepared`; the metadata is `none` where it is empty or is no JSON
pub record Prepared (τ : Sorts) : Type 0 where
  pub id : String
  pub hash : τ.Hash
  pub text : String
  pub meta : Option τ.Meta
  pub chunks : List Chunk
  pub vecs : List τ.Vec

pub record Document : Type 0 where
  pub id : String
  pub text : String

-- the chunks of a document, and those of the others
abbrev pub is_of : String → Chunk → Bool
is_of id c = str_eq c.doc_id id

unfoldable pub chunks_of : String → List Chunk → List Chunk
chunks_of id = filter (is_of id)

unfoldable pub others : String → List Chunk → List Chunk
others id = filter (λ c. not (is_of id c))

unfoldable pub others_embeds {ℓ} : {V : Type ℓ} → String → List Chunk → List V → List V
others_embeds id (c ∷ cs) (v ∷ vs) =
    let rest = others_embeds id cs vs in if is_of id c then rest else v ∷ rest
others_embeds id _ _ = []

-- `delete(s.docSet, id)`
unfoldable pub without : String → List String → List String
without id = filter (λ d. not (str_eq d id))

abbrev pub versions_of : {τ : Sorts} → String → Store τ → List (DocVersion τ)
versions_of id s = elim (lookup id s.versions) [ none ↦ [] | some vs ↦ vs ]

module _ {τ : Sorts} ⦃e : Eq τ.Hash⦄ where
  unfoldable pub record_hash : String → τ.Hash → Store τ → Store τ
  record_hash id h s = record s { hashes = insert h id s.hashes; id_hash = insert id h s.id_hash }

  abbrev pub content_owner : τ.Hash → Store τ → Option String
  content_owner h s = lookup h s.hashes

  abbrev pub has_doc : String → Store τ → Bool
  has_doc id s = contains s.doc_set id

  unfoldable pub last_is : τ.Hash → List (DocVersion τ) → Bool
  last_is h [] = false
  last_is h (v ∷ []) = e.beq v.hash h
  last_is h (v ∷ w ∷ vs) = last_is h (w ∷ vs)

  -- `now` is the clock
  unfoldable pub record_version : ℕ → String → τ.Hash → String → ℕ → Store τ → Store τ
  record_version now id h text chunks s =
      let v = versions_of id s in
      let new : DocVersion τ = record { hash = h; time = now; text = text; chunks = chunks } in
      record s {
        versions = if last_is h v then s.versions else insert id (v ++ new ∷ []) s.versions;
      }

  -- empty metadata is `none`
  unfoldable pub record_meta : String → Option τ.Meta → Store τ → Store τ
  record_meta id meta s = record s {
    doc_meta = elim meta [ none ↦ delete id s.doc_meta | some m ↦ insert id m s.doc_meta ];
  }

  unfoldable pub drop_entity_chunks : String → Store τ → Store τ
  drop_entity_chunks id s =
      let gone = chunk_ids (chunks_of id s.chunks) in
      record s {
        eg = if length gone == 0 then s.eg else Option.map (λ g. (drop_chunks gone g).0) s.eg;
      }

  -- what removeDocLocked does to the hash mappings
  unfoldable pub forget_hash : String → Store τ → Store τ
  forget_hash id s = record s {
    hashes = elim (lookup id s.id_hash) [ none ↦ s.hashes | some h ↦ delete h s.hashes ];
    id_hash = elim (lookup id s.id_hash) [ none ↦ s.id_hash | some _ ↦ delete id s.id_hash ];
  }

  unfoldable pub remove_doc : String → Store τ → Store τ × ℕ
  remove_doc id s =
      let kept = others id s.chunks in
      let removed = length s.chunks - length kept in
      (
        forget_hash id (record s {
          chunks = kept;
          embeds = others_embeds id s.chunks s.embeds;
          needs_rebuild = if removed == 0 then s.needs_rebuild else true;
          doc_set = without id s.doc_set;
        }),
        removed,
      )

module _ {τ : Sorts} ⦃e : Eq τ.Hash⦄ (o : Services τ) where
  unfoldable pub prune_extract_cache : Store τ → Store τ
  prune_extract_cache s =
      let live = map (λ c. o.sha256 c.text) s.chunks in
      record s { extract_cache = filter (λ p. contains live p.1.text) s.extract_cache }

  unfoldable pub delete_document : String → Store τ → Store τ × ℕ
  delete_document id s =
      let gone = chunk_ids (chunks_of id s.chunks) in
      let r = remove_doc id s in
      let bare = record r.0 {
        doc_meta = delete id r.0.doc_meta;
        versions = delete id r.0.versions;
      } in
      if r.1 == 0 then (bare, r.1) else (
        reindex o (
            prune_extract_cache (record bare {
              comm_summary = [];
              eg = Option.map (λ g. (drop_chunks gone g).0) bare.eg;
            })),
        r.1,
      )

  -- the length of the first embedding
  abbrev pub first_dim : List τ.Vec → ℕ
  first_dim [] = 0
  first_dim (v ∷ vs) = o.dim_of v

  -- the tail that both paths of applyPreparedLocked share
  -- metadata is recorded only where it is not empty
  unfoldable pub record_doc : ℕ → Prepared τ → Store τ → Store τ
  record_doc now p s =
      let r = record_version now p.id p.hash p.text (length p.chunks) (record_hash p.id p.hash s) in
      record r {
        doc_meta = if is_some p.meta then (record_meta p.id p.meta r).doc_meta else r.doc_meta;
      }

  abbrev pub owned_by_other : Prepared τ → Store τ → Bool
  owned_by_other p s = elim (content_owner p.hash s) [
    | none ↦ false
    | some owner ↦ not (str_eq owner p.id)
  ]

  abbrev pub unchanged : Prepared τ → Store τ → Bool
  unchanged p s = elim (lookup p.id s.id_hash) [ none ↦ false | some h ↦ e.beq h p.hash ]

  -- the path of an update
  unfoldable pub replace_doc : ℕ → Prepared τ → Store τ → Store τ
  replace_doc now p s =
      let bare = (remove_doc p.id (drop_entity_chunks p.id s)).0 in
      record_doc now p (append_to_arrays o p.chunks p.vecs bare)

  -- the path of a new document
  unfoldable pub add_doc : ℕ → Prepared τ → Store τ → Store τ
  add_doc now p s =
      let plain = append_to_arrays o p.chunks p.vecs s in
      let r = append_chunks o p.chunks p.vecs s in
      let again = record (append_to_arrays o p.chunks p.vecs r.0) { needs_rebuild = true } in
      record_doc now p (if s.needs_rebuild then plain else if r.1 then r.0 else again)

  -- the index of a store that has none yet
  unfoldable pub prepare_index : Prepared τ → Store τ → Store τ
  prepare_index p s =
      if is_some s.hnsw
      then s
      else init_indexes o (record s { dim = first_dim p.vecs; encoder = o.fingerprint })

  unfoldable pub apply_prepared : ℕ → Prepared τ → Store τ → Store τ × Bool
  apply_prepared now p s =
      let t = prepare_index p s in
      if length p.chunks == 0
      then (s, false)
      else if not (first_dim p.vecs == t.dim)
      then (t, false)
      else if owned_by_other p t
      then (t, false)
      else if has_doc p.id t
      then (if unchanged p t then (t, false) else (replace_doc now p t, true))
      else (add_doc now p t, true)

  unfoldable pub apply_all : ℕ → List (Prepared τ) → Store τ → Store τ × Bool
  apply_all now [] s = (s, false)
  apply_all now (p ∷ ps) s =
      let r = apply_prepared now p s in let q = apply_all now ps r.0 in (q.0, r.1 || q.1)

  -- AddDocuments behind the lock
  unfoldable pub add_prepared : ℕ → List (Prepared τ) → Store τ → Store τ
  add_prepared now ps s =
      let r = apply_all now ps (ensure_search o s) in
      let fresh = prune_extract_cache (record (share_vectors o r.0) { comm_summary = [] }) in
      if length ps == 0 then s else reindex o (if r.1 then fresh else r.0)

  -- the loop of newDocuments, with the ids and hashes seen in the batch
  unfoldable pub new_documents : Store τ → List String → List τ.Hash → List Document → List Document
  new_documents s seen_id seen_hash [] = []
  new_documents s seen_id seen_hash (d ∷ ds) =
      let h = o.sha256 d.text in
      let skip = new_documents s seen_id seen_hash ds in
      let keep = d ∷ new_documents s (d.id ∷ seen_id) (h ∷ seen_hash) ds in
      if has h s.hashes
      then skip
      else if contains seen_hash h
      then skip
      else if contains seen_id d.id
      then skip
      else keep
