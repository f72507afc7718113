-- ===== src/Rag/Ingest/Prepare.antt =====
-- prepareDoc of rag/update.go and prepareForIngest of rag/ingest.go: a document is chunked and
-- embedded off the write lock.
use Prim.Native.String.{String}
use text.Mathlib.Text.{◌==◌ as str_eq}
use turbograph.Prelude.{
  ℕ, Bool, false, not, ◌&&◌, List, [], ◌∷◌, Option, none, some, if◌then◌else◌, length, ltb, ◌==◌,
}
use turbograph.Prelude.Keys.{Eq, string_key}
use turbograph.Prelude.Assoc.{lookup, insert}
use turbograph.Rag.Chunk.{Chunk, index_text}
use turbograph.Rag.Store.{Sorts, Store, Services, Prepared, Document, is_of, content_owner}
use turbograph.Rag.Journal.{Json, Journal, is_done}

pub data PrepareError : Type 0 where
  not_embedded : PrepareError
  miscounted : ℕ → ℕ → PrepareError

-- What is configured: the chunker with the contextual prefixes of a model, the metadata of a
-- document, the embedder, whose `none` is an error, a nil slice, and the text of an error.
pub record Sources (τ : Sorts) : Type 0 where
  pub chunked : Document → List Chunk
  pub meta_of : Document → Option τ.Meta
  pub embed : List String → Option (List τ.Vec)
  pub nil_vec : τ.Vec
  pub error_text : PrepareError → String

-- the document and a nil error, or the error
pub data Preparation (τ : Sorts) : Type 0 where
  ready : Prepared τ → Preparation τ
  refused : PrepareError → Preparation τ

module _ {τ : Sorts} ⦃e : Eq τ.Hash⦄ (o : Services τ) (src : Sources τ) where
  -- the loop of docEmbeddings
  unfoldable pub collect_embeddings :
      String → List Chunk → List τ.Vec → List (τ.Hash × τ.Vec) → List (τ.Hash × τ.Vec)
  collect_embeddings id (c ∷ cs) (v ∷ vs) out =
      collect_embeddings id cs vs (if is_of id c then insert (o.sha256 c.text) v out else out)
  collect_embeddings id _ _ out = out

  unfoldable pub doc_embeddings : String → Store τ → List (τ.Hash × τ.Vec)
  doc_embeddings id s = collect_embeddings id s.chunks s.embeds []

  -- the embedding that a chunk takes over
  unfoldable pub reused : List (τ.Hash × τ.Vec) → Chunk → Option τ.Vec
  reused reuse c = elim (lookup (o.sha256 c.text) reuse) [
    | none ↦ none
    | some v ↦ if ltb 0 (o.dim_of v) && str_eq c.context "" then some v else none
  ]

  unfoldable pub missing_texts : List (τ.Hash × τ.Vec) → List Chunk → List String
  missing_texts reuse [] = []
  missing_texts reuse (c ∷ cs) =
      let rest = missing_texts reuse cs in
      elim (reused reuse c) [ none ↦ index_text c ∷ rest | some _ ↦ rest ]

  -- the embeddings of the embedder fill the places that are left
  unfoldable pub fill_vecs : List (τ.Hash × τ.Vec) → List Chunk → List τ.Vec → List τ.Vec
  fill_vecs reuse [] vs = []
  fill_vecs reuse (c ∷ cs) [] =
      let rest = fill_vecs reuse cs [] in
      elim (reused reuse c) [ none ↦ src.nil_vec ∷ rest | some w ↦ w ∷ rest ]
  fill_vecs reuse (c ∷ cs) (v ∷ vs) =
      let old = fill_vecs reuse cs (v ∷ vs) in
      let new = fill_vecs reuse cs vs in elim (reused reuse c) [ none ↦ v ∷ new | some w ↦ w ∷ old ]

  abbrev pub prepared_with : Document → List Chunk → List τ.Vec → Prepared τ
  prepared_with d cs vs = record {
    id = d.id;
    hash = o.sha256 d.text;
    text = d.text;
    meta = src.meta_of d;
    chunks = cs;
    vecs = vs;
  }

  unfoldable pub prepare_doc : Document → Store τ → Preparation τ
  prepare_doc d s =
      let cs = src.chunked d in
      let reuse = doc_embeddings d.id s in
      let texts = missing_texts reuse cs in
      if length cs == 0
      then ready (prepared_with d [] [])
      else if length texts == 0
      then ready (prepared_with d cs (fill_vecs reuse cs []))
      else elim (src.embed texts) [
        | none ↦ refused not_embedded
        | some vs ↦
            if not (length vs == length texts)
            then refused (miscounted (length vs) (length texts))
            else ready (prepared_with d cs (fill_vecs reuse cs vs))
      ]

-- what an ingestResult says of its document
pub data Outcome (τ : Sorts) : Type 0 where
  skipped : Outcome τ
  failed : PrepareError → Outcome τ
  done : Prepared τ → Outcome τ

pub record IngestResult (τ : Sorts) : Type 0 where
  pub id : String
  pub outcome : Outcome τ

abbrev pub journal_done : {json : Json} → String → Option (Journal json) → Bool
journal_done id none = false
journal_done {json} id (some j) = is_done json id j

module _ {τ : Sorts} ⦃e : Eq τ.Hash⦄ (o : Services τ) (src : Sources τ) where
  abbrev pub owned_elsewhere : Document → Store τ → Bool
  owned_elsewhere d s = elim (content_owner (o.sha256 d.text) s) [
    | none ↦ false
    | some owner ↦ not (str_eq owner d.id)
  ]

  abbrev pub is_unchanged : Document → Store τ → Bool
  is_unchanged d s = elim (lookup d.id s.id_hash) [
    | none ↦ false
    | some h ↦ e.beq h (o.sha256 d.text)
  ]

  abbrev pub outcome_of : Preparation τ → Outcome τ
  outcome_of (refused err) = failed err
  outcome_of (ready p) = if length p.chunks == 0 then skipped else done p

  unfoldable pub prepare_for_ingest :
      {json : Json} → Document → Store τ → Option (Journal json) → IngestResult τ
  prepare_for_ingest d s j = record {
    id = d.id;
    outcome =
        if journal_done d.id j
        then skipped
        else if owned_elsewhere d s
        then skipped
        else if is_unchanged d s
        then skipped
        else outcome_of (prepare_doc o src d s);
  }
