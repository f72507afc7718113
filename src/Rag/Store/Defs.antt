-- ===== src/Rag/Store/Defs.antt =====
-- rag/store.go: the state of a store, and the operations under its write lock.
-- Map fields are association lists; a nil map and an empty map are not told apart. The similarity
-- edges are not part of the state: of the graph built from them its number of nodes is kept.
use Prim.Native.String.{String}
use turbograph.Prelude.{ℕ, ◌≡◌, Bool, List, [], ◌∷◌, ◌++◌, map, Option, some, length}
use turbograph.Prelude.Keys.{string_key}
use turbograph.Entity.{Graph, Extraction}
use turbograph.Rag.Chunk.{Chunk}

-- The types that the store passes through: a content hash, the JSON of a document's metadata, the
-- vector index, the lexical index, the links read from disk, an embedding, and a block of vectors.
pub record Sorts : Type 1 where
  pub Hash : Type 0
  pub Meta : Type 0
  pub Hnsw : Type 0
  pub Bm25 : Type 0
  pub Links : Type 0
  pub Vec : Type 0
  pub Block : Type 0

-- docVersion
pub record DocVersion (τ : Sorts) : Type 0 where
  pub hash : τ.Hash
  pub time : ℕ
  pub text : String
  pub chunks : ℕ

-- cachedExtraction, with the hash of the text that was read
pub record CachedExtraction (τ : Sorts) : Type 0 where
  pub text : τ.Hash
  pub ex : Extraction

pub record Store (τ : Sorts) : Type 0 where
  pub dim : ℕ
  pub encoder : String
  pub hnsw : Option τ.Hnsw
  pub bm25 : τ.Bm25
  pub chunks : List Chunk
  pub embeds : List τ.Vec
  pub doc_set : List String
  pub hashes : List (τ.Hash × String)
  pub id_hash : List (String × τ.Hash)
  pub versions : List (String × List (DocVersion τ))
  pub doc_meta : List (String × τ.Meta)
  pub comm_summary : List (ℕ × String)
  pub indexed_up_to : ℕ
  pub needs_rebuild : Bool
  pub defer_index : Bool
  pub defer_graph : Bool
  pub saved_hnsw : Option τ.Links
  pub flat : τ.Block
  pub graph_nodes : Option ℕ
  pub eg : Option Graph
  pub extract_cache : List (τ.Hash × CachedExtraction τ)

-- What the store calls of package index, package lexical and crypto/sha256, and the fingerprint of
-- its embedder. `vectors` lists the ids of an index with their vectors, by ordinal, and `indexed`
-- the ids of the lexical index.
pub record Services (τ : Sorts) : Type 0 where
  pub sha256 : String → τ.Hash
  pub fingerprint : String
  pub new_hnsw : ℕ → τ.Hnsw
  pub hnsw_add : τ.Hnsw → String → τ.Vec → τ.Hnsw
  pub vectors : τ.Hnsw → List (String × τ.Vec)
  pub adopt_flat : ℕ → List String → τ.Block → τ.Links → Option τ.Hnsw
  pub restore_hnsw : ℕ → List String → List τ.Vec → τ.Links → Option τ.Hnsw
  pub levels : τ.Links → ℕ
  pub nil_block : τ.Block
  pub block_len : τ.Block → ℕ
  pub dim_of : τ.Vec → ℕ
  pub new_bm25 : τ.Bm25
  pub bm25_add : τ.Bm25 → String → String → τ.Bm25
  pub add_batch : τ.Bm25 → List String → List String → τ.Bm25
  pub indexed : τ.Bm25 → List String

abbrev pub ids_of {ℓ} : {A : Type ℓ} → List (String × A) → List String
ids_of = map (λ p. p.0)

abbrev pub chunk_ids : List Chunk → List String
chunk_ids = map (λ c. c.id)

-- What the indexes promise: a call adds the ids that it is given behind those that are there.
pub record IndexLaws {τ : Sorts} (o : Services τ) : Type 0 where
  pub vectors-new : (d : ℕ) → o.vectors (o.new_hnsw d) ≡ []
  pub vectors-add :
      (x : τ.Hnsw) (id : String) (v : τ.Vec)
      → ids_of (o.vectors (o.hnsw_add x id v)) ≡ ids_of (o.vectors x) ++ id ∷ []
  pub vectors-adopt :
      (d : ℕ) (ids : List String) (b : τ.Block) (l : τ.Links) (x : τ.Hnsw)
      → o.adopt_flat d ids b l ≡ some x
      → ids_of (o.vectors x) ≡ ids
  pub vectors-restore :
      (d : ℕ) (ids : List String) (vs : List τ.Vec) (l : τ.Links) (x : τ.Hnsw)
      → o.restore_hnsw d ids vs l ≡ some x
      → ids_of (o.vectors x) ≡ ids
  pub indexed-new : o.indexed o.new_bm25 ≡ []
  pub indexed-add :
      (y : τ.Bm25) (id text : String) → o.indexed (o.bm25_add y id text) ≡ o.indexed y ++ id ∷ []
  pub indexed-add_batch :
      (y : τ.Bm25) (ids texts : List String)
      → length ids ≡ length texts
      → o.indexed (o.add_batch y ids texts) ≡ o.indexed y ++ ids
