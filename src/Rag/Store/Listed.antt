-- ===== src/Rag/Store/Listed.antt =====
-- The set of documents of rag/store.go against the documents of its chunks.
use Prim.Native.String.{String}
use text.Mathlib.Text.{◌==◌ as str_eq}
use text.Mathlib.TextEquality.{eq_iff}
use mathlib.Core.List.{append_assoc, append-nil}
use turbograph.Prelude.{
  ◌≡◌, refl, sym, inl, inr, Bool, true, false, not, ◌&&◌, ◌||◌, List, [], ◌∷◌, ◌++◌, map,
  if◌then◌else◌, length, ◌==◌, ◌≤◌, ◌<◌, arith, Bool-cases, if_cases, any, All, length-filter-le,
}
use turbograph.Prelude.Assoc.{contains}
use turbograph.Prelude.Keys.{Eq, string_key}
use turbograph.Rag.Chunk.{Chunk}
use turbograph.Rag.Store.{
  Sorts, Store, Services, Prepared, is_of, others, others_embeds, without, append_to_arrays,
  append_chunks, index_chunk,
}

-- docSet holds the documents of the chunks.
abbrev pub IsListed : {τ : Sorts} → Store τ → Type 0
IsListed s = (id : String) → contains s.doc_set id ≡ any (is_of id) s.chunks

-- As prepareDoc makes it: chunks of the document, each with its embedding.
pub record IsPrepared {τ : Sorts} (p : Prepared τ) : Type 0 where
  pub same : length p.vecs ≡ length p.chunks
  pub own : All (λ c. is_of p.id c ≡ true) p.chunks

pub any-append : (p : Chunk → Bool) (xs ys : List Chunk) → any p (xs ++ ys) ≡ (any p xs || any p ys)
any-append p [] ys = refl
any-append p (x ∷ xs) ys = ground (arith, any-append p xs ys)

pub contains-docs :
    (cs : List Chunk) (ds : List String) (id : String)
    → contains (map (λ c. c.doc_id) cs ++ ds) id ≡ (any (is_of id) cs || contains ds id)
unfolding contains
contains-docs [] ds id = refl
contains-docs (c ∷ cs) ds id = ground (arith, contains-docs cs ds id)

any-others :
    (id d : String) (cs : List Chunk)
    → any (is_of d) (others id cs) ≡ (if str_eq d id then false else any (is_of d) cs)
unfolding others
any-others id d [] = ground arith
any-others id d (c ∷ cs) =
    ground (arith, eq_iff d id, eq_iff c.doc_id id, eq_iff c.doc_id d, any-others id d cs)

pub contains-without :
    (id d : String) (ds : List String)
    → contains (without id ds) d ≡ (if str_eq d id then false else contains ds d)
unfolding without contains
contains-without id d [] = ground arith
contains-without id d (x ∷ ds) =
    ground (arith, eq_iff d id, eq_iff x id, eq_iff x d, contains-without id d ds)

-- a document with a chunk loses one
pub others-lt :
    (id : String) (cs : List Chunk) → any (is_of id) cs ≡ true → length (others id cs) < length cs
unfolding others
others-lt id [] h = absurd (ground arith)
others-lt id (c ∷ cs) h =
    ground (arith, others-lt id cs, length-filter-le (λ d. not (is_of id d)) cs)

pub others-le : (id : String) (cs : List Chunk) → length (others id cs) ≤ length cs
unfolding others
others-le id cs = length-filter-le (λ d. not (is_of id d)) cs

pub length-others_embeds {ℓ} :
    {V : Type ℓ} (id : String) (cs : List Chunk) (vs : List V)
    → length vs ≡ length cs
    → length (others_embeds id cs vs) ≡ length (others id cs)
unfolding others others_embeds
length-others_embeds id [] [] h = refl
length-others_embeds id (c ∷ cs) (v ∷ vs) h = ground (arith, length-others_embeds id cs vs)
length-others_embeds id [] (v ∷ vs) h = refl
length-others_embeds id (c ∷ cs) [] h = absurd (omega arith)

pub any-own :
    (id d : String) (cs : List Chunk)
    → All (λ c. is_of id c ≡ true) cs
    → any (is_of d) cs ≡ (not (length cs == 0) && str_eq d id)
any-own id d [] h = refl
any-own id d (c ∷ []) h = ground (arith, eq_iff c.doc_id id, eq_iff c.doc_id d, eq_iff d id)
any-own id d (c ∷ c' ∷ cs) h =
    ground (arith, eq_iff c.doc_id id, eq_iff c.doc_id d, eq_iff d id, any-own id d (c' ∷ cs) h.1)

module _ {τ : Sorts} (o : Services τ) where
  pub append_to_arrays-IsListed :
      (cs : List Chunk) (vs : List τ.Vec) (s : Store τ)
      → IsListed s
      → IsListed (append_to_arrays o cs vs s)
  unfolding append_to_arrays
  append_to_arrays-IsListed cs vs s h id =
      ground (arith, h id, contains-docs cs s.doc_set id, any-append (is_of id) s.chunks cs)

  index_chunk-IsListed :
      (c : Chunk) (v : τ.Vec) (s : Store τ) → IsListed s → IsListed (index_chunk o c v s)
  unfolding contains
  index_chunk-IsListed c v s h id = ground (arith, h id, any-append (is_of id) s.chunks (c ∷ []))

  pub append_chunks-IsListed :
      (cs : List Chunk) (vs : List τ.Vec) (s : Store τ)
      → IsListed s
      → IsListed (append_chunks o cs vs s).0
  unfolding append_chunks
  append_chunks-IsListed [] vs s h = h
  append_chunks-IsListed (c ∷ cs) [] s h = h
  append_chunks-IsListed (c ∷ cs) (v ∷ vs) s h =
      if_cases (λ (r : Store τ × Bool). IsListed r.0) (o.dim_of v == s.dim)
        (λ _. append_chunks-IsListed cs vs (index_chunk o c v s) (index_chunk-IsListed c v s h))
        (λ _. h)

  pub append_chunks-known :
      (cs : List Chunk) (vs : List τ.Vec) (s : Store τ) (id : String)
      → contains s.doc_set id ≡ true
      → contains (append_chunks o cs vs s).0.doc_set id ≡ true
  unfolding append_chunks contains
  append_chunks-known [] vs s id h = h
  append_chunks-known (c ∷ cs) [] s id h = h
  append_chunks-known (c ∷ cs) (v ∷ vs) s id h =
      if_cases (λ (r : Store τ × Bool). contains r.0.doc_set id ≡ true) (o.dim_of v == s.dim)
        (λ _. append_chunks-known cs vs (index_chunk o c v s) id (ground arith)) (λ _. h)

  -- Without an error every chunk is taken.
  pub append_chunks-chunks :
      (cs : List Chunk) (vs : List τ.Vec) (s : Store τ)
      → length vs ≡ length cs
      → (append_chunks o cs vs s).1 ≡ true
      → (append_chunks o cs vs s).0.chunks ≡ s.chunks ++ cs
  unfolding append_chunks
  append_chunks-chunks [] vs s h e = sym (append-nil s.chunks)
  append_chunks-chunks (c ∷ cs) [] s h e = absurd (omega arith)
  append_chunks-chunks (c ∷ cs) (v ∷ vs) s h e = elim (Bool-cases (o.dim_of v == s.dim)) [
    | inl fits ↦
        let ih = append_chunks-chunks cs vs (index_chunk o c v s) (omega arith) (ground arith) in
        ground (arith, ih, append_assoc s.chunks (c ∷ []) cs)
    | inr other ↦ absurd (ground arith)
  ]

module _ {τ : Sorts} ⦃e : Eq τ.Hash⦄ where
  pub without-IsListed :
      (id : String) (s : Store τ)
      → IsListed s
      → IsListed (record s { chunks = others id s.chunks; doc_set = without id s.doc_set })
  without-IsListed id s h d =
      ground (arith, h d, any-others id d s.chunks, contains-without id d s.doc_set)
