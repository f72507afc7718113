-- ===== src/Rag/Store/Sound.antt =====
-- The invariant of a store (rag/store.go), and removing a document.
use Prim.Native.String.{String}
use text.Mathlib.Text.{◌==◌ as str_eq}
use text.Mathlib.TextEquality.{eq_iff}
use turbograph.Prelude.{◌≡◌, inl, inr, true, false, List, none, some, arith, Option-cases, any}
use turbograph.Prelude.Assoc.{lookup, contains, lookup-insert, lookup-delete}
use turbograph.Prelude.Keys.{Eq, string_key}
use turbograph.Rag.Chunk.{Chunk}
use turbograph.Rag.Store.{
  Sorts, Store, Services, is_of, append_to_arrays, record_hash, forget_hash, remove_doc,
}
use turbograph.Rag.Store.Sync.{IsAligned, InSync}
use turbograph.Rag.Store.Listed.{
  IsListed, contains-docs, contains-without, without-IsListed, others-lt, length-others_embeds,
}

-- The two hash maps are inverse to each other, and name documents of the store only.
pub record IsInverse {H : Type 0} ⦃e : Eq H⦄ (hashes : List (H × String))
    (id_hash : List (String × H)) (doc_set : List String) : Type 0 where
  pub owner : (h : H) (id : String) → lookup h hashes ≡ some id → lookup id id_hash ≡ some h
  pub hash : (id : String) (h : H) → lookup id id_hash ≡ some h → lookup h hashes ≡ some id
  pub known : (id : String) (h : H) → lookup id id_hash ≡ some h → contains doc_set id ≡ true

abbrev pub IsHashed : {τ : Sorts} ⦃e : Eq τ.Hash⦄ → Store τ → Type 0
IsHashed s = IsInverse s.hashes s.id_hash s.doc_set

pub record IsSound {τ : Sorts} ⦃e : Eq τ.Hash⦄ (o : Services τ) (s : Store τ) : Type 0 where
  pub aligned : IsAligned s
  pub sync : InSync o s
  pub listed : IsListed s
  pub hashed : IsHashed s

module _ {τ : Sorts} ⦃e : Eq τ.Hash⦄ where
  -- A hash that no other document owns is recorded for a document that has none.
  pub record_hash-IsHashed :
      (id : String) (h : τ.Hash) (s : Store τ)
      → IsHashed s
      → contains s.doc_set id ≡ true
      → lookup id s.id_hash ≡ none
      → lookup h s.hashes ≡ none
      → IsHashed (record_hash id h s)
  unfolding record_hash
  record_hash-IsHashed id h s v there no_hash no_owner = record {
    owner = λ k j found. ground (
      arith,
      lookup-insert h k id s.hashes,
      lookup-insert id j h s.id_hash,
      e.beq_iff h k,
      eq_iff id j,
      v.owner k j,
    );
    hash = λ j k found. ground (
      arith,
      lookup-insert h k id s.hashes,
      lookup-insert id j h s.id_hash,
      e.beq_iff h k,
      eq_iff id j,
      v.hash j k,
    );
    known = λ j k found. ground (arith, lookup-insert id j h s.id_hash, eq_iff id j, v.known j k);
  }

  pub forget_hash-gone : (id : String) (s : Store τ) → lookup id (forget_hash id s).id_hash ≡ none
  unfolding forget_hash
  forget_hash-gone id s = ground (arith, lookup-delete id id s.id_hash, eq_iff id id)

  -- what is left of the owners
  pub forget_hash-owner :
      (id : String) (s : Store τ) (h : τ.Hash)
      → lookup h s.hashes ≡ none
      → lookup h (forget_hash id s).hashes ≡ none
  unfolding forget_hash
  forget_hash-owner id s h free = elim (Option-cases (lookup id s.id_hash)) [
    | inl missing ↦ ground arith
    | inr (g, had) ↦ ground (arith, lookup-delete g h s.hashes)
  ]

  forget_hash-IsHashed :
      (id : String) (s : Store τ)
      → ((h : τ.Hash) (j : String) → lookup h s.hashes ≡ some j → lookup j s.id_hash ≡ some h)
      → ((j : String) (h : τ.Hash) → lookup j s.id_hash ≡ some h → lookup h s.hashes ≡ some j)
      → ((j : String) (h : τ.Hash)
          → str_eq j id ≡ false
          → lookup j s.id_hash ≡ some h
          → contains s.doc_set j ≡ true)
      → IsHashed (forget_hash id s)
  unfolding forget_hash
  forget_hash-IsHashed id s owner hash known = elim (Option-cases (lookup id s.id_hash)) [
    | inl missing ↦ record {
      owner = λ h j found. ground (arith, owner h j);
      hash = λ j h found. ground (arith, hash j h);
      known = λ j h found. ground (arith, known j h, eq_iff j id);
    }
    | inr (g, had) ↦ record {
      owner = λ h j found. ground (
        arith,
        lookup-delete g h s.hashes,
        lookup-delete id j s.id_hash,
        e.beq_iff g h,
        eq_iff id j,
        owner h j,
        hash j h,
      );
      hash = λ j h found. ground (
        arith,
        lookup-delete g h s.hashes,
        lookup-delete id j s.id_hash,
        e.beq_iff g h,
        eq_iff id j,
        owner h j,
        hash j h,
        hash id g had,
      );
      known = λ j h found.
          ground (arith, lookup-delete id j s.id_hash, eq_iff id j, eq_iff j id, known j h);
    }
  ]

  -- removeDocLocked keeps the invariants but that of the indexes, and clears the document's hash.
  pub remove_doc-IsHashed : (id : String) (s : Store τ) → IsHashed s → IsHashed (remove_doc id s).0
  unfolding remove_doc
  remove_doc-IsHashed id s v =
      forget_hash-IsHashed id _ v.owner v.hash
        (λ j h other found. ground (arith, contains-without id j s.doc_set, v.known j h))

  pub remove_doc-IsListed : (id : String) (s : Store τ) → IsListed s → IsListed (remove_doc id s).0
  unfolding remove_doc forget_hash
  remove_doc-IsListed id s h = without-IsListed id s h

  pub remove_doc-IsAligned :
      (id : String) (s : Store τ) → IsAligned s → IsAligned (remove_doc id s).0
  unfolding remove_doc forget_hash
  remove_doc-IsAligned id s a = length-others_embeds id s.chunks s.embeds a

  -- a document that has a chunk leaves the indexes marked for a rebuild
  pub remove_doc-stale :
      (id : String) (s : Store τ)
      → any (is_of id) s.chunks ≡ true
      → (remove_doc id s).0.needs_rebuild ≡ true
  unfolding remove_doc forget_hash
  remove_doc-stale id s h = ground (arith, others-lt id s.chunks)

  pub append_to_arrays-IsHashed :
      (o : Services τ) (cs : List Chunk) (vs : List τ.Vec) (s : Store τ)
      → IsHashed s
      → IsHashed (append_to_arrays o cs vs s)
  unfolding append_to_arrays
  append_to_arrays-IsHashed o cs vs s v = record {
    owner = v.owner;
    hash = v.hash;
    known = λ j h found. ground (arith, v.known j h, contains-docs cs s.doc_set j);
  }
