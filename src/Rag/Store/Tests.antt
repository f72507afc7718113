-- ===== src/Rag/Store/Tests.antt =====
-- A store with indexes that are lists, and runs of its operations.
use Prim.Native.String.{String}
use text.Mathlib.Text.{◌==◌ as str_eq}
use turbograph.Rag.Store.Exported.{IsSameDocs}
use mathlib.Core.Option.{some-injective}
use turbograph.Rag.Store.Even.{HandsOutEven, AreEven}
use turbograph.Prelude.{
  if_cases, ℕ, ◌+◌, ◌≡◌, refl, inl, inr, true, false, List, [], ◌∷◌, ◌++◌, Option, none, some,
  if◌then◌else◌, length, ◌==◌, arith, subst,
}
use turbograph.Prelude.Assoc.{lookup, insert, contains, delete}
use turbograph.Prelude.Keys.{string_key}
use turbograph.Entity.{Graph, new_graph, add}
use turbograph.Entity.Valid.{IsValid}
use turbograph.Entity.Add.{add-IsValid}
use turbograph.Entity.Tests.{flat, letter, flat-IsOrder, society, society-IsValid}
use turbograph.Rag.Chunk.{Chunk, index_text}
use turbograph.Rag.Store.{
  Sorts, Store, Services, IndexLaws, Prepared, Document, ids_of, chunk_ids, chunks_of, others,
  apply_prepared, add_prepared, delete_document, new_documents, init_indexes, add_all,
  rebuild_lexical, rebuild_indexes, views, share_vectors, restored, restore_hnsw_locked,
  build_search, settle, ensure_search, rebuild_graph, extend_graph, reindex, append_to_arrays,
  append_chunks, others_embeds, without, record_hash, last_is, record_version, record_meta,
  drop_entity_chunks, forget_hash, remove_doc, prune_extract_cache, record_doc, replace_doc,
  add_doc, prepare_index, apply_all,
}
use turbograph.Rag.Store.Sound.{IsSound}
use turbograph.Rag.Store.Listed.{IsPrepared}
use turbograph.Rag.Store.Batch.{apply_prepared-IsSound}
use turbograph.Rag.Store.Exported.{IsSettled, delete_document-IsSettled, add_prepared-IsSettled}
use turbograph.Rag.Store.Forget.{
  IsForgotten, IsUncited, IsLive, delete_document_forgets, delete_document_uncites,
}
use turbograph.Rag.Store.Refuse.{IsDistinct, apply_prepared_refuses, new_documents-IsDistinct}

abbrev pub plain_sorts : Sorts
plain_sorts = record {
  Hash = String;
  Meta = String;
  Hnsw = List (String × (ℕ × ℕ));
  Bm25 = List String;
  Links = ℕ;
  Vec = List ℕ;
  Block = List (List ℕ);
}

-- the index has the dimension 2
abbrev pub point : List ℕ → ℕ × ℕ
point (a ∷ b ∷ _) = (a, b)
point (a ∷ []) = (a, 0)
point [] = (0, 0)

abbrev pub coordinates : List (String × (ℕ × ℕ)) → List (String × List ℕ)
coordinates [] = []
coordinates ((id, (a, b)) ∷ x) = (id, a ∷ b ∷ []) ∷ coordinates x

abbrev pub zip : List String → List (List ℕ) → List (String × (ℕ × ℕ))
zip (x ∷ xs) (v ∷ vs) = (x, point v) ∷ zip xs vs
zip (x ∷ xs) [] = []
zip [] vs = []

abbrev pub rows : List String → List (List ℕ) → Option (List (String × (ℕ × ℕ)))
rows ids vs = if length vs == length ids then some (zip ids vs) else none

abbrev pub total : List (List ℕ) → ℕ
total [] = 0
total (v ∷ vs) = length v + total vs

abbrev pub lists : Services plain_sorts
lists = record {
  sha256 = λ text. text;
  fingerprint = "lists";
  new_hnsw = λ _. [];
  hnsw_add = λ x id v. x ++ (id, point v) ∷ [];
  vectors = coordinates;
  adopt_flat = λ _ ids b _. rows ids b;
  restore_hnsw = λ _ ids vs _. rows ids vs;
  levels = λ l. l;
  nil_block = [];
  block_len = total;
  dim_of = length;
  new_bm25 = [];
  bm25_add = λ y id _. y ++ id ∷ [];
  add_batch = λ y ids _. y ++ ids;
  indexed = λ y. y;
}

ids-zip :
    (ids : List String) (vs : List (List ℕ))
    → length vs ≡ length ids
    → ids_of (coordinates (zip ids vs)) ≡ ids
ids-zip [] vs h = refl
ids-zip (x ∷ ids) [] h = absurd (omega arith)
ids-zip (x ∷ ids) (v ∷ vs) h = rw (ids-zip ids vs (omega arith)) refl

ids-append :
    (x : List (String × (ℕ × ℕ))) (id : String) (v : List ℕ)
    → ids_of (coordinates (x ++ (id, point v) ∷ [])) ≡ ids_of (coordinates x) ++ id ∷ []
ids-append [] id v = refl
ids-append (p ∷ x) id v = rw (ids-append x id v) refl

ids-rows :
    (ids : List String) (vs : List (List ℕ)) (x : List (String × (ℕ × ℕ)))
    → rows ids vs ≡ some x
    → ids_of (coordinates x) ≡ ids
ids-rows ids vs x h =
    if_cases (λ o. o ≡ some x → ids_of (coordinates x) ≡ ids) (length vs == length ids)
      (λ same e.
        subst (λ y. ids_of (coordinates y) ≡ ids) (some-injective (zip ids vs) x e)
          (ids-zip ids vs (ground arith)))
      (λ _ e. absurd (ground arith)) h

lists-HandsOutEven : HandsOutEven lists 2
lists-HandsOutEven [] = tt
lists-HandsOutEven (p ∷ x) = (refl, lists-HandsOutEven x)

pub lists_laws : IndexLaws lists
lists_laws = record {
  vectors-new = λ _. refl;
  vectors-add = ids-append;
  vectors-adopt = λ _ ids b _ x h. ids-rows ids b x h;
  vectors-restore = λ _ ids vs _ x h. ids-rows ids vs x h;
  indexed-new = refl;
  indexed-add = λ _ _ _. refl;
  indexed-add_batch = λ _ _ _ _. refl;
}

abbrev pub empty : Store plain_sorts
empty = record {
  dim = 0;
  encoder = "";
  hnsw = none;
  bm25 = [];
  chunks = [];
  embeds = [];
  doc_set = [];
  hashes = [];
  id_hash = [];
  versions = [];
  doc_meta = [];
  comm_summary = [];
  indexed_up_to = 0;
  needs_rebuild = false;
  defer_index = false;
  defer_graph = false;
  saved_hnsw = none;
  flat = [];
  graph_nodes = none;
  eg = some new_graph;
  extract_cache = [];
}

pub empty-IsSound : IsSound lists empty
unfolding contains lookup
empty-IsSound = record {
  aligned = refl;
  sync = inr (inr (inl (refl, refl)));
  listed = λ _. refl;
  hashed = record {
    owner = λ _ _ h. ground arith;
    hash = λ _ _ h. ground arith;
    known = λ _ _ h. ground arith;
  };
}

empty-IsSettled : IsSettled lists empty
empty-IsSettled = (empty-IsSound, λ _. inl (refl, refl))

abbrev pub chunk : String → String → Chunk
chunk doc text = record {
  id = text;
  doc_id = doc;
  pos = 0;
  text = text;
  span = none;
  kind = "";
  image_ref = "";
  context = "";
}

abbrev report : Prepared plain_sorts
report = record {
  id = "report";
  hash = "ab";
  text = "ab";
  meta = some "{}";
  chunks = chunk "report" "a" ∷ chunk "report" "b" ∷ [];
  vecs = (1 ∷ 2 ∷ []) ∷ (3 ∷ 4 ∷ []) ∷ [];
}

-- a second version of it
abbrev revised : Prepared plain_sorts
revised = record {
  id = "report";
  hash = "c";
  text = "c";
  meta = none;
  chunks = chunk "report" "c" ∷ [];
  vecs = (5 ∷ 6 ∷ []) ∷ [];
}

abbrev copy : Prepared plain_sorts
copy = record report { id = "copy" }

report-IsPrepared : IsPrepared report
report-IsPrepared = record { same = refl; own = (refl, (refl, tt)) }

revised-IsPrepared : IsPrepared revised
revised-IsPrepared = record { same = refl; own = (refl, tt) }

abbrev one : Store plain_sorts
one = add_prepared lists 7 (report ∷ []) empty

one-IsSettled : IsSettled lists one
one-IsSettled =
    (add_prepared-IsSettled lists lists_laws 7 2 (report ∷ []) empty (report-IsPrepared, tt)
      lists-HandsOutEven ((refl, (refl, tt)), tt) tt empty-IsSettled).0

apply_prepared-IsSound_example : IsSound lists (apply_prepared lists 8 revised one).0
apply_prepared-IsSound_example =
    apply_prepared-IsSound lists lists_laws 8 revised one revised-IsPrepared one-IsSettled.0

add_prepared-IsSettled_example :
    IsSettled lists (add_prepared lists 7 (report ∷ revised ∷ []) empty)
    × AreEven lists 2 (add_prepared lists 7 (report ∷ revised ∷ []) empty).embeds
add_prepared-IsSettled_example =
    add_prepared-IsSettled lists lists_laws 7 2 (report ∷ revised ∷ []) empty
      (report-IsPrepared, (revised-IsPrepared, tt)) lists-HandsOutEven
      ((refl, (refl, tt)), ((refl, tt), tt)) tt empty-IsSettled

delete_document-IsSettled_example : IsSettled lists (delete_document lists "report" one).0
delete_document-IsSettled_example =
    delete_document-IsSettled lists lists_laws "report" one one-IsSettled

delete_document_forgets_example :
    IsForgotten lists "report" one (delete_document lists "report" one)
delete_document_forgets_example = delete_document_forgets lists "report" one

-- the same store, with the entities of the letter read from chunk "a"
abbrev cited : Store plain_sorts
cited = record one { eg = some (add flat society "a" letter) }

cited-IsValid : (g : Graph) → cited.eg ≡ some g → IsValid flat g
cited-IsValid g h =
    subst (IsValid flat) (ground arith)
      (add-IsValid flat society "a" letter flat-IsOrder society-IsValid).0

two_chunks : (length (chunks_of "report" cited.chunks) == 0) ≡ false
unfolding init_indexes add_all rebuild_lexical rebuild_indexes views share_vectors restored
    restore_hnsw_locked build_search settle ensure_search rebuild_graph extend_graph reindex
    append_to_arrays append_chunks chunks_of others others_embeds without record_hash last_is
    record_version record_meta drop_entity_chunks forget_hash remove_doc prune_extract_cache
    record_doc replace_doc add_doc prepare_index apply_prepared apply_all add_prepared new_documents
    lookup insert contains delete index_text
two_chunks = refl

first_chunk : contains (chunk_ids (chunks_of "report" cited.chunks)) "a" ≡ true
unfolding init_indexes add_all rebuild_lexical rebuild_indexes views share_vectors restored
    restore_hnsw_locked build_search settle ensure_search rebuild_graph extend_graph reindex
    append_to_arrays append_chunks chunks_of others others_embeds without record_hash last_is
    record_version record_meta drop_entity_chunks forget_hash remove_doc prune_extract_cache
    record_doc replace_doc add_doc prepare_index apply_prepared apply_all add_prepared new_documents
    lookup insert contains delete index_text
first_chunk = refl

delete_document_uncites_example :
    IsUncited "a" (delete_document lists "report" cited).0.eg
    × IsLive lists (delete_document lists "report" cited).0
delete_document_uncites_example =
    delete_document_uncites lists flat "report" "a" cited cited-IsValid two_chunks first_chunk

one_owner : lookup "ab" one.hashes ≡ some "report"
unfolding init_indexes add_all rebuild_lexical rebuild_indexes views share_vectors restored
    restore_hnsw_locked build_search settle ensure_search rebuild_graph extend_graph reindex
    append_to_arrays append_chunks chunks_of others others_embeds without record_hash last_is
    record_version record_meta drop_entity_chunks forget_hash remove_doc prune_extract_cache
    record_doc replace_doc add_doc prepare_index apply_prepared apply_all add_prepared new_documents
    lookup insert contains delete index_text
one_owner = refl

apply_prepared_refuses_example :
    ((apply_prepared lists 8 copy one).1 ≡ false
      → IsSameDocs one (apply_prepared lists 8 copy one).0)
    × ((owner : String)
        → lookup copy.hash one.hashes ≡ some owner
        → str_eq owner copy.id ≡ false
        → (apply_prepared lists 8 copy one).1 ≡ false)
apply_prepared_refuses_example = apply_prepared_refuses lists 8 copy one

copy_refused : (apply_prepared lists 8 copy one).1 ≡ false
copy_refused = (apply_prepared_refuses lists 8 copy one).1 "report" one_owner refl

abbrev twice : List Document
twice = record { id = "x"; text = "t" } ∷ record { id = "y"; text = "t" } ∷ []

new_documents-IsDistinct_example : IsDistinct lists one [] [] (new_documents lists one [] [] twice)
new_documents-IsDistinct_example = new_documents-IsDistinct lists one [] [] twice
