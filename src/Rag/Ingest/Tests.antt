-- ===== src/Rag/Ingest/Tests.antt =====
-- A run of Ingest with one worker over two documents, the second of which cannot be embedded.
use Prim.Native.String.{String}
use text.Mathlib.Text.{◌==◌ as str_eq}
use text.Mathlib.TextEquality.{eq_iff}
use turbograph.Rag.Chunk.{index_text}
use turbograph.Prelude.{
  ◌+◌, ◌*◌, ◌≤◌, ◌≡◌, refl, ◌⊎◌, true, false, List, [], ◌∷◌, none, some, arith, if◌then◌else◌,
}
use turbograph.Prelude.Keys.{string_key}
use turbograph.Prelude.Assoc.{has, lookup, insert, contains}
use turbograph.Rag.Store.{
  Document, prepare_index, init_indexes, apply_prepared, add_doc, append_to_arrays, append_chunks,
  record_doc, record_hash, record_version, record_meta, last_is, reindex_exported, ensure_graph,
  ensure_search, reindex, extend_graph, rebuild_graph,
}
use turbograph.Rag.Store.Sound.{IsSound}
use turbograph.Rag.Store.Tests.{plain_sorts, lists, lists_laws, empty, empty-IsSound, chunk}
use turbograph.Rag.Journal.{
  is_done, mark_done, mark_each, mark_one, mark_failed, flush, open_journal, replay,
}
use turbograph.Rag.Journal.Tests.{entries, opened}
use turbograph.Rag.Ingest.{
  Sources, collect_embeddings, doc_embeddings, reused, missing_texts, fill_vecs, prepare_doc,
  prepare_for_ingest, journal_done, IngestOptions, Ingestion, Event, take_doc_by, send_by, leave_by,
  receive, finish, initial, checkpoint_journal, checkpoint, after_document, install, take_doc,
  send_result, leave_loop, receive_result, finish_run, all_gone, step, run,
}
use turbograph.Rag.Ingest.Live.{Ends, ingest-Ends}
use turbograph.Rag.Ingest.Safe.{ingest_safe}
use turbograph.Rag.Ingest.Counted.{accounted, ingest_accounts}

abbrev sources : Sources plain_sorts
sources = record {
  chunked = λ d. chunk d.id d.text ∷ [];
  meta_of = λ _. none;
  embed = λ texts. elim texts [
    | [] ↦ some []
    | t ∷ _ ↦ if str_eq t "bad" then none else some ((1 ∷ 2 ∷ []) ∷ [])
  ];
  nil_vec = [];
  error_text = λ _. "embedding failed";
}

abbrev options : IngestOptions
options = record { workers = 1; has_save = true; checkpoint_every = 1 }

abbrev docs : List Document
docs = record { id = "x"; text = "good" } ∷ record { id = "y"; text = "bad" } ∷ []

abbrev begun : Ingestion plain_sorts entries
begun = initial options docs 2 empty (some opened)

abbrev turns : List Event
turns =
    take_doc_by 0
    ∷ send_by 0
    ∷ take_doc_by 0
    ∷ receive true true 7
    ∷ send_by 0
    ∷ leave_by 0
    ∷ receive true true 8
    ∷ finish true true
    ∷ []

abbrev over : Ingestion plain_sorts entries
over = elim (run lists sources options turns begun) [ none ↦ begun | some q ↦ q ]

over_lem :
    (run lists sources options turns begun ≡ some over)
    × (over.has_ended ≡ true)
    × (over.prog.done_docs ≡ 1)
    × (over.prog.failed_docs ≡ 1)
    × (has "x" over.saved.id_hash ≡ true)
    × (journal_done "x" over.journal ≡ true)
unfolding run step initial take_doc send_result leave_loop receive_result finish_run all_gone
    install after_document checkpoint checkpoint_journal prepare_for_ingest prepare_doc fill_vecs
    missing_texts reused doc_embeddings collect_embeddings is_done mark_done mark_each mark_one
    mark_failed flush open_journal replay lookup insert contains prepare_index init_indexes
    apply_prepared add_doc append_to_arrays append_chunks record_doc record_hash record_version
    record_meta last_is reindex_exported ensure_graph ensure_search reindex extend_graph
    rebuild_graph index_text
over_lem = (refl, refl, refl, refl, refl, refl)

ingest-Ends_example : (8 ≤ 2 * 4 + 1 + 2) × Ends lists sources options over
ingest-Ends_example =
    ingest-Ends lists sources options docs 2 empty (some opened) turns (omega arith) over_lem.0

ingest_safe_example :
    ((id : String)
      → journal_done id over.journal ≡ true
      → (journal_done id (some opened) ≡ true) ⊎ (has id over.saved.id_hash ≡ true))
    × IsSound lists over.store
ingest_safe_example =
    ingest_safe lists lists_laws sources (λ d. ((eq_iff d.id d.id).1 refl, tt)) options refl
      (some opened) docs 2 empty turns empty-IsSound over_lem.0

ingest_accounts_example :
    (accounted over.prog ≤ 2)
    × (over.has_ended ≡ true → over.is_cancelled ≡ false → accounted over.prog ≡ 2)
ingest_accounts_example =
    ingest_accounts lists sources options docs 2 empty (some opened) turns (omega arith) over_lem.0
