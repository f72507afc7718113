-- ===== src/Rag/Ingest/Run.antt =====
-- Ingest of rag/ingest.go as the steps of its goroutines: the workers, the channel of results, and
-- the loop that installs the documents. The channel of documents has been filled and closed; what
-- the calls of Save and of the journal's flush come to is part of a step.
use Prim.Native.String.{String}
use turbograph.Prelude.{
  ℕ, ◌+◌, ◌*◌, Bool, true, false, not, ◌&&◌, ◌||◌, List, [], ◌∷◌, ◌++◌, Option, none, some,
  if◌then◌else◌, length, get_elem?, set, replicate, ltb, leb, ◌==◌, ◌>>=◌,
}
use turbograph.Prelude.Keys.{Eq}
use turbograph.Rag.Store.{Sorts, Store, Services, Document, apply_prepared, reindex_exported}
use turbograph.Rag.Journal.{Json, Journal, mark_done, mark_failed}
use turbograph.Rag.Ingest.Prepare.{
  Sources, Outcome, skipped, failed, done, IngestResult, prepare_for_ingest,
}

-- Progress
pub record Progress : Type 0 where
  pub total : ℕ
  pub done_docs : ℕ
  pub failed_docs : ℕ
  pub skipped_docs : ℕ
  pub chunks : ℕ

-- IngestOptions, without the callbacks, with the number of workers that is used when none is given
pub record IngestOptions : Type 0 where
  pub workers : ℕ
  pub has_save : Bool
  pub checkpoint_every : ℕ

-- a goroutine: it waits for a document, has a result to send, or has returned
pub data Worker (τ : Sorts) : Type 0 where
  idle : Worker τ
  holding : IngestResult τ → Worker τ
  gone : Worker τ

pub data Failure : Type 0 where
  save_failed journal_failed cancellation : Failure

-- `saved` is what the last successful Save has written
pub record Ingestion (τ : Sorts) (json : Json) : Type 0 where
  pub input : List Document
  pub workers : List (Worker τ)
  pub results : List (IngestResult τ)
  pub is_cancelled : Bool
  pub prog : Progress
  pub pending : List String
  pub store : Store τ
  pub saved : Store τ
  pub journal : Option (Journal json)
  pub loop_err : Option Failure
  pub has_ended : Bool

-- what happens next, and whether Save and the flush of the journal succeed
pub data Event : Type 0 where
  take_doc_by send_by leave_by : ℕ → Event
  receive : (saves flushes : Bool) (now : ℕ) → Event
  cancel : Event
  finish : (saves flushes : Bool) → Event

unfoldable pub initial :
    {τ : Sorts} {json : Json}
    → IngestOptions
    → List Document
    → ℕ
    → Store τ
    → Option (Journal json)
    → Ingestion τ json
initial opt docs total s j = record {
  input = docs;
  workers = replicate opt.workers idle;
  results = [];
  is_cancelled = false;
  prog = record { total = total; done_docs = 0; failed_docs = 0; skipped_docs = 0; chunks = 0 };
  pending = [];
  store = s;
  saved = s;
  journal = j;
  loop_err = none;
  has_ended = false;
}

unfoldable pub all_gone : {τ : Sorts} → List (Worker τ) → Bool
all_gone [] = true
all_gone (gone ∷ ws) = all_gone ws
all_gone (idle ∷ ws) = false
all_gone (holding _ ∷ ws) = false

-- `loopErr` after a later error, or none
abbrev pub later_error : Option Failure → Option Failure → Option Failure
later_error old none = old
later_error old (some err) = some err

module _ {τ : Sorts} {json : Json} where
  -- the part of `checkpoint` behind Save
  unfoldable pub checkpoint_journal : Bool → Ingestion τ json → Ingestion τ json × Option Failure
  checkpoint_journal flushes r = elim r.journal [
    | none ↦ (record r { pending = [] }, none)
    | some j ↦
        let m = mark_done json flushes r.pending j in
        if length r.pending == 0
        then (r, none)
        else if m.1
        then (record r { pending = []; journal = some m.0 }, none)
        else (record r { journal = some m.0 }, some journal_failed)
  ]

  unfoldable pub checkpoint :
      IngestOptions → Bool → Bool → Ingestion τ json → Ingestion τ json × Option Failure
  checkpoint opt saves flushes r =
      if not opt.has_save
      then checkpoint_journal flushes r
      else if saves
      then checkpoint_journal flushes (record r { saved = r.store })
      else (r, some save_failed)

  abbrev pub skip_one : Ingestion τ json → Ingestion τ json
  skip_one r = record r { prog = record r.prog { skipped_docs = r.prog.skipped_docs + 1 } }

  -- the checkpoint in the middle of a run, and what becomes of its error
  unfoldable pub after_document : IngestOptions → Bool → Bool → Ingestion τ json → Ingestion τ json
  after_document opt saves flushes r =
      let c = checkpoint opt saves flushes r in
      if opt.has_save && ltb 0 opt.checkpoint_every && leb opt.checkpoint_every (length r.pending)
      then record c.0 { loop_err = later_error c.0.loop_err c.1 }
      else r

  module _ ⦃e : Eq τ.Hash⦄ (o : Services τ) (src : Sources τ) (opt : IngestOptions) where
    -- the body of the loop over the results
    unfoldable pub install :
        Bool → Bool → ℕ → String → Outcome τ → Ingestion τ json → Ingestion τ json
    install saves flushes now id skipped r = skip_one r
    install saves flushes now id (failed err) r = record r {
      prog = record r.prog { failed_docs = r.prog.failed_docs + 1 };
      journal = elim r.journal [
        | none ↦ none
        | some j ↦ some (mark_failed json flushes id (src.error_text err) j).0
      ];
    }
    install saves flushes now id (done p) r =
        let a = apply_prepared o now p r.store in
        let r' : Ingestion τ json = record r { store = a.0 } in
        if not a.1
        then skip_one r'
        else after_document opt saves flushes (record r' {
          prog = record r.prog {
            done_docs = r.prog.done_docs + 1;
            chunks = r.prog.chunks + length p.chunks;
          };
          pending = r.pending ++ id ∷ [];
        })

    unfoldable pub take_doc :
        ℕ → Worker τ → List Document → Ingestion τ json → Option (Ingestion τ json)
    take_doc w idle (d ∷ ds) r = some (record r {
      input = ds;
      workers = set r.workers w (holding (prepare_for_ingest o src d r.store r.journal));
    })
    take_doc w _ _ r = none

    -- the channel has room for two results of each worker
    unfoldable pub send_result : ℕ → Worker τ → Ingestion τ json → Option (Ingestion τ json)
    send_result w (holding x) r =
        if ltb (length r.results) (opt.workers * 2)
        then some (record r { workers = set r.workers w idle; results = r.results ++ x ∷ [] })
        else none
    send_result w _ r = none

    unfoldable pub leave_loop : ℕ → Worker τ → Ingestion τ json → Option (Ingestion τ json)
    leave_loop w idle r =
        if r.is_cancelled || length r.input == 0
        then some (record r { workers = set r.workers w gone })
        else none
    leave_loop w _ r = none

    unfoldable pub receive_result :
        Bool → Bool → ℕ → List (IngestResult τ) → Ingestion τ json → Option (Ingestion τ json)
    receive_result saves flushes now [] r = none
    receive_result saves flushes now (x ∷ xs) r =
        some (install saves flushes now x.id x.outcome (record r { results = xs }))

    -- the final checkpoint, and the rebuild of the graph
    unfoldable pub finish_run : Bool → Bool → Ingestion τ json → Ingestion τ json
    finish_run saves flushes r =
        let c = checkpoint opt saves flushes r in
        record c.0 {
          loop_err = elim c.0.loop_err [ none ↦ c.1 | some err ↦ some err ];
          store = reindex_exported o c.0.store;
          has_ended = true;
        }

    -- the channel of results is closed when the workers have returned
    unfoldable pub step : Event → Ingestion τ json → Option (Ingestion τ json)
    step (take_doc_by w) r = get_elem? r.workers w >>= λ x. take_doc w x r.input r
    step (send_by w) r = get_elem? r.workers w >>= λ x. send_result w x r
    step (leave_by w) r = get_elem? r.workers w >>= λ x. leave_loop w x r
    step (receive saves flushes now) r = receive_result saves flushes now r.results r
    step cancel r =
        if r.is_cancelled || r.has_ended then none else some (record r { is_cancelled = true })
    step (finish saves flushes) r =
        if not r.has_ended && length r.results == 0 && all_gone r.workers
        then some (finish_run saves flushes r)
        else none

    unfoldable pub run : List Event → Ingestion τ json → Option (Ingestion τ json)
    run [] r = some r
    run (ev ∷ evs) r = step ev r >>= run evs

-- what Ingest returns beside the progress
unfoldable pub outcome_error : {τ : Sorts} {json : Json} → Ingestion τ json → Option Failure
outcome_error r = if r.is_cancelled then some cancellation else r.loop_err
