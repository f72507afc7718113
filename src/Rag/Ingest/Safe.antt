-- ===== src/Rag/Ingest/Safe.antt =====
-- What Ingest promises across a crash: a document that the journal calls done has been saved.
use Prim.Native.String.{String}
use turbograph.Prelude.{
  ℕ, zero, suc, ◌*◌, ◌≡◌, inl, inr, ◌⊎◌, Bool, true, not, ◌&&◌, ◌||◌, List, [], ◌∷◌, Option, some,
  length, get_elem?, replicate, ◌==◌, ltb, Bool-cases, All, All-append, OnSome, bind-OnSome,
  if-OnSome, OnSome-eq,
}
use turbograph.Prelude.Keys.{Eq, string_key}
use turbograph.Prelude.Assoc.{has, contains}
use turbograph.Rag.Store.{Sorts, Store, Services, IndexLaws, Document}
use turbograph.Rag.Store.Sound.{IsSound}
use turbograph.Rag.Store.Reindexed.{reindex_exported-IsSound}
use turbograph.Rag.Journal.{Json, Journal}
use turbograph.Rag.Ingest.{
  initial, Sources, IngestResult, journal_done, IngestOptions, Worker, idle, holding, gone,
  Ingestion, Event, take_doc_by, send_by, leave_by, receive, cancel, finish, checkpoint, take_doc,
  send_result, leave_loop, receive_result, finish_run, step, run, all_gone,
}
use turbograph.Rag.Ingest.Recorded.{IsGood, KeepsOwn, prepare_for_ingest-IsGood}
use turbograph.Rag.Ingest.Noted.{
  IsGoodWorker, All-set, All-get, IsSafe, checkpoint-IsSafe, install-IsSafe,
}

module _ {τ : Sorts} {json : Json} ⦃e : Eq τ.Hash⦄ (o : Services τ) (laws : IndexLaws o)
    (src : Sources τ) (own : KeepsOwn src) (opt : IngestOptions) (saving : opt.has_save ≡ true)
    (j0 : Option (Journal json)) where
  abbrev IsKept : Ingestion τ json → Type 0
  IsKept = IsSafe o laws src own opt saving j0

  module _ (r : Ingestion τ json) (v : IsKept r) where
    take_doc-IsSafe :
        (w : ℕ) (x : Worker τ) (ds : List Document) → OnSome IsKept (take_doc o src opt w x ds r)
    unfolding take_doc
    take_doc-IsSafe w idle (d ∷ ds) = record {
      holders =
          All-set IsGoodWorker r.workers w _
            (prepare_for_ingest-IsGood o src own d r.store r.journal) v.holders;
      results = v.results;
      sound = v.sound;
      pending = v.pending;
      kept = v.kept;
      recorded = v.recorded;
    }
    take_doc-IsSafe w idle [] = tt
    take_doc-IsSafe w (holding x) ds = tt
    take_doc-IsSafe w gone ds = tt

    send_result-IsSafe :
        (w : ℕ) (x : Worker τ)
        → get_elem? r.workers w ≡ some x
        → OnSome IsKept (send_result o src opt w x r)
    unfolding send_result
    send_result-IsSafe w (holding x) there =
        if-OnSome IsKept (ltb (length r.results) (opt.workers * 2)) _ λ room. record {
          holders = All-set IsGoodWorker r.workers w idle tt v.holders;
          results =
              All-append IsGood r.results (x ∷ []) v.results
                (All-get IsGoodWorker r.workers w v.holders there, tt);
          sound = v.sound;
          pending = v.pending;
          kept = v.kept;
          recorded = v.recorded;
        }
    send_result-IsSafe w idle there = tt
    send_result-IsSafe w gone there = tt

    leave_loop-IsSafe : (w : ℕ) (x : Worker τ) → OnSome IsKept (leave_loop o src opt w x r)
    unfolding leave_loop
    leave_loop-IsSafe w idle = if-OnSome IsKept (r.is_cancelled || length r.input == 0) _ λ ended.
        record {
          holders = All-set IsGoodWorker r.workers w gone tt v.holders;
          results = v.results;
          sound = v.sound;
          pending = v.pending;
          kept = v.kept;
          recorded = v.recorded;
        }
    leave_loop-IsSafe w (holding x) = tt
    leave_loop-IsSafe w gone = tt

    receive_result-IsSafe :
        (saves flushes : Bool) (now : ℕ) (xs : List (IngestResult τ))
        → All IsGood xs
        → OnSome IsKept (receive_result o src opt saves flushes now xs r)
    unfolding receive_result
    receive_result-IsSafe saves flushes now [] good = tt
    receive_result-IsSafe saves flushes now (x ∷ xs) good =
        install-IsSafe o laws src own opt saving j0 saves flushes now x.id x.outcome
          (record r { results = xs }) good.0
          (record {
            holders = v.holders;
            results = good.1;
            sound = v.sound;
            pending = v.pending;
            kept = v.kept;
            recorded = v.recorded;
          })

    finish_run-IsSafe : (saves flushes : Bool) → IsKept (finish_run o src opt saves flushes r)
    unfolding finish_run
    finish_run-IsSafe saves flushes =
        let c = checkpoint opt saves flushes r in
        let w = checkpoint-IsSafe o laws src own opt saving j0 saves flushes r v in
        let (sound, same) = reindex_exported-IsSound o laws c.0.store w.sound in
        record {
          holders = w.holders;
          results = w.results;
          sound = sound;
          pending = λ id h. rw same (w.pending id h);
          kept = λ id h. rw same (w.kept id h);
          recorded = w.recorded;
        }

    step-IsSafe : (ev : Event) → OnSome IsKept (step o src opt ev r)
    unfolding step
    step-IsSafe (take_doc_by w) =
        bind-OnSome IsKept (get_elem? r.workers w) _ (λ x there. take_doc-IsSafe w x r.input)
    step-IsSafe (send_by w) = bind-OnSome IsKept (get_elem? r.workers w) _ (send_result-IsSafe w)
    step-IsSafe (leave_by w) =
        bind-OnSome IsKept (get_elem? r.workers w) _ (λ x there. leave_loop-IsSafe w x)
    step-IsSafe (receive saves flushes now) =
        receive_result-IsSafe saves flushes now r.results v.results
    step-IsSafe cancel = elim (Bool-cases (r.is_cancelled || r.has_ended)) [
      | inl not_now ↦ rw not_now tt
      | inr now ↦ rw now (record {
        holders = v.holders;
        results = v.results;
        sound = v.sound;
        pending = v.pending;
        kept = v.kept;
        recorded = v.recorded;
      })
    ]
    step-IsSafe (finish saves flushes) =
        if-OnSome IsKept (not r.has_ended && length r.results == 0 && all_gone r.workers) _
          (λ h. finish_run-IsSafe saves flushes)

  run-IsSafe :
      (evs : List Event) (r : Ingestion τ json) → IsKept r → OnSome IsKept (run o src opt evs r)
  unfolding run
  run-IsSafe [] r v = v
  run-IsSafe (ev ∷ evs) r v =
      bind-OnSome IsKept (step o src opt ev r) _
        (λ q taken. run-IsSafe evs q (OnSome-eq IsKept _ (step-IsSafe r v ev) taken))

  All-idle : (n : ℕ) → All IsGoodWorker (replicate {A = Worker τ} n idle)
  All-idle zero = tt
  All-idle (suc n) = (tt, All-idle n)

  initial-IsSafe :
      (docs : List Document) (total : ℕ) (s : Store τ)
      → IsSound o s
      → IsKept (initial opt docs total s j0)
  unfolding initial contains
  initial-IsSafe docs total s v = record {
    holders = All-idle opt.workers;
    results = tt;
    sound = v;
    pending = λ id h. absurd (cc);
    kept = λ id h. h;
    recorded = λ id h. inl h;
  }

  -- Wherever an ingestion that saves stands, a document that its journal calls done was done when
  -- it began or is in what the last successful Save has written, and the store keeps its
  -- invariant, however the goroutines take turns and whatever fails. The store begins with its
  -- invariant, its indexes keep their laws, and the chunker gives chunks of their document.
  pub ingest_safe :
      (docs : List Document) (total : ℕ) (s : Store τ) (evs : List Event) {q : Ingestion τ json}
      → IsSound o s
      → run o src opt evs (initial opt docs total s j0) ≡ some q
      → ((id : String)
          → journal_done id q.journal ≡ true
          → (journal_done id j0 ≡ true) ⊎ (has id q.saved.id_hash ≡ true))
        × IsSound o q.store
  ingest_safe docs total s evs v h =
      let safe = OnSome-eq IsKept _ (run-IsSafe evs _ (initial-IsSafe docs total s v)) h in
      (safe.recorded, safe.sound)
