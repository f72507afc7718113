-- ===== src/Rag/Ingest/Counted.antt =====
-- Ingest accounts for every document that it is offered.
use Prim.Native.String.{String}
use turbograph.Prelude.{
  ℕ, suc, ◌+◌, ◌*◌, ◌≤◌, ◌<◌, ◌≡◌, refl, sym, ap, ◌∙◌, inl, inr, Bool, true, false, not, ◌&&◌, ◌||◌,
  List, [], ◌∷◌, ◌++◌, Option, some, arith, length, get_elem?, ◌==◌, ltb, Bool-cases, if_cases,
  length-append, length-set, length-replicate, OnSome, bind-OnSome, if-OnSome, OnSome-eq,
}
use turbograph.Prelude.Keys.{Eq}
use turbograph.Prelude.Sorting.{sum_by}
use turbograph.Rag.Store.{Sorts, Store, Services, Document, apply_prepared}
use turbograph.Rag.Journal.{Json, Journal}
use turbograph.Rag.Ingest.{
  initial, Sources, Progress, Outcome, skipped, failed, done, IngestResult, prepare_for_ingest,
  IngestOptions, Worker, idle, holding, gone, Ingestion, Event, take_doc_by, send_by, leave_by,
  receive, cancel, finish, checkpoint_journal, checkpoint, after_document, install, take_doc,
  send_result, leave_loop, receive_result, finish_run, step, run, all_gone,
}
use turbograph.Rag.Ingest.Live.{checkpoint-Frame, install-Frame, sum_by-set}
use turbograph.Rag.Ingest.Gone.{
  held, any_gone, is_gone, any_gone-set, all_gone-get, all_gone-held, all_gone-any, nothing_held,
  none_gone,
}

abbrev pub accounted : Progress → ℕ
accounted p = p.done_docs + p.failed_docs + p.skipped_docs

module _ {τ : Sorts} {json : Json} where
  abbrev offered : Ingestion τ json → ℕ
  offered r = length r.input + sum_by held r.workers + length r.results + accounted r.prog

  record IsCounted (n : ℕ) (opt : IngestOptions) (r : Ingestion τ json) : Type 0 where
    all : offered r ≡ n
    size : length r.workers ≡ opt.workers
    left : any_gone r.workers ≡ true → (r.is_cancelled || length r.input == 0) ≡ true
    ended : r.has_ended ≡ true → (all_gone r.workers ≡ true) × (length r.results ≡ 0)

  checkpoint_journal-prog :
      (flushes : Bool) (r : Ingestion τ json) → (checkpoint_journal flushes r).0.prog ≡ r.prog
  unfolding checkpoint_journal
  checkpoint_journal-prog flushes r = ground arith

  checkpoint-prog :
      (opt : IngestOptions) (saves flushes : Bool) (r : Ingestion τ json)
      → (checkpoint opt saves flushes r).0.prog ≡ r.prog
  unfolding checkpoint
  checkpoint-prog opt saves flushes r = ground (
    arith,
    checkpoint_journal-prog flushes r,
    checkpoint_journal-prog flushes (record r { saved = r.store }),
  )

  after_document-prog :
      (opt : IngestOptions) (saves flushes : Bool) (r : Ingestion τ json)
      → (after_document opt saves flushes r).prog ≡ r.prog
  unfolding after_document
  after_document-prog opt saves flushes r = ground (arith, checkpoint-prog opt saves flushes r)

  module _ ⦃e : Eq τ.Hash⦄ (o : Services τ) (src : Sources τ) (opt : IngestOptions) where
    install-accounted :
        (saves flushes : Bool) (now : ℕ) (id : String) (x : Outcome τ) (r : Ingestion τ json)
        → accounted (install o src opt saves flushes now id x r).prog ≡ suc (accounted r.prog)
    unfolding install
    install-accounted saves flushes now id skipped r = omega arith
    install-accounted saves flushes now id (failed err) r = omega arith
    install-accounted saves flushes now id (done p) r =
        let a = apply_prepared o now p r.store in
        let counted : Progress = record r.prog {
          done_docs = r.prog.done_docs + 1;
          chunks = r.prog.chunks + length p.chunks;
        } in
        let next : Ingestion τ json = record r {
          store = a.0;
          prog = counted;
          pending = r.pending ++ id ∷ [];
        } in
        if_cases (λ (q : Ingestion τ json). accounted q.prog ≡ suc (accounted r.prog)) (not a.1)
          (λ _. omega arith)
          (λ _. ap accounted (after_document-prog opt saves flushes next) ∙ omega arith)

    module _ (n : ℕ) (r : Ingestion τ json) (v : IsCounted n opt r) where
      abbrev Counts : Ingestion τ json → Type 0
      Counts = IsCounted n opt

      -- a worker that has not returned tells that the run goes on
      going_on :
          (w : ℕ) (x : Worker τ)
          → get_elem? r.workers w ≡ some x
          → is_gone x ≡ false
          → r.has_ended ≡ true
          → ⊥
      going_on w x there here ended = cc (all_gone-get r.workers w x (v.ended ended).0 there)

      take_doc-Counts :
          (w : ℕ) (x : Worker τ) (ds : List Document)
          → get_elem? r.workers w ≡ some x
          → r.input ≡ ds
          → OnSome Counts (take_doc o src opt w x ds r)
      unfolding take_doc is_gone
      take_doc-Counts w idle (d ∷ ds) there input =
          let new = holding (prepare_for_ingest o src d r.store r.journal) in
          record {
            all = omega (arith, v.all, ap length input, sum_by-set held r.workers w new there);
            size = length-set r.workers w new ∙ v.size;
            left = λ h. ground (
              arith,
              input,
              v.left (sym (any_gone-set r.workers w idle new there refl refl) ∙ h),
            );
            ended = λ h. absurd (going_on w idle there refl h);
          }
      take_doc-Counts w idle [] there input = tt
      take_doc-Counts w (holding x) ds there input = tt
      take_doc-Counts w gone ds there input = tt

      send_result-Counts :
          (w : ℕ) (x : Worker τ)
          → get_elem? r.workers w ≡ some x
          → OnSome Counts (send_result o src opt w x r)
      unfolding send_result is_gone
      send_result-Counts w (holding x) there =
          if-OnSome Counts (ltb (length r.results) (opt.workers * 2)) _ λ room. record {
            all = omega (
              arith,
              v.all,
              sum_by-set held r.workers w idle there,
              length-append {0} r.results (x ∷ []),
            );
            size = length-set r.workers w idle ∙ v.size;
            left =
                λ h. v.left (sym (any_gone-set r.workers w (holding x) idle there refl refl) ∙ h);
            ended = λ h. absurd (going_on w (holding x) there refl h);
          }
      send_result-Counts w idle there = tt
      send_result-Counts w gone there = tt

      leave_loop-Counts :
          (w : ℕ) (x : Worker τ)
          → get_elem? r.workers w ≡ some x
          → OnSome Counts (leave_loop o src opt w x r)
      unfolding leave_loop is_gone
      leave_loop-Counts w idle there =
          if-OnSome Counts (r.is_cancelled || length r.input == 0) _ λ due. record {
            all = omega (arith, v.all, sum_by-set held r.workers w gone there);
            size = length-set r.workers w gone ∙ v.size;
            left = λ h. due;
            ended = λ h. absurd (going_on w idle there refl h);
          }
      leave_loop-Counts w (holding x) there = tt
      leave_loop-Counts w gone there = tt

      receive_result-Counts :
          (saves flushes : Bool) (now : ℕ) (xs : List (IngestResult τ))
          → r.results ≡ xs
          → OnSome Counts (receive_result o src opt saves flushes now xs r)
      unfolding receive_result
      receive_result-Counts saves flushes now [] results = tt
      receive_result-Counts saves flushes now (x ∷ xs) results =
          let rest : Ingestion τ json = record r { results = xs } in
          let f = install-Frame o src opt saves flushes now x.id x.outcome rest in
          let one = install-accounted saves flushes now x.id x.outcome rest in
          record {
            all = rw (f.input, f.workers, f.results) (omega (arith, one, v.all, ap length results));
            size = ap length f.workers ∙ v.size;
            left = λ h. rw (f.input, f.is_cancelled) (v.left (rw f.workers at h));
            ended = λ h. absurd (ground (arith, results, (v.ended (rw f.has_ended at h)).1));
          }

      finish_run-Counts :
          (saves flushes : Bool)
          → (all_gone r.workers ≡ true) × (length r.results ≡ 0)
          → Counts (finish_run o src opt saves flushes r)
      unfolding finish_run
      finish_run-Counts saves flushes h =
          let f = checkpoint-Frame opt saves flushes r in
          record {
            all = rw (f.input, f.workers, f.results, checkpoint-prog opt saves flushes r) v.all;
            size = ap length f.workers ∙ v.size;
            left = λ k. rw (f.input, f.is_cancelled) (v.left (rw f.workers at k));
            ended = λ _. rw (f.workers, f.results) h;
          }

      step-Counts : (ev : Event) → OnSome Counts (step o src opt ev r)
      unfolding step
      step-Counts (take_doc_by w) =
          bind-OnSome Counts (get_elem? r.workers w) _
            (λ x there. take_doc-Counts w x r.input there refl)
      step-Counts (send_by w) = bind-OnSome Counts (get_elem? r.workers w) _ (send_result-Counts w)
      step-Counts (leave_by w) = bind-OnSome Counts (get_elem? r.workers w) _ (leave_loop-Counts w)
      step-Counts (receive saves flushes now) =
          receive_result-Counts saves flushes now r.results refl
      step-Counts cancel = elim (Bool-cases (r.is_cancelled || r.has_ended)) [
        | inl not_now ↦ rw not_now tt
        | inr now ↦
            rw now (record { all = v.all; size = v.size; left = λ h. refl; ended = v.ended })
      ]
      step-Counts (finish saves flushes) =
          if-OnSome Counts (not r.has_ended && length r.results == 0 && all_gone r.workers) _
            (λ h. finish_run-Counts saves flushes (ground arith))

    all_accounted :
        (n : ℕ) (q : Ingestion τ json)
        → IsCounted n opt q
        → 0 < opt.workers
        → q.has_ended ≡ true
        → q.is_cancelled ≡ false
        → accounted q.prog ≡ n
    all_accounted n q v some_workers ended going =
        let (stopped, empty) = v.ended ended in
        let due = v.left (all_gone-any q.workers stopped (omega (arith, v.size))) in
        let drained : length q.input ≡ 0 = ground (arith, due, going) in
        omega (arith, v.all, all_gone-held q.workers stopped, drained, empty)

    run-IsCounted :
        (n : ℕ) (evs : List Event) (r : Ingestion τ json)
        → IsCounted n opt r
        → OnSome (IsCounted n opt) (run o src opt evs r)
    unfolding run
    run-IsCounted n [] r v = v
    run-IsCounted n (ev ∷ evs) r v =
        bind-OnSome (IsCounted n opt) (step o src opt ev r) _
          (λ q taken. run-IsCounted n evs q (OnSome-eq _ _ (step-Counts n r v ev) taken))

    initial-IsCounted :
        (docs : List Document) (total : ℕ) (s : Store τ) (j : Option (Journal json))
        → IsCounted (length docs) opt (initial opt docs total s j)
    unfolding initial
    initial-IsCounted docs total s j = record {
      all = omega (arith, nothing_held τ opt.workers);
      size = length-replicate opt.workers idle;
      left = λ h. absurd (cc (none_gone τ opt.workers));
      ended = λ h. absurd (cc);
    }

    -- When Ingest with a worker at least has ended and was not cancelled, every document that it
    -- was offered has been counted once: as ingested, as failed or as skipped. While it runs, and
    -- when it is cancelled, no more are counted than were offered.
    pub ingest_accounts :
        (docs : List Document) (total : ℕ) (s : Store τ) (j : Option (Journal json))
        (evs : List Event) {q : Ingestion τ json}
        → 0 < opt.workers
        → run o src opt evs (initial opt docs total s j) ≡ some q
        → (accounted q.prog ≤ length docs)
          × (q.has_ended ≡ true → q.is_cancelled ≡ false → accounted q.prog ≡ length docs)
    ingest_accounts docs total s j evs {q} some_workers h =
        let v =
          OnSome-eq (IsCounted (length docs) opt) _
            (run-IsCounted (length docs) evs _ (initial-IsCounted docs total s j)) h in
        (
          omega (arith, v.all),
          λ ended going. all_accounted (length docs) q v some_workers ended going,
        )
