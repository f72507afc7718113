-- ===== src/Rag/Ingest/Live.antt =====
-- Ingest comes to an end: each step of its goroutines brings it nearer, and until then there is one.
use Prim.Native.String.{String}
use turbograph.Prelude.{
  ℕ, zero, suc, ◌+◌, ◌*◌, ◌≤◌, ◌<◌, ◌≡◌, refl, inl, inr, ◌⊎◌, Bool, true, false, not, ◌&&◌, ◌||◌,
  List, [], ◌∷◌, ◌++◌, Option, some, arith, if◌then◌else◌, length, get_elem?, set, replicate, ◌==◌,
  ltb, Bool-cases, Option-cases, length-append, OnSome, bind-OnSome, if-OnSome, OnSome-eq,
  OnSome-map, is_some,
}
use turbograph.Prelude.Keys.{Eq}
use turbograph.Prelude.Sorting.{sum_by}
use turbograph.Rag.Store.{Sorts, Store, Services, Document, apply_prepared}
use turbograph.Rag.Journal.{Json, Journal}
use turbograph.Rag.Ingest.{
  initial, Sources, Outcome, skipped, failed, done, IngestResult, prepare_for_ingest, IngestOptions,
  Worker, idle, holding, gone, Ingestion, Event, take_doc_by, send_by, leave_by, receive, cancel,
  finish, checkpoint_journal, checkpoint, after_document, install, take_doc, send_result,
  leave_loop, receive_result, finish_run, step, run, all_gone,
}

pub sum_by-set {ℓ} :
    {A : Type ℓ} (f : A → ℕ) (xs : List A) (i : ℕ) (y : A) {x : A}
    → get_elem? xs i ≡ some x
    → sum_by f (set xs i y) + f x ≡ sum_by f xs + f y
sum_by-set f [] i y h = absurd (cc)
sum_by-set f (z ∷ xs) zero y h = ground arith
sum_by-set f (z ∷ xs) (suc i) y h = omega (arith, sum_by-set f xs i y h)

abbrev weight : {τ : Sorts} → Worker τ → ℕ
weight idle = 1
weight (holding x) = 3
weight gone = 0

abbrev left_by : Bool → ℕ
left_by b = if b then 0 else 1

find_worker :
    {τ : Sorts} (ws : List (Worker τ))
    → ((i : ℕ) × (x : IngestResult τ) × (get_elem? ws i ≡ some (holding x)))
      ⊎ (((i : ℕ) × (get_elem? ws i ≡ some idle)) ⊎ (all_gone ws ≡ true))
unfolding all_gone
find_worker [] = inr (inr refl)
find_worker (idle ∷ ws) = inr (inl (0, refl))
find_worker (holding x ∷ ws) = inl (0, x, refl)
find_worker (gone ∷ ws) = elim (find_worker ws) [
  | inl (i, x, h) ↦ inl (suc i, x, h)
  | inr (inl (i, h)) ↦ inr (inl (suc i, h))
  | inr (inr h) ↦ inr (inr h)
]

sum_by-idle : (τ : Sorts) (n : ℕ) → sum_by (weight {τ = τ}) (replicate n idle) ≡ n
sum_by-idle τ zero = refl
sum_by-idle τ (suc n) = omega (arith, sum_by-idle τ n)

module _ {τ : Sorts} {json : Json} where
  -- how many steps there are left at most
  abbrev pub steps_left : Ingestion τ json → ℕ
  steps_left r =
      length r.input * 4
      + sum_by weight r.workers
      + length r.results
      + left_by r.is_cancelled
      + left_by r.has_ended

  -- what the loop over the results does not touch
  pub record Frame (r q : Ingestion τ json) : Type 0 where
    pub input : q.input ≡ r.input
    pub workers : q.workers ≡ r.workers
    pub results : q.results ≡ r.results
    pub is_cancelled : q.is_cancelled ≡ r.is_cancelled
    pub has_ended : q.has_ended ≡ r.has_ended

  checkpoint_journal-Frame :
      (flushes : Bool) (r : Ingestion τ json) → Frame r (checkpoint_journal flushes r).0
  unfolding checkpoint_journal
  checkpoint_journal-Frame flushes r = ground arith

  pub checkpoint-Frame :
      (opt : IngestOptions) (saves flushes : Bool) (r : Ingestion τ json)
      → Frame r (checkpoint opt saves flushes r).0
  unfolding checkpoint
  checkpoint-Frame opt saves flushes r = ground (
    arith,
    checkpoint_journal-Frame flushes r,
    checkpoint_journal-Frame flushes (record r { saved = r.store }),
  )

  after_document-Frame :
      (opt : IngestOptions) (saves flushes : Bool) (r : Ingestion τ json)
      → Frame r (after_document opt saves flushes r)
  unfolding after_document
  after_document-Frame opt saves flushes r = ground (arith, checkpoint-Frame opt saves flushes r)

  module _ ⦃e : Eq τ.Hash⦄ (o : Services τ) (src : Sources τ) (opt : IngestOptions) where
    pub install-Frame :
        (saves flushes : Bool) (now : ℕ) (id : String) (x : Outcome τ) (r : Ingestion τ json)
        → Frame r (install o src opt saves flushes now id x r)
    unfolding install
    install-Frame saves flushes now id skipped r = ground arith
    install-Frame saves flushes now id (failed err) r = ground arith
    install-Frame saves flushes now id (done p) r =
        let a = apply_prepared o now p r.store in
        let installed : Ingestion τ json = record r {
          store = a.0;
          prog = record r.prog {
            done_docs = r.prog.done_docs + 1;
            chunks = r.prog.chunks + length p.chunks;
          };
          pending = r.pending ++ id ∷ [];
        } in
        ground (arith, after_document-Frame opt saves flushes installed)

    module _ (r : Ingestion τ json) where
      abbrev IsNearer : Ingestion τ json → Type 0
      IsNearer q = steps_left q < steps_left r

      take_doc-IsNearer :
          (w : ℕ) (x : Worker τ) (ds : List Document)
          → get_elem? r.workers w ≡ some x
          → r.input ≡ ds
          → OnSome IsNearer (take_doc o src opt w x ds r)
      unfolding take_doc
      take_doc-IsNearer w idle (d ∷ ds) there input =
          let new = holding (prepare_for_ingest o src d r.store r.journal) in
          rw input (omega (arith, sum_by-set weight r.workers w new there))
      take_doc-IsNearer w idle [] there input = tt
      take_doc-IsNearer w (holding x) ds there input = tt
      take_doc-IsNearer w gone ds there input = tt

      send_result-IsNearer :
          (w : ℕ) (x : Worker τ)
          → get_elem? r.workers w ≡ some x
          → OnSome IsNearer (send_result o src opt w x r)
      unfolding send_result
      send_result-IsNearer w (holding x) there =
          if-OnSome IsNearer (ltb (length r.results) (opt.workers * 2)) _ (λ room.
            omega (
              arith,
              sum_by-set weight r.workers w idle there,
              length-append {0} r.results (x ∷ []),
            ))
      send_result-IsNearer w idle there = tt
      send_result-IsNearer w gone there = tt

      leave_loop-IsNearer :
          (w : ℕ) (x : Worker τ)
          → get_elem? r.workers w ≡ some x
          → OnSome IsNearer (leave_loop o src opt w x r)
      unfolding leave_loop
      leave_loop-IsNearer w idle there =
          if-OnSome IsNearer (r.is_cancelled || length r.input == 0) _
            (λ ended. omega (arith, sum_by-set weight r.workers w gone there))
      leave_loop-IsNearer w (holding x) there = tt
      leave_loop-IsNearer w gone there = tt

      receive_result-IsNearer :
          (saves flushes : Bool) (now : ℕ) (xs : List (IngestResult τ))
          → r.results ≡ xs
          → OnSome IsNearer (receive_result o src opt saves flushes now xs r)
      unfolding receive_result
      receive_result-IsNearer saves flushes now [] results = tt
      receive_result-IsNearer saves flushes now (x ∷ xs) results =
          let f = install-Frame saves flushes now x.id x.outcome (record r { results = xs }) in
          rw (f.input, f.workers, f.results, f.is_cancelled, f.has_ended, results) (omega arith)

      finish_run-IsNearer :
          (saves flushes : Bool)
          → r.has_ended ≡ false
          → IsNearer (finish_run o src opt saves flushes r)
      unfolding finish_run
      finish_run-IsNearer saves flushes h =
          let f = checkpoint-Frame opt saves flushes r in
          rw (f.input, f.workers, f.results, f.is_cancelled, h) (omega arith)

      pub step-IsNearer : (ev : Event) → OnSome IsNearer (step o src opt ev r)
      unfolding step
      step-IsNearer (take_doc_by w) =
          bind-OnSome IsNearer (get_elem? r.workers w) _
            (λ x there. take_doc-IsNearer w x r.input there refl)
      step-IsNearer (send_by w) =
          bind-OnSome IsNearer (get_elem? r.workers w) _ (send_result-IsNearer w)
      step-IsNearer (leave_by w) =
          bind-OnSome IsNearer (get_elem? r.workers w) _ (leave_loop-IsNearer w)
      step-IsNearer (receive saves flushes now) =
          receive_result-IsNearer saves flushes now r.results refl
      step-IsNearer cancel = elim (Bool-cases (r.is_cancelled || r.has_ended)) [
        | inl not_now ↦ rw not_now tt
        | inr now ↦ rw now (ground arith)
      ]
      step-IsNearer (finish saves flushes) =
          if-OnSome IsNearer (not r.has_ended && length r.results == 0 && all_gone r.workers) _
            (λ h. finish_run-IsNearer saves flushes (ground arith))

  module _ ⦃e : Eq τ.Hash⦄ (o : Services τ) (src : Sources τ) (opt : IngestOptions) where
    abbrev CanStep : Ingestion τ json → Type 0
    CanStep r = (ev : Event) × (is_some (step o src opt ev r) ≡ true)

    module _ (r : Ingestion τ json) where
      idle-CanStep :
          (ds : List Document) (i : ℕ)
          → r.input ≡ ds
          → get_elem? r.workers i ≡ some idle
          → CanStep r
      unfolding step take_doc leave_loop
      idle-CanStep [] i input h = (leave_by i, rw (h, input) (ground arith))
      idle-CanStep (d ∷ ds) i input h = (take_doc_by i, rw (h, input) refl)

      next_step :
          (xs : List (IngestResult τ))
          → 0 < opt.workers
          → r.results ≡ xs
          → r.has_ended ≡ false
          → CanStep r
      unfolding step receive_result send_result
      next_step (x ∷ xs) some_workers results going = (receive true true 0, rw results refl)
      next_step [] some_workers results going = elim (find_worker r.workers) [
        | inl (i, x, h) ↦ (send_by i, rw h (ground (arith, results)))
        | inr (inl (i, h)) ↦ idle-CanStep r.input i refl h
        | inr (inr h) ↦ (finish true true, rw (h, going, results) refl)
      ]

    -- no sequence of steps is longer than the number that is left
    run-le :
        (evs : List Event) (r : Ingestion τ json)
        → OnSome (λ q. length evs + steps_left q ≤ steps_left r) (run o src opt evs r)
    unfolding run
    run-le [] r = omega arith
    run-le (ev ∷ evs) r =
        bind-OnSome (λ q. suc (length evs) + steps_left q ≤ steps_left r) (step o src opt ev r) _
          λ q taken.
            let near =
              OnSome-eq (IsNearer o src opt r) (step o src opt ev r) (step-IsNearer o src opt r ev)
                taken in
            OnSome-map (run o src opt evs q) (λ p bound. omega (arith, near, bound)) (run-le evs q)

    -- the steps that are left lead to the end
    abbrev pub Ends : Ingestion τ json → Type 0
    Ends r =
        (evs : List Event) × (q : Ingestion τ json) × (run o src opt evs r ≡ some q)
        × (q.has_ended ≡ true)

    step-Ends :
        (ev : Event) (r q : Ingestion τ json) → step o src opt ev r ≡ some q → Ends q → Ends r
    unfolding run
    step-Ends ev r q taken (evs, p, run_q, ended) = (ev ∷ evs, p, rw taken run_q, ended)

    stop-Ends : (r : Ingestion τ json) → r.has_ended ≡ true → Ends r
    unfolding run
    stop-Ends r ended = ([], r, refl, ended)

    run_to_end : (n : ℕ) (r : Ingestion τ json) → 0 < opt.workers → steps_left r ≤ n → Ends r
    run_to_end zero r some_workers h = elim (Bool-cases r.has_ended) [
      | inl ended ↦ stop-Ends r ended
      | inr going ↦ absurd (ground arith)
    ]
    run_to_end (suc n) r some_workers h = elim (Bool-cases r.has_ended) [
      | inl ended ↦ stop-Ends r ended
      | inr going ↦
          let (ev, able) = next_step r r.results some_workers refl going in
          elim (Option-cases (step o src opt ev r)) [
            | inl out ↦ absurd (ground (arith, able))
            | inr (q, taken) ↦
                let near =
                  OnSome-eq (IsNearer o src opt r) (step o src opt ev r)
                    (step-IsNearer o src opt r ev) taken in
                step-Ends ev r q taken (run_to_end n q some_workers (omega (arith, near)))
          ]
    ]

    -- With a worker at least, Ingest comes to an end, however its goroutines take turns, whether
    -- it is cancelled or not, and whatever Save and the journal do: it takes at most four steps
    -- for each document, one for each worker and two more, and wherever it stands it can go on
    -- until it has ended.
    pub ingest-Ends :
        (docs : List Document) (total : ℕ) (s : Store τ) (j : Option (Journal json))
        (evs : List Event) {q : Ingestion τ json}
        → 0 < opt.workers
        → run o src opt evs (initial opt docs total s j) ≡ some q
        → (length evs ≤ length docs * 4 + opt.workers + 2) × Ends q
    unfolding initial
    ingest-Ends docs total s j evs {q} some_workers h =
        let bound = OnSome-eq _ _ (run-le evs (initial opt docs total s j)) h in
        (
          omega (arith, bound, sum_by-idle τ opt.workers),
          run_to_end (steps_left q) q some_workers (omega arith),
        )
