-- ===== src/Rag/Ingest/Noted.antt =====
-- The invariant of Ingest, and the loop over the results under it.
use Prim.Native.String.{String}
use text.Mathlib.TextEquality.{eq_iff}
use turbograph.Prelude.{
  ℕ, zero, suc, ◌+◌, ◌≡◌, inl, inr, ◌⊎◌, Bool, true, not, ◌&&◌, ◌||◌, List, [], ◌∷◌, ◌++◌, Option,
  none, some, arith, length, get_elem?, set, ◌==◌, ltb, leb, Bool-cases, Option-cases, if_cases,
  match_cases, All, OnSome-eq,
}
use turbograph.Prelude.Keys.{Eq, string_key}
use turbograph.Prelude.Assoc.{has, contains, contains-snoc}
use turbograph.Rag.Store.{Sorts, Store, Services, IndexLaws, Prepared, apply_prepared}
use turbograph.Rag.Store.Sound.{IsSound}
use turbograph.Rag.Store.Batch.{apply_prepared-IsSound}
use turbograph.Rag.Journal.{Json, Journal, is_done, mark_done, mark_failed, flush}
use turbograph.Rag.Journal.Durable.{contains-mark_each}
use turbograph.Rag.Ingest.{
  Sources, PrepareError, Outcome, skipped, failed, done, journal_done, IngestOptions, Worker, idle,
  holding, gone, Ingestion, Failure, checkpoint_journal, checkpoint, Progress, later_error,
  after_document, install,
}
use turbograph.Rag.Ingest.Recorded.{IsGood, IsGoodOutcome, KeepsOwn, lookup-apply_prepared}

abbrev pub IsGoodWorker : {τ : Sorts} → Worker τ → Type 0
IsGoodWorker idle = Unit
IsGoodWorker (holding x) = IsGood x
IsGoodWorker gone = Unit

pub All-set {ℓ κ} :
    {A : Type ℓ} (P : A → Type κ) (xs : List A) (i : ℕ) (y : A)
    → P y
    → All P xs
    → All P (set xs i y)
All-set P [] i y h hs = tt
All-set P (x ∷ xs) zero y h hs = (h, hs.1)
All-set P (x ∷ xs) (suc i) y h hs = (hs.0, All-set P xs i y h hs.1)

pub All-get {ℓ κ} :
    {A : Type ℓ} (P : A → Type κ) (xs : List A) (i : ℕ) {x : A}
    → All P xs
    → get_elem? xs i ≡ some x
    → P x
All-get P [] i hs h = absurd (cc)
All-get P (y ∷ xs) zero hs h = OnSome-eq P (some y) hs.0 h
All-get P (y ∷ xs) (suc i) hs h = All-get P xs i hs.1 h

module _ {τ : Sorts} {json : Json} ⦃e : Eq τ.Hash⦄ (o : Services τ) (laws : IndexLaws o)
    (src : Sources τ) (own : KeepsOwn src) (opt : IngestOptions) (saving : opt.has_save ≡ true)
    (j0 : Option (Journal json)) where
  abbrev pub IsStored : String → Store τ → Type 0
  IsStored id s = has id s.id_hash ≡ true

  pub record IsSafe (r : Ingestion τ json) : Type 0 where
    pub holders : All IsGoodWorker r.workers
    pub results : All IsGood r.results
    pub sound : IsSound o r.store
    pub pending : (id : String) → contains r.pending id ≡ true → IsStored id r.store
    pub kept : (id : String) → IsStored id r.saved → IsStored id r.store
    pub recorded :
        (id : String)
        → journal_done id r.journal ≡ true
        → (journal_done id j0 ≡ true) ⊎ IsStored id r.saved

  -- MarkDone calls done what was done and what it is given
  done-mark_done :
      (flushes : Bool) (ids : List String) (j : Journal json) (id : String)
      → is_done json id (mark_done json flushes ids j).0 ≡ (is_done json id j || contains ids id)
  unfolding is_done mark_done flush
  done-mark_done flushes ids j id = ground (arith, contains-mark_each json ids j id)

  done-mark_failed :
      (flushes : Bool) (d err : String) (j : Journal json) (id : String)
      → is_done json id (mark_failed json flushes d err j).0 ≡ is_done json id j
  unfolding is_done mark_failed flush
  done-mark_failed flushes d err j id = ground arith

  -- a write of the journal, of the pending documents and of the progress
  noted-IsSafe :
      (r : Ingestion τ json) (pending : List String) (j : Option (Journal json))
      (err : Option Failure)
      → ((id : String) → contains pending id ≡ true → IsStored id r.store)
      → ((id : String)
          → journal_done id j ≡ true
          → (journal_done id j0 ≡ true) ⊎ IsStored id r.saved)
      → IsSafe r
      → IsSafe (record r { pending = pending; journal = j; loop_err = err })
  noted-IsSafe r pending j err stored known v = record {
    holders = v.holders;
    results = v.results;
    sound = v.sound;
    pending = stored;
    kept = v.kept;
    recorded = known;
  }

  checkpoint_journal-IsSafe :
      (flushes : Bool) (r : Ingestion τ json)
      → ((id : String) → contains r.pending id ≡ true → IsStored id r.saved)
      → IsSafe r
      → IsSafe (checkpoint_journal flushes r).0
  unfolding checkpoint_journal contains
  checkpoint_journal-IsSafe flushes r stored v =
      match_cases (λ (c : Ingestion τ json × Option Failure). IsSafe c.0) r.journal
        (λ nil. noted-IsSafe r [] r.journal r.loop_err (λ id h. absurd (cc)) v.recorded v)
        λ j there.
          let m = mark_done json flushes r.pending j in
          let known : (id : String)
              → is_done json id m.0 ≡ true
              → (journal_done id j0 ≡ true) ⊎ IsStored id r.saved =
            λ id h. elim (Bool-cases (contains r.pending id)) [
              | inl new ↦ inr (stored id new)
              | inr old ↦
                  v.recorded id (rw there (ground (arith, done-mark_done flushes r.pending j id)))
            ] in
          if_cases (λ (c : Ingestion τ json × Option Failure). IsSafe c.0) (length r.pending == 0)
            (λ _. v)
            λ _.
              if_cases (λ (c : Ingestion τ json × Option Failure). IsSafe c.0) m.1
                (λ _. noted-IsSafe r [] (some m.0) r.loop_err (λ id h. absurd (cc)) known v)
                (λ _. noted-IsSafe r r.pending (some m.0) r.loop_err v.pending known v)

  pub checkpoint-IsSafe :
      (saves flushes : Bool) (r : Ingestion τ json)
      → IsSafe r
      → IsSafe (checkpoint opt saves flushes r).0
  unfolding checkpoint
  checkpoint-IsSafe saves flushes r v =
      let now : IsSafe (record r { saved = r.store }) = record {
        holders = v.holders;
        results = v.results;
        sound = v.sound;
        pending = v.pending;
        kept = λ id h. h;
        recorded = λ id h. elim (v.recorded id h) [
          | inl before ↦ inl before
          | inr stored ↦ inr (v.kept id stored)
        ];
      } in
      if_cases (λ (c : Ingestion τ json × Option Failure). IsSafe c.0) (not opt.has_save)
        (λ none_given. absurd (ground (arith, saving)))
        λ _.
          if_cases (λ (c : Ingestion τ json × Option Failure). IsSafe c.0) saves
            (λ _. checkpoint_journal-IsSafe flushes (record r { saved = r.store }) v.pending now)
            (λ _. v)

  after_document-IsSafe :
      (saves flushes : Bool) (r : Ingestion τ json)
      → IsSafe r
      → IsSafe (after_document opt saves flushes r)
  unfolding after_document
  after_document-IsSafe saves flushes r v =
      let c = checkpoint opt saves flushes r in
      let w = checkpoint-IsSafe saves flushes r v in
      if_cases IsSafe
        (opt.has_save && ltb 0 opt.checkpoint_every && leb opt.checkpoint_every (length r.pending))
        (λ _.
          noted-IsSafe c.0 c.0.pending c.0.journal (later_error c.0.loop_err c.1) w.pending
            w.recorded w)
        (λ _. v)

  -- a store with more documents
  grown-IsSafe :
      (r : Ingestion τ json) (s : Store τ) (prog : Progress)
      → IsSound o s
      → ((id : String) → IsStored id r.store → IsStored id s)
      → IsSafe r
      → IsSafe (record r { store = s; prog = prog })
  grown-IsSafe r s prog sound more v = record {
    holders = v.holders;
    results = v.results;
    sound = sound;
    pending = λ id h. more id (v.pending id h);
    kept = λ id h. more id (v.kept id h);
    recorded = v.recorded;
  }

  -- the new hash, and those of the documents that were pending
  new-IsStored :
      (now : ℕ) (id : String) (p : Prepared τ) (r : Ingestion τ json)
      → p.id ≡ id
      → (apply_prepared o now p r.store).1 ≡ true
      → (d : String) → (IsStored d r.store → IsStored d (apply_prepared o now p r.store).0)
      → (contains r.pending d ≡ true → IsStored d r.store)
      → contains (r.pending ++ id ∷ []) d ≡ true
      → IsStored d (apply_prepared o now p r.store).0
  new-IsStored now id p r same installed d more before h = ground (
    arith,
    contains-snoc r.pending id d,
    lookup-apply_prepared o now p r.store d,
    eq_iff p.id d,
    eq_iff id d,
  )

  failed_known :
      (flushes : Bool) (id : String) (err : PrepareError) (r : Ingestion τ json)
      → IsSafe r
      → (d : String)
      → journal_done d (elim r.journal [
        | none ↦ none
        | some j ↦ some (mark_failed json flushes id (src.error_text err) j).0
      ])
        ≡ true
      → (journal_done d j0 ≡ true) ⊎ IsStored d r.saved
  failed_known flushes id err r v d h = elim (Option-cases r.journal) [
    | inl nil ↦ absurd (ground (arith, nil))
    | inr (j, there) ↦
        v.recorded d (ground (arith, there, done-mark_failed flushes id (src.error_text err) j d))
  ]

  pub install-IsSafe :
      (saves flushes : Bool) (now : ℕ) (id : String) (x : Outcome τ) (r : Ingestion τ json)
      → IsGoodOutcome id x
      → IsSafe r
      → IsSafe (install o src opt saves flushes now id x r)
  unfolding install
  install-IsSafe saves flushes now id skipped r good v =
      grown-IsSafe r r.store _ v.sound (λ d h. h) v
  install-IsSafe saves flushes now id (failed err) r good v =
      let counted = record r.prog { failed_docs = r.prog.failed_docs + 1 } in
      let j : Option (Journal json) = elim r.journal [
        | none ↦ none
        | some j ↦ some (mark_failed json flushes id (src.error_text err) j).0
      ] in
      noted-IsSafe (record r { prog = counted }) r.pending j r.loop_err v.pending
        (failed_known flushes id err r v) (grown-IsSafe r r.store counted v.sound (λ d h. h) v)
  install-IsSafe saves flushes now id (done p) r good v =
      let a = apply_prepared o now p r.store in
      let sound = apply_prepared-IsSound o laws now p r.store good.1 v.sound in
      let more : (d : String) → IsStored d r.store → IsStored d a.0 =
        λ d h. ground (arith, lookup-apply_prepared o now p r.store d) in
      let counted = record r.prog {
        done_docs = r.prog.done_docs + 1;
        chunks = r.prog.chunks + length p.chunks;
      } in
      let next : Ingestion τ json = record r { store = a.0; prog = counted } in
      let w = grown-IsSafe r a.0 counted sound more v in
      if_cases IsSafe (not a.1) (λ _. grown-IsSafe r a.0 _ sound more v)
        λ installed.
          after_document-IsSafe saves flushes (record next { pending = r.pending ++ id ∷ [] })
            (noted-IsSafe next (r.pending ++ id ∷ []) r.journal r.loop_err
              (λ d h. new-IsStored now id p r good.0 (ground arith) d (more d) (v.pending d) h)
              w.recorded w)
