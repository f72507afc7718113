-- ===== src/Rag/Journal/Durable.antt =====
-- What a journal (rag/journal.go) says after it has been opened again.
use Prim.Native.String.{String}
use mathlib.Core.List.{append_assoc, append-nil}
use text.Mathlib.Text.{◌==◌ as str_eq}
use text.Mathlib.TextEquality.{eq_iff}
use turbograph.Prelude.{
  ap, Bool, false, none, Option, ◌≡◌, refl, sym, ◌∙◌, true, false, ◌||◌, List, [], ◌∷◌, ◌++◌, some,
  if◌then◌else◌, arith, if_cases,
}
use turbograph.Prelude.Keys.{string_key}
use turbograph.Prelude.Assoc.{contains}
use turbograph.Rag.Journal.{
  JournalEntry, Json, File, Journal, all_lines, append_lines, add_id, replay_line, replay,
  open_journal, write, mark_one, mark_each, flush, mark_done,
}

module _ (json : Json) where
  replay-append :
      (xs ys : List json.Line) (ids : List String)
      → replay json (xs ++ ys) ids ≡ replay json ys (replay json xs ids)
  unfolding replay
  replay-append [] ys ids = refl
  replay-append (x ∷ xs) ys ids = replay-append xs ys (replay_line json x ids)

  -- What the file and the buffer say is what the journal says.
  abbrev pub IsRecorded : Journal json → Type 0
  IsRecorded j =
      (id : String) → contains (replay json (j.file.0 ++ j.buffer) []) id ≡ contains j.done id

  -- Opening a journal whose last line ends.
  pub open_journal-IsRecorded : (ls : List json.Line) → IsRecorded (open_journal json (ls, none))
  unfolding open_journal
  open_journal-IsRecorded ls id = rw (append-nil ls) refl

  -- encoding/json reads what it has written
  abbrev pub IsFaithful : Type 0
  IsFaithful = (e : JournalEntry) → json.unmarshal (json.marshal e) ≡ some e

  contains-add_id :
      (id k : String) (ids : List String)
      → contains (add_id id ids) k ≡ (contains ids k || str_eq id k)
  unfolding contains
  contains-add_id id k ids = ground (arith, eq_iff id k)

  pub contains-mark_each :
      (ids : List String) (j : Journal json) (k : String)
      → contains (mark_each json ids j).done k ≡ (contains j.done k || contains ids k)
  unfolding mark_each mark_one contains
  contains-mark_each [] j k = ground arith
  contains-mark_each (id ∷ ids) j k =
      ground (arith, contains-mark_each ids (mark_one json id j) k, contains-add_id id k j.done)

  mark_each-file :
      (ids : List String) (j : Journal json)
      → ((mark_each json ids j).file ≡ j.file) × ((mark_each json ids j).has_failed ≡ j.has_failed)
  unfolding mark_each mark_one
  mark_each-file [] j = (refl, refl)
  mark_each-file (id ∷ ids) j = mark_each-file ids (mark_one json id j)

  append_lines-whole :
      (file : File json) (ls : List json.Line)
      → file.1 ≡ none
      → all_lines json (append_lines json file ls) ≡ file.0 ++ ls
  unfolding append_lines
  append_lines-whole file [] whole =
      ap (λ (t : Option json.Line). elim t [ none ↦ file.0 | some l ↦ file.0 ++ l ∷ [] ]) whole
      ∙ sym (append-nil file.0)
  append_lines-whole file (l ∷ ls) whole = rw (whole, append_lines) refl

  module _ (faithful : IsFaithful) where
    write-replay :
        (e : JournalEntry) (j : Journal json) (k : String)
        → j.has_failed ≡ false
        → contains (replay json (j.file.0 ++ (write json e j).buffer) []) k ≡ (
            contains (replay json (j.file.0 ++ j.buffer) []) k
            || (if e.ok then str_eq e.id k else false))
    unfolding replay
    write-replay e j k works =
        let split = replay-append (j.file.0 ++ j.buffer) (json.marshal e ∷ []) [] in
        rw (works, sym (append_assoc j.file.0 j.buffer (json.marshal e ∷ [])), split)
          (ground
            (arith, faithful e, contains-add_id e.id k (replay json (j.file.0 ++ j.buffer) [])))

    mark_each-IsRecorded :
        (ids : List String) (j : Journal json)
        → j.has_failed ≡ false
        → IsRecorded j
        → IsRecorded (mark_each json ids j)
    unfolding mark_each mark_one
    mark_each-IsRecorded [] j works v = v
    mark_each-IsRecorded (id ∷ ids) j works v = mark_each-IsRecorded ids _ works (
        if_cases (λ b. IsRecorded (record j { buffer = b; done = add_id id j.done }))
          (contains j.done id)
          (λ old k. ground (arith, v k, contains-add_id id k j.done, eq_iff id k))
          (λ new k. ground (
            arith,
            v k,
            write-replay (record { id = id; ok = true; err = "" }) j k works,
            contains-add_id id k j.done,
          )))

    -- When MarkDone reports no error, a journal that is opened again has exactly the documents
    -- that were done before and those that are marked. The journal is one whose file and buffer
    -- say what it says, as an opened one is, and whose file has no last line that does not end.
    -- JSON reads what it has written.
    pub mark_done_durable :
        (taken : Bool) (ids : List String) (j : Journal json) (k : String)
        → IsRecorded j
        → j.file.1 ≡ none
        → (mark_done json taken ids j).1 ≡ true
        → contains (open_journal json (mark_done json taken ids j).0.file).done k
          ≡ (contains j.done k || contains ids k)
    unfolding mark_done flush open_journal
    mark_done_durable taken ids j k v whole reported =
        let m = mark_each json ids j in
        let (file, failed) = mark_each-file ids j in
        let works : m.has_failed ≡ false = ground (arith, reported) in
        let took : taken ≡ true = ground (arith, reported, works) in
        simp
          (
            works,
            took,
            append_lines-whole m.file m.buffer (ap (λ (f : File json). f.1) file ∙ whole),
          )
          (mark_each-IsRecorded ids j (sym failed ∙ works) v k ∙ contains-mark_each ids j k)
