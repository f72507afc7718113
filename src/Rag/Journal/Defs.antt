-- ===== src/Rag/Journal/Defs.antt =====
-- rag/journal.go. A file is the list of its lines, of a type of its own, with a last one that does not
-- end, as a crash may leave it. Package encoding/json, and what a write that fails leaves in a file,
-- is the parameter `Json`.
use Prim.Native.String.{String}
use turbograph.Prelude.{
  ℕ, Bool, true, false, List, [], ◌∷◌, ◌++◌, Option, none, some, if◌then◌else◌, length,
}
use turbograph.Prelude.Keys.{string_key}
use turbograph.Prelude.Assoc.{contains}

pub record JournalEntry : Type 0 where
  pub id : String
  pub ok : Bool
  pub err : String

pub record Json : Type 1 where
  pub Line : Type 0
  pub marshal : JournalEntry → Line
  pub unmarshal : Line → Option JournalEntry
  pub glue : Line → Line → Line
  pub cut_short : List Line × Option Line → List Line → List Line × Option Line

-- the lines that end, and what is behind them
abbrev pub File : Json → Type 0
File json = List json.Line × Option json.Line

pub record Journal (json : Json) : Type 0 where
  pub file : File json
  pub buffer : List json.Line
  pub done : List String
  pub has_failed : Bool

-- a set of ids, as the list of those that were added
abbrev pub add_id : String → List String → List String
add_id id ids = if contains ids id then ids else id ∷ ids

module _ (json : Json) where
  abbrev pub replay_line : json.Line → List String → List String
  replay_line line ids = elim (json.unmarshal line) [
    | none ↦ ids
    | some e ↦ if e.ok then add_id e.id ids else ids
  ]

  -- the loop of OpenJournal over the lines
  unfoldable pub replay : List json.Line → List String → List String
  replay [] ids = ids
  replay (l ∷ ls) ids = replay ls (replay_line l ids)

  -- the scanner also gives a last line that does not end
  abbrev pub all_lines : File json → List json.Line
  all_lines file = elim file.1 [ none ↦ file.0 | some l ↦ file.0 ++ l ∷ [] ]

  unfoldable pub open_journal : File json → Journal json
  open_journal file = record {
    file = file;
    buffer = [];
    done = replay (all_lines file) [];
    has_failed = false;
  }

  -- lines appended to a file: the first one is glued to a last line that does not end
  unfoldable pub append_lines : File json → List json.Line → File json
  append_lines file [] = file
  append_lines file (l ∷ ls) = elim file.1 [
    | none ↦ (file.0 ++ l ∷ ls, none)
    | some t ↦ (file.0 ++ json.glue t l ∷ ls, none)
  ]

  unfoldable pub is_done : String → Journal json → Bool
  is_done id j = contains j.done id

  unfoldable pub done_count : Journal json → ℕ
  done_count j = length j.done

  -- a writer that has failed takes nothing more
  abbrev pub write : JournalEntry → Journal json → Journal json
  write e j = if j.has_failed then j else record j { buffer = j.buffer ++ json.marshal e ∷ [] }

  -- the body of the loop of MarkDone
  unfoldable pub mark_one : String → Journal json → Journal json
  mark_one id j =
      let k = write (record { id = id; ok = true; err = "" }) j in
      record j {
        buffer = if contains j.done id then j.buffer else k.buffer;
        done = add_id id j.done;
      }

  unfoldable pub mark_each : List String → Journal json → Journal json
  mark_each [] j = j
  mark_each (id ∷ ids) j = mark_each ids (mark_one id j)

  -- whether the file takes the lines is given; a writer that has failed fails again
  unfoldable pub flush : Bool → Journal json → Journal json × Bool
  flush taken j =
      if j.has_failed
      then (j, false)
      else if taken
      then (record j { file = append_lines j.file j.buffer; buffer = [] }, true)
      else (record j { file = json.cut_short j.file j.buffer; has_failed = true }, false)

  unfoldable pub mark_done : Bool → List String → Journal json → Journal json × Bool
  mark_done taken ids j = flush taken (mark_each ids j)

  unfoldable pub mark_failed : Bool → String → String → Journal json → Journal json × Bool
  mark_failed taken id err j = flush taken (write (record { id = id; ok = false; err = err }) j)
