-- ===== src/Rag/Journal/Tests.antt =====
-- A journal whose lines are its entries.
use Prim.Native.String.{String}
use turbograph.Prelude.{◌≡◌, refl, true, false, none, ◌||◌, List, [], ◌∷◌, some}
use turbograph.Prelude.Keys.{string_key}
use turbograph.Prelude.Assoc.{contains}
use turbograph.Rag.Journal.{
  JournalEntry, Json, Journal, open_journal, mark_done, mark_each, mark_one, flush,
}
use turbograph.Rag.Journal.Durable.{open_journal-IsRecorded, mark_done_durable}

abbrev pub entries : Json
entries = record {
  Line = JournalEntry;
  marshal = λ e. e;
  unmarshal = some;
  glue = λ t l. t;
  cut_short = λ file ls. file;
}

abbrev pub file : List JournalEntry
file =
    record { id = "a"; ok = true; err = "" } ∷ record { id = "b"; ok = false; err = "timeout" } ∷ []

abbrev retried : String
retried = "b"

abbrev pub opened : Journal entries
opened = open_journal entries (file, none)

flushed : (mark_done entries true (retried ∷ []) opened).1 ≡ true
unfolding mark_done mark_each mark_one flush open_journal
flushed = refl

mark_done_durable_example :
    contains
      (open_journal entries (mark_done entries true (retried ∷ []) opened).0.file).done
      retried
    ≡ (contains opened.done retried || contains (retried ∷ []) retried)
unfolding open_journal
mark_done_durable_example =
    mark_done_durable entries (λ _. refl) true (retried ∷ []) opened retried
      (open_journal-IsRecorded entries file) refl flushed
