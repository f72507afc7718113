-- ===== src/Rag/Store/History/Tests.antt =====
-- The versions of a document, read back, over the store of Rag/Store/Tests.
use text.Mathlib.Text.{◌==◌ as str_eq}
use turbograph.Prelude.{suc, ◌≡◌, ◌&&◌, not, some, if◌then◌else◌, length, ◌==◌}
use turbograph.Prelude.Keys.{string_key}
use turbograph.Rag.Store.{Store, versions_of, last_is, record_version}
use turbograph.Rag.Store.Tests.{plain_sorts, empty}
use turbograph.Rag.Store.History.{doc_version_text}
use turbograph.Rag.Store.History.Versions.{record_version_lem}

abbrev first : Store plain_sorts
first = record_version 5 "report" "a" "text" 1 empty

record_version_lem_example :
    doc_version_text "report" 2 (record_version 6 "report" "b" "new text" 1 first) ≡ (
      if str_eq "report" "report"
        && not (last_is "b" (versions_of "report" first))
        && (2 == suc (length (versions_of "report" first)))
      then some "new text"
      else doc_version_text "report" 2 first)
record_version_lem_example = record_version_lem 6 "report" "b" "new text" 1 first "report" 2
