-- ===== src/Rag/Chunk.antt =====
-- rag/chunk.go: a chunk, and the text by which it is indexed.
-- The offsets Start and End, both -1 for a chunk that was not located, are an optional pair.
use Prim.Native.String.{String, ◌++◌ as concat}
use text.Mathlib.Text.{◌==◌ as str_eq}
use turbograph.Prelude.{ℕ, Option, if◌then◌else◌}

pub record Chunk : Type 0 where
  pub id : String
  pub doc_id : String
  pub pos : ℕ
  pub text : String
  pub span : Option (ℕ × ℕ)
  pub kind : String
  pub image_ref : String
  pub context : String

-- IndexText: the contextual prefix, if there is one, and the body
unfoldable pub index_text : Chunk → String
index_text c = if str_eq c.context "" then c.text else concat (concat c.context "\n\n") c.text
