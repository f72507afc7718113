-- ===== src/Rag/Store/History/Versions.antt =====
-- What recordVersionLocked of rag/versions.go adds to a history, and what a listing shows.
use Prim.Native.String.{String}
use text.Mathlib.Text.{◌==◌ as str_eq}
use text.Mathlib.TextEquality.{eq_iff}
use turbograph.Prelude.{
  ℕ, suc, ◌-◌, ◌≡◌, ◌&&◌, not, [], ◌∷◌, ◌++◌, some, if◌then◌else◌, length, ◌==◌, arith,
  length-append, get_elem?-snoc, get_elem?-lt,
}
use turbograph.Prelude.Keys.{Eq, string_key}
use turbograph.Prelude.Assoc.{lookup-insert}
use turbograph.Rag.Store.{Sorts, Store, versions_of, last_is, record_version}
use turbograph.Rag.Store.History.{doc_version_text}

module _ {τ : Sorts} ⦃e : Eq τ.Hash⦄ where
  versions_of-record_version :
      (now : ℕ) (id : String) (h : τ.Hash) (text : String) (chunks : ℕ) (s : Store τ)
      (other : String)
      → versions_of other (record_version now id h text chunks s) ≡ (
          if str_eq id other && not (last_is h (versions_of id s))
          then versions_of id s
            ++ record { hash = h; time = now; text = text; chunks = chunks } ∷ []
          else versions_of other s)
  unfolding record_version
  versions_of-record_version now id h text chunks s other = ground (
    arith,
    lookup-insert id other
        (versions_of id s ++ record { hash = h; time = now; text = text; chunks = chunks } ∷ [])
        s.versions,
    eq_iff id other,
  )

  -- Recording a content adds one version, whose text is read back under the next number, unless
  -- the newest version has the same hash. Every version before it, and every version of another
  -- document, is read as before.
  pub record_version_lem :
      (now : ℕ) (id : String) (h : τ.Hash) (text : String) (chunks : ℕ) (s : Store τ)
      (other : String) (n : ℕ)
      → doc_version_text other n (record_version now id h text chunks s) ≡ (
          if str_eq id other
            && not (last_is h (versions_of id s))
            && (n == suc (length (versions_of id s)))
          then some text
          else doc_version_text other n s)
  unfolding doc_version_text
  record_version_lem now id h text chunks s other n = ground (
    arith,
    versions_of-record_version now id h text chunks s other,
    length-append (versions_of id s)
        (record { hash = h; time = now; text = text; chunks = chunks } ∷ []),
    get_elem?-snoc (versions_of id s)
        (record { hash = h; time = now; text = text; chunks = chunks }) (n - 1),
    get_elem?-lt (versions_of id s) (n - 1),
    eq_iff id other,
  )
