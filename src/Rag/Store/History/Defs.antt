-- ===== src/Rag/Store/History/Defs.antt =====
-- rag/versions.go: DocVersions and DocVersionText. A version number below one counts as zero.
use Prim.Native.String.{String}
use turbograph.Prelude.{
  ℕ, suc, ◌-◌, Bool, ◌||◌, List, [], ◌∷◌, Option, none, if◌then◌else◌, length, get_elem?, ltb, ◌==◌,
}
use mathlib.Core.Option
use turbograph.Prelude.Keys.{string_key}
use turbograph.Rag.Store.{Sorts, DocVersion, Store, versions_of}

-- hex.EncodeToString of the first four bytes of a hash, and the length of a string in bytes
pub record Printing (τ : Sorts) : Type 0 where
  pub short : τ.Hash → String
  pub bytes : String → ℕ

-- DocVersion, the metadata of a version
pub record VersionInfo : Type 0 where
  pub n : ℕ
  pub hash : String
  pub time : ℕ
  pub bytes : ℕ
  pub chunks : ℕ
  pub current : Bool

module _ {τ : Sorts} (p : Printing τ) where
  abbrev pub describe_version : ℕ → ℕ → DocVersion τ → VersionInfo
  describe_version count i v = record {
    n = suc i;
    hash = p.short v.hash;
    time = v.time;
    bytes = p.bytes v.text;
    chunks = v.chunks;
    current = i == count - 1;
  }

  -- the loop of DocVersions, from the i-th version on
  unfoldable pub describe_from : ℕ → ℕ → List (DocVersion τ) → List VersionInfo
  describe_from count i [] = []
  describe_from count i (v ∷ vs) = describe_version count i v ∷ describe_from count (suc i) vs

  unfoldable pub doc_versions : String → Store τ → List VersionInfo
  doc_versions id s = let vs = versions_of id s in describe_from (length vs) 0 vs

unfoldable pub doc_version_text : {τ : Sorts} → String → ℕ → Store τ → Option String
doc_version_text id n s =
    let vs = versions_of id s in
    if ltb n 1 || ltb (length vs) n then none else Option.map (λ v. v.text) (get_elem? vs (n - 1))
