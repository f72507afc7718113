-- ===== src/Graph/Community.antt =====
-- compact of graph/community.go, and the readers of its result. A label is a natural number.
use turbograph.Prelude.{
  ℕ, suc, List, [], ◌∷◌, ◌++◌, Option, none, some, if◌then◌else◌, length, get_elem?, set, ltb,
}
use turbograph.Prelude.Keys.{nat_key}
use turbograph.Prelude.Assoc.{lookup, insert}

pub record Communities : Type 0 where
  pub labels : List ℕ
  pub members : List (List ℕ)
  pub num : ℕ

-- the variables of the loop of compact
pub record Compacting : Type 0 where
  pub remap : List (ℕ × ℕ)
  pub out : List ℕ
  pub members : List (List ℕ)

-- `members[c] = append(members[c], node)`
unfoldable pub add_member : ℕ → ℕ → List (List ℕ) → List (List ℕ)
add_member c node ms = elim (get_elem? ms c) [ none ↦ ms | some m ↦ set ms c (m ++ node ∷ []) ]

unfoldable pub assign : ℕ → ℕ → Compacting → Compacting
assign node lab s = elim (lookup lab s.remap) [
  | some c ↦ record s { out = s.out ++ c ∷ []; members = add_member c node s.members }
  | none ↦
      let c = length s.members in
      record {
        remap = insert lab c s.remap;
        out = s.out ++ c ∷ [];
        members = add_member c node (s.members ++ [] ∷ []);
      }
]

unfoldable pub compact_from : ℕ → List ℕ → Compacting → Compacting
compact_from node [] s = s
compact_from node (lab ∷ labs) s = compact_from (suc node) labs (assign node lab s)

unfoldable pub compact : List ℕ → Communities
compact labs =
    let s = compact_from 0 labs (record { remap = []; out = []; members = [] }) in
    record { labels = s.out; members = s.members; num = length s.members }

-- Label, where `none` is -1
unfoldable pub label : Communities → ℕ → Option ℕ
label c node = get_elem? c.labels node

unfoldable pub members_of : Communities → ℕ → List ℕ
members_of c comm = elim (get_elem? c.members comm) [
  | none ↦ []
  | some m ↦ if ltb comm c.num then m else []
]
