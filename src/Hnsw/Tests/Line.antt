-- ===== src/Hnsw/Tests/Line.antt =====
-- An index of points on a line.
use turbograph.Prelude.{
  ℕ, zero, suc, ◌+◌, ◌-◌, refl, List, [], ◌∷◌, some, if◌then◌else◌, ltb, leb, ◌==◌, arith,
}
use turbograph.Heap.Tests.Sorting.{sort_by, sort_by-SameItems}
use turbograph.Heap.Array.{SameItems}
use turbograph.Hnsw.{Space, Hnsw, HnswConfig, Candidate}
use turbograph.Hnsw.Walk.{IsStrict}
use turbograph.Hnsw.Well.{IsLinked}
use turbograph.Hnsw.Grow.{IsWell}

-- the levels of the nodes are drawn from a list
abbrev pub line : Space
line = record {
  Vec = ℕ;
  Dist = ℕ;
  Rng = List ℕ;
  len = λ _. 1;
  is_zero = λ v. v == 0;
  normalize = λ _ v. v;
  distance = λ a b. (a - b) + (b - a);
  below = ltb;
  at_most = leb;
  seeded = λ n. n ∷ [];
  draw = λ m levels. elim levels [ [] ↦ (0, []) | (l ∷ ls) ↦ (l, ls) ];
}

pub line-IsStrict : IsStrict line
line-IsStrict = record { irrefl = λ a. ground arith; trans = λ a b c h k. ground arith }

abbrev pub by_distance : List (Candidate line) → List (Candidate line)
by_distance = sort_by (λ c d. ltb c.dist d.dist)

pub by_distance-SameItems : (cs : List (Candidate line)) → SameItems (by_distance cs) cs
by_distance-SameItems = sort_by-SameItems (λ c d. ltb c.dist d.dist)

abbrev pub small : HnswConfig
small = record { m = 2; ef_construction = 8; seed = 1 }

-- two linked points, of which the second has two levels
abbrev pub two : Hnsw line
two = record {
  dim = 1;
  m = 2;
  m0 = 4;
  ef_cons = 8;
  rng = 1 ∷ [];
  rows = 10 ∷ 40 ∷ [];
  ids = "ten" ∷ "forty" ∷ [];
  id_ord = ("ten", 0) ∷ ("forty", 1) ∷ [];
  nodes =
      record { level = 0; friends = (1 ∷ []) ∷ [] }
      ∷ record { level = 1; friends = (0 ∷ []) ∷ [] ∷ [] }
      ∷ [];
  entry = some 1;
  top = 1;
}

pub two-IsWell : IsWell two
unfolding IsLinked
two-IsWell = record {
  rows_fit = refl;
  ids_fit = refl;
  entered = λ e at. ground arith;
  linked = two_linked;
}
  where
    two_linked : IsLinked (λ l. if l == 0 then 4 else 2) two.nodes
    two_linked zero zero = ((refl, tt), omega arith)
    two_linked zero (suc l) = (tt, omega arith)
    two_linked (suc zero) zero = ((refl, tt), omega arith)
    two_linked (suc zero) (suc zero) = (tt, omega arith)
    two_linked (suc zero) (suc (suc l)) = (tt, omega arith)
    two_linked (suc (suc i)) l = (tt, omega arith)
