-- ===== src/Graph/Defs.antt =====
-- Builder and its rows (graph/graph.go). A node is a natural number, so that the guards against
-- negative nodes have no counterpart. A weight is of a type with an order, as float32 is.
use turbograph.Prelude.{
  ℕ, Bool, true, not, ◌||◌, List, [], Option, none, some, if◌then◌else◌, get_elem?, set, replicate,
  leb, ◌==◌,
}
use turbograph.Prelude.Keys.{nat_key}
use turbograph.Prelude.Assoc.{lookup, insert}

-- what the builder asks of a weight: `w > 0` and `w > cur`
pub record Weights : Type 1 where
  pub Weight : Type 0
  pub is_positive : Weight → Bool
  pub above : Weight → Weight → Bool

pub record Builder (ω : Weights) : Type 0 where
  pub n : ℕ
  pub adj : List (List (ℕ × ω.Weight))

-- the test `!ok || w > cur`
abbrev pub improves : (ω : Weights) → ω.Weight → Option ω.Weight → Bool
improves ω w none = true
improves ω w (some cur) = ω.above w cur

module _ {ω : Weights} where
  unfoldable pub new_builder : ℕ → Builder ω
  new_builder n = record { n = n; adj = replicate n [] }

  abbrev pub row : Builder ω → ℕ → List (ℕ × ω.Weight)
  row b i = elim (get_elem? b.adj i) [ none ↦ [] | some r ↦ r ]

  -- `b.adj[i][j]`
  abbrev pub edge : Builder ω → ℕ → ℕ → Option ω.Weight
  edge b i j = lookup j (row b i)

  -- `b.adj[i][j] = w`
  unfoldable pub put_edge : ℕ → ℕ → ω.Weight → Builder ω → Builder ω
  put_edge i j w b = record b { adj = set b.adj i (insert j w (row b i)) }

  unfoldable pub add_edge : ℕ → ℕ → ω.Weight → Builder ω → Builder ω
  add_edge a bb w b =
      if a == bb || leb b.n a || leb b.n bb || not (ω.is_positive w)
      then b
      else if improves ω w (edge b a bb)
      then put_edge bb a w (put_edge a bb w b)
      else b
