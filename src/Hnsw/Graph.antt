-- ===== src/Hnsw/Graph.antt =====
-- index/hnsw.go: the state of the layered graph. An ordinal is a natural number: there are fewer
-- than 2^31 nodes. The rows of the flat buffer are a list of vectors.
use Prim.Native.String.{String}
use mathlib.Core.Option
use turbograph.Prelude.{
  ◌&&◌, ltb, leb, not, any, ◌>>=◌, ℕ, ◌*◌, Bool, List, [], Option, none, some, if◌then◌else◌,
  length, get_elem?, ◌==◌,
}
use turbograph.Prelude.Keys.{string_key}
use turbograph.Prelude.Assoc.{lookup}

-- The floating-point part: vectors and their length, the test on a vector of norm 0, normalization to a dimension, the distance
-- `1 - dotf(a, b)`, the tests `<` and `<=` on distances, and the level that the generator draws.
pub record Space : Type 1 where
  pub Vec : Type 0
  pub Dist : Type 0
  pub Rng : Type 0
  pub len : Vec → ℕ
  pub is_zero : Vec → Bool
  pub normalize : ℕ → Vec → Vec
  pub distance : Vec → Vec → Dist
  pub below : Dist → Dist → Bool
  pub at_most : Dist → Dist → Bool
  pub seeded : ℕ → Rng
  pub draw : ℕ → Rng → ℕ × Rng

-- hnswNode
pub record Node : Type 0 where
  pub level : ℕ
  pub friends : List (List ℕ)

pub record Hnsw (σ : Space) : Type 0 where
  pub dim : ℕ
  pub m : ℕ
  pub m0 : ℕ
  pub ef_cons : ℕ
  pub rng : σ.Rng
  pub rows : List σ.Vec
  pub ids : List String
  pub id_ord : List (String × ℕ)
  pub nodes : List Node
  pub entry : Option ℕ
  pub top : ℕ

-- HNSWConfig, where a number below one counts as zero
pub record HnswConfig : Type 0 where
  pub m : ℕ
  pub ef_construction : ℕ
  pub seed : ℕ

pub record Candidate (σ : Space) : Type 0 where
  pub id : ℕ
  pub dist : σ.Dist

abbrev pub or_default : ℕ → ℕ → ℕ
or_default d n = if n == 0 then d else n

-- the neighbors of a node at a level, or none
abbrev pub friends_of : List Node → ℕ → ℕ → List ℕ
friends_of nodes i l = elim (get_elem? nodes i) [
  | none ↦ []
  | some n ↦ elim (get_elem? n.friends l) [ none ↦ [] | some f ↦ f ]
]

module _ {σ : Space} where
  unfoldable pub new_hnsw : ℕ → HnswConfig → Hnsw σ
  new_hnsw dim cfg =
      let m = or_default 16 cfg.m in
      record {
        dim = dim;
        m = m;
        m0 = 2 * m;
        ef_cons = or_default 200 cfg.ef_construction;
        rng = σ.seeded cfg.seed;
        rows = [];
        ids = [];
        id_ord = [];
        nodes = [];
        entry = none;
        top = 0;
      }

  -- normalize into a vector of the dimension of the index: a longer one, unless it is zero, stops the program,
  -- which is `none`
  unfoldable pub normalized : Hnsw σ → σ.Vec → Option σ.Vec
  normalized h v =
      if ltb h.dim (σ.len v) && not (σ.is_zero v) then none else some (σ.normalize h.dim v)

  -- the list `h.nodes[i].friends[l]` that a loop goes over; a node, a level or a neighbor out of
  -- range stops the program, which is `none`
  unfoldable pub links_of : Hnsw σ → ℕ → ℕ → Option (List ℕ)
  links_of h i l = do
    n ← get_elem? h.nodes i
    fs ← get_elem? n.friends l
    if any (λ f. leb (length h.rows) f) fs then none else some fs

  unfoldable pub hnsw_len : Hnsw σ → ℕ
  hnsw_len h = length h.ids

  unfoldable pub ord_of : String → Hnsw σ → Option ℕ
  ord_of id h = lookup id h.id_ord

  -- Vector
  unfoldable pub vector : Hnsw σ → ℕ → Option σ.Vec
  vector h i = get_elem? h.rows i

  -- the distance of a row, if there is one, to the query
  unfoldable pub dist_to_node : Hnsw σ → σ.Vec → ℕ → Option σ.Dist
  dist_to_node h q i = Option.map (σ.distance q) (get_elem? h.rows i)
