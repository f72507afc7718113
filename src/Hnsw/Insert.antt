-- ===== src/Hnsw/Insert.antt =====
-- index/hnsw.go: inserting a vector, and indexes made from links that were exported.
use Prim.Native.String.{String}
use mathlib.Core.Option
use turbograph.Prelude.{
  ℕ, zero, suc, Bool, true, false, not, ◌||◌, List, [], ◌∷◌, ◌++◌, map, Option, none, some,
  if◌then◌else◌, length, get_elem?, set, replicate, any, ltb, leb, ◌==◌, min,
}
use turbograph.Prelude.Keys.{string_key}
use turbograph.Prelude.Assoc.{insert}
use turbograph.Hnsw.Graph.{
  Space, Node, Hnsw, HnswConfig, Candidate, friends_of, normalized, new_hnsw,
}
use turbograph.Hnsw.Search.{greedy_descend, search_layer}

-- Graph, the links without the vectors
pub record Links : Type 0 where
  pub entry : Option ℕ
  pub top : ℕ
  pub levels : List ℕ
  pub friends : List (List (List ℕ))

-- `nodes[i].friends[l] = f`
unfoldable pub set_friends : ℕ → ℕ → List ℕ → List Node → List Node
set_friends i l f nodes = elim (get_elem? nodes i) [
  | none ↦ nodes
  | some n ↦ set nodes i (record n { friends = set n.friends l f })
]

-- the ids in the order of their ordinals
unfoldable pub number_from : ℕ → List String → List (String × ℕ) → List (String × ℕ)
number_from i [] m = m
number_from i (id ∷ ids) m = number_from (suc i) ids (insert id i m)

unfoldable pub nodes_of : List ℕ → List (List (List ℕ)) → List Node
nodes_of (l ∷ ls) (f ∷ fs) = record { level = l; friends = f } ∷ nodes_of ls fs
nodes_of _ _ = []

-- the distance of two rows
abbrev pub row_distance : (σ : Space) → List σ.Vec → ℕ → ℕ → Option σ.Dist
row_distance σ rows a b = elim (get_elem? rows a) [
  | none ↦ none
  | some v ↦ Option.map (σ.distance v) (get_elem? rows b)
]

module _ {σ : Space} where
  -- whether a selected node is nearer to the candidate than the query is
  abbrev pub shadows : List σ.Vec → Candidate σ → ℕ → Bool
  shadows rows c s = elim (row_distance σ rows c.id s) [ none ↦ false | some d ↦ σ.below d c.dist ]

  -- the loop of selectNeighbors
  unfoldable pub select_from : List σ.Vec → ℕ → List (Candidate σ) → List ℕ → List ℕ
  select_from rows m [] selected = selected
  select_from rows m (c ∷ cs) selected =
      let rest =
        select_from rows m cs
          (if any (shadows rows c) selected then selected else selected ++ c.id ∷ []) in
      if leb m (length selected) then selected else rest

  unfoldable pub select_neighbors : List σ.Vec → List (Candidate σ) → ℕ → List ℕ
  select_neighbors rows cands m = select_from rows m cands []

  -- the friends of a node with their distances to it
  unfoldable pub measured : List σ.Vec → ℕ → List ℕ → List (Candidate σ)
  measured rows node [] = []
  measured rows node (f ∷ fs) =
      let rest = measured rows node fs in
      elim (row_distance σ rows node f) [
        | none ↦ rest
        | some d ↦ record { id = f; dist = d } ∷ rest
      ]

  abbrev pub max_conn_at : Hnsw σ → ℕ → ℕ
  max_conn_at h l = if l == 0 then h.m0 else h.m

  abbrev pub next_entry : ℕ → List (Candidate σ) → ℕ
  next_entry ep [] = ep
  next_entry ep (c ∷ cs) = c.id

  -- the loop that descends to the level of the new node
  unfoldable pub descend_to : Hnsw σ → σ.Vec → ℕ → ℕ → ℕ → Option ℕ
  descend_to h q level zero ep = some ep
  descend_to h q level (suc l) ep =
      let rest : Option ℕ = elim (greedy_descend h q ep (suc l)) [
        | none ↦ none
        | some e ↦ descend_to h q level l e
      ] in
      if ltb level (suc l) then rest else some ep

  -- the new node, not yet linked
  unfoldable pub append_node : String → σ.Vec → Hnsw σ → Hnsw σ
  append_node id norm h = record h {
    rows = h.rows ++ norm ∷ [];
    ids = h.ids ++ id ∷ [];
    id_ord = insert id (length h.ids) h.id_ord;
    nodes =
        h.nodes
        ++ record {
          level = (σ.draw h.m h.rng).0;
          friends = replicate (suc (σ.draw h.m h.rng).0) [];
        }
          ∷ [];
    rng = (σ.draw h.m h.rng).1;
  }

  -- the new node becomes the entry where it is above the others
  abbrev pub crown : ℕ → ℕ → Hnsw σ → Hnsw σ
  crown cur level h = if ltb h.top level then record h { top = level; entry = some cur } else h

  module _ (sort : List (Candidate σ) → List (Candidate σ)) where
    unfoldable pub prune_connections : List σ.Vec → ℕ → List ℕ → ℕ → List ℕ
    prune_connections rows node friends m =
        select_neighbors rows (sort (measured rows node friends)) m

    -- the reverse link of a neighbor, cut back where it has too many
    unfoldable pub link_back : List σ.Vec → ℕ → ℕ → ℕ → ℕ → List Node → List Node
    link_back rows cur l max_conn nb nodes =
        let f = friends_of nodes nb l ++ cur ∷ [] in
        set_friends nb l
          (if ltb max_conn (length f) then prune_connections rows nb f max_conn else f) nodes

    unfoldable pub link_all : List σ.Vec → ℕ → ℕ → ℕ → List ℕ → List Node → List Node
    link_all rows cur l max_conn [] nodes = nodes
    link_all rows cur l max_conn (nb ∷ nbs) nodes =
        link_all rows cur l max_conn nbs (link_back rows cur l max_conn nb nodes)

    -- the body of the loop of Add over the levels, from what the search of the level found
    unfoldable pub connect : ℕ → ℕ → List (Candidate σ) → Hnsw σ → Hnsw σ
    connect cur l cands h =
        let neighbors = select_neighbors h.rows cands (max_conn_at h l) in
        record h {
          nodes =
              link_all h.rows cur l (max_conn_at h l) neighbors
                (set_friends cur l neighbors h.nodes);
        }

    -- the loop over the levels from `l` down; `none` where the turns of a search run out
    unfoldable pub connect_down : σ.Vec → ℕ → ℕ → ℕ → Hnsw σ → Option (Hnsw σ)
    connect_down q cur zero ep h = elim (search_layer h q (λ _. true) h.ef_cons 0 ep) [
      | none ↦ none
      | some found ↦ some (connect cur 0 (sort found) h)
    ]
    connect_down q cur (suc l) ep h = elim (search_layer h q (λ _. true) h.ef_cons (suc l) ep) [
      | none ↦ none
      | some found ↦
          connect_down q cur l (next_entry ep (sort found)) (connect cur (suc l) (sort found) h)
    ]

    -- a vector that is too long stops the program, which is `none`
    unfoldable pub add_vector : String → σ.Vec → Hnsw σ → Option (Hnsw σ × ℕ)
    add_vector id vec h =
        let cur = length h.ids in
        let level = (σ.draw h.m h.rng).0 in
        elim (normalized h vec) [
          | none ↦ none
          | some norm ↦
              let g = append_node id norm h in
              elim h.entry [
                | none ↦ some (record g { entry = some cur; top = level }, cur)
                | some entry ↦ elim (descend_to g norm level h.top entry) [
                  | none ↦ none
                  | some ep ↦
                      Option.map (λ k. (crown cur level k, cur))
                        (connect_down norm cur (min level h.top) ep g)
                ]
              ]
        ]

  -- Snapshot
  unfoldable pub snapshot : Hnsw σ → Links
  snapshot h = record {
    entry = h.entry;
    top = h.top;
    levels = map (λ n. n.level) h.nodes;
    friends = map (λ n. n.friends) h.nodes;
  }

  abbrev pub assemble : ℕ → HnswConfig → List String → List σ.Vec → Links → Hnsw σ
  assemble dim cfg ids rows g = record (new_hnsw {σ = σ} dim cfg) {
    rows = rows;
    ids = ids;
    id_ord = number_from 0 ids [];
    nodes = nodes_of g.levels g.friends;
    entry = g.entry;
    top = g.top;
  }

  unfoldable pub restore_hnsw : ℕ → HnswConfig → List String → List σ.Vec → Links → Option (Hnsw σ)
  restore_hnsw dim cfg ids vecs g =
      if not (length ids == length vecs)
        || not (length g.levels == length ids)
        || not (length g.friends == length ids)
      then none
      else if any (λ v. not (σ.len v == dim)) vecs
      then none
      else some (assemble dim cfg ids (map (σ.normalize dim) vecs) g)

  -- the buffer is given by its rows, and whether it has a row of the dimension for each id
  unfoldable pub adopt_flat :
      ℕ → HnswConfig → List String → List σ.Vec → Bool → Links → Option (Hnsw σ)
  adopt_flat dim cfg ids rows fits g =
      if length ids == 0
        || not fits
        || not (length g.levels == length ids)
        || not (length g.friends == length ids)
      then none
      else some (assemble dim cfg ids (map (σ.normalize dim) rows) g)
