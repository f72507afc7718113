-- ===== src/Hnsw/Search.antt =====
-- index/hnsw.go: the descent through the layers, and the search of one layer.
use Prim.Native.String.{String}
use mathlib.Core.Option
use turbograph.Prelude.{
  ℕ, zero, suc, Bool, true, false, ◌&&◌, ◌||◌, List, [], ◌∷◌, map, Option, none, some,
  if◌then◌else◌, length, take, get_elem?, ltb, leb, ◌==◌,
}
use turbograph.Heap.{push, pop}
use turbograph.Hnsw.Marks.{VisitedSet, new_visited, reset, mark, seen}
use turbograph.Hnsw.Graph.{Space, Hnsw, Candidate, links_of, normalized, dist_to_node}

-- the variables of greedyDescend
pub record Descent (σ : Space) : Type 0 where
  pub best : ℕ
  pub best_d : σ.Dist
  pub improved : Bool

-- the variables of searchLayerFiltered
pub record Frontier (σ : Space) : Type 0 where
  pub visited : VisitedSet
  pub cand : List (Candidate σ)
  pub result : List (Candidate σ)

module _ {σ : Space} where
  -- the tests of minHeap and maxHeap
  abbrev pub nearer : Candidate σ → Candidate σ → Bool
  nearer a b = σ.below a.dist b.dist

  abbrev pub farther : Candidate σ → Candidate σ → Bool
  farther a b = σ.below b.dist a.dist

  abbrev pub no_farther : Candidate σ → Candidate σ → Bool
  no_farther a b = σ.at_most a.dist b.dist

  abbrev pub no_nearer : Candidate σ → Candidate σ → Bool
  no_nearer a b = σ.at_most b.dist a.dist

  -- push and pop of minHeap and maxHeap
  abbrev pub min_push : Candidate σ → List (Candidate σ) → List (Candidate σ)
  min_push = push no_farther

  abbrev pub max_push : Candidate σ → List (Candidate σ) → List (Candidate σ)
  max_push = push no_nearer

  abbrev pub min_pop : List (Candidate σ) → Option (Candidate σ × List (Candidate σ))
  min_pop = pop nearer

  abbrev pub max_pop : List (Candidate σ) → Option (Candidate σ × List (Candidate σ))
  max_pop = pop farther

  module _ (h : Hnsw σ) (q : σ.Vec) where
    -- a neighbor of `links_of` has a row
    abbrev pub improve : ℕ → Descent σ → Descent σ
    improve nb s = elim (dist_to_node h q nb) [
      | none ↦ s
      | some d ↦ if σ.below d s.best_d then record { best = nb; best_d = d; improved = true } else s
    ]

    -- the loop over the neighbors
    unfoldable pub improve_all : List ℕ → Descent σ → Descent σ
    improve_all [] s = s
    improve_all (nb ∷ nbs) s = improve_all nbs (improve nb s)

    -- `none` where the turns run out, or a link is out of range
    unfoldable pub descend : ℕ → ℕ → ℕ → σ.Dist → Option ℕ
    descend zero level best d = none
    descend (suc k) level best d = elim (links_of h best level) [
      | none ↦ none
      | some nbs ↦
          let s = improve_all nbs (record { best = best; best_d = d; improved = false }) in
          let rest = descend k level s.best s.best_d in if s.improved then rest else some best
    ]

    -- a turn for each node, and one in which nothing is nearer
    unfoldable pub greedy_descend : ℕ → ℕ → Option ℕ
    greedy_descend ep level = elim (dist_to_node h q ep) [
      | none ↦ none
      | some d ↦ descend (suc (length h.nodes)) level ep d
    ]

    module _ (accept : ℕ → Bool) (ef level : ℕ) where
      -- `result.Len() < ef || d < (*result)[0].dist`
      abbrev pub is_wanted : σ.Dist → List (Candidate σ) → Bool
      is_wanted d result =
          ltb (length result) ef
          || (elim (get_elem? result 0) [ none ↦ false | some worst ↦ σ.below d worst.dist ])

      -- the result with a node that is accepted, cut back to `ef`
      unfoldable pub admit : Candidate σ → List (Candidate σ) → List (Candidate σ)
      admit c result =
          let more = max_push c result in
          if ltb ef (length more)
          then (elim (max_pop more) [ none ↦ more | some r ↦ r.1 ])
          else more

      -- the body of the loop over the neighbors, for a node with its distance
      unfoldable pub meet : Candidate σ → Frontier σ → Frontier σ
      meet c s =
          let wanted = is_wanted c.dist s.result in
          let marked = mark c.id s.visited in
          if seen c.id s.visited then s else record {
            visited = marked;
            cand = if wanted then min_push c s.cand else s.cand;
            result = if wanted && accept c.id then admit c s.result else s.result;
          }

      unfoldable pub visit : ℕ → Frontier σ → Frontier σ
      visit nb s = elim (dist_to_node h q nb) [
        | none ↦ s
        | some d ↦ meet (record { id = nb; dist = d }) s
      ]

      unfoldable pub visit_all : List ℕ → Frontier σ → Frontier σ
      visit_all [] s = s
      visit_all (nb ∷ nbs) s = visit_all nbs (visit nb s)

      -- the test that ends the search
      abbrev pub is_over : Candidate σ → List (Candidate σ) → Bool
      is_over c result =
          leb ef (length result)
          && (elim (get_elem? result 0) [ none ↦ false | some worst ↦ σ.below worst.dist c.dist ])

      -- `none` where the turns run out, or a link is out of range
      unfoldable pub search_loop : ℕ → Frontier σ → Option (List (Candidate σ))
      search_loop zero s = none
      search_loop (suc k) s = elim (min_pop s.cand) [
        | none ↦ some s.result
        | some r ↦
            let rest : Option (List (Candidate σ)) = elim (links_of h r.0.id level) [
              | none ↦ none
              | some nbs ↦ search_loop k (visit_all nbs (record s { cand = r.1 }))
            ] in
            if is_over r.0 s.result then some s.result else rest
      ]

      abbrev pub start_at : ℕ → σ.Dist → Frontier σ
      start_at ep d = record {
        visited = mark ep (reset (length h.nodes) new_visited);
        cand = record { id = ep; dist = d } ∷ [];
        result = if accept ep then record { id = ep; dist = d } ∷ [] else [];
      }

      -- searchLayerFiltered, before its result is sorted: a turn for each node, and one more
      unfoldable pub search_layer : ℕ → Option (List (Candidate σ))
      search_layer ep = elim (dist_to_node h q ep) [
        | none ↦ none
        | some d ↦ search_loop (suc (length h.nodes)) (start_at ep d)
      ]

  -- the loop of Search over the upper layers, from `l` down
  unfoldable pub descend_to_ground : Hnsw σ → σ.Vec → ℕ → ℕ → Option ℕ
  descend_to_ground h q zero ep = some ep
  descend_to_ground h q (suc l) ep = elim (greedy_descend h q ep (suc l)) [
    | none ↦ none
    | some e ↦ descend_to_ground h q l e
  ]

  abbrev pub id_at : Hnsw σ → Candidate σ → String
  id_at h c = elim (get_elem? h.ids c.id) [ none ↦ "" | some id ↦ id ]

  -- `sort.Slice` by distance is the argument `sort`
  module _ (sort : List (Candidate σ) → List (Candidate σ)) where
    -- SearchFiltered; Search accepts every node. A hit is its id with its distance. The outer
    -- `none` is for a query that is too long, a link out of range, or turns that run out.
    unfoldable pub search :
        Hnsw σ → σ.Vec → ℕ → ℕ → (String → Bool) → Option (List (String × σ.Dist))
    search h query k ef accept =
        let width = if ltb ef k then k else ef in
        let pred : ℕ → Bool =
          λ ord. elim (get_elem? h.ids ord) [ none ↦ false | some id ↦ accept id ] in
        elim h.entry [
          | none ↦ some []
          | some entry ↦ if k == 0 then some [] else elim (normalized h query) [
            | none ↦ none
            | some norm ↦ elim (descend_to_ground h norm h.top entry) [
              | none ↦ none
              | some ep ↦
                  Option.map (λ cs. map (λ c. (id_at h c, c.dist)) (take k (sort cs)))
                    (search_layer h norm pred width 0 ep)
            ]
          ]
        ]
