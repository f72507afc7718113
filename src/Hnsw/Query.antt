-- ===== src/Hnsw/Query.antt =====
-- index/hnsw.go: the search of the index.
use Prim.Native.String.{String}
use mathlib.Core.Option
use turbograph.Prelude.{
  ℕ, zero, suc, ◌≤◌, ◌≡◌, refl, ap, ◌∙◌, inl, inr, Bool, true, false, not, List, [], ◌∷◌, map, take,
  Option, none, some, if◌then◌else◌, length, length-take, get_elem?, ltb, ◌==◌, arith, if_cases,
  match_cases, Option-cases, All,
}
use turbograph.Heap.Array.{SameItems}
use turbograph.Hnsw.{Space, Hnsw, Candidate, search_layer, descend_to_ground, id_at, search}
use turbograph.Hnsw.InRange.{normalized-some}
use turbograph.Hnsw.Well.{has_level, IsLinked}
use turbograph.Hnsw.Connect.{count-All, sort-All}
use turbograph.Hnsw.Total.{search_layer-some}
use turbograph.Hnsw.Layer.{search_layer-rejects}
use turbograph.Hnsw.Walk.{IsStrict, greedy_descend-IsFound, greedy_descend-kept}
use turbograph.Hnsw.Extend.{has_level-le}
use turbograph.Hnsw.Grow.{IsWell}

All-take {ℓ κ} : {A : Type ℓ} (P : A → Type κ) (k : ℕ) (xs : List A) → All P xs → All P (take k xs)
All-take P zero xs h = tt
All-take P (suc k) [] h = tt
All-take P (suc k) (x ∷ xs) h = (h.0, All-take P k xs h.1)

pub length-map {ℓ κ} :
    {A : Type ℓ} {B : Type κ} (f : A → B) (xs : List A) → length (map f xs) ≡ length xs
length-map f [] = refl
length-map f (x ∷ xs) = ap suc (length-map f xs)

module _ {σ : Space} (h : Hnsw σ) where
  -- whether the id of an ordinal is accepted
  abbrev passes : (String → Bool) → ℕ → Bool
  passes accept ord = elim (get_elem? h.ids ord) [ none ↦ false | some id ↦ accept id ]

  -- a hit is an accepted id of the index
  abbrev pub IsHit : (String → Bool) → String × σ.Dist → Type 0
  IsHit accept hit = (accept hit.0 ≡ true) × ((ord : ℕ) × (get_elem? h.ids ord ≡ some hit.0))

  id_at-IsHit :
      (accept : String → Bool) (cs : List (Candidate σ))
      → All (λ (c : Candidate σ). passes accept c.id ≡ true) cs
      → All (IsHit accept) (map (λ c. (id_at h c, c.dist)) cs)
  id_at-IsHit accept [] a = tt
  id_at-IsHit accept (c ∷ cs) a = (
    elim (Option-cases (get_elem? h.ids c.id)) [
      | inl missing ↦ absurd (ground (arith, missing, a.0))
      | inr (id, found) ↦ (ground (arith, found, a.0), (c.id, ground (arith, found)))
    ],
    id_at-IsHit accept cs a.1,
  )

module _ {σ : Space} (order : IsStrict σ) (h : Hnsw σ) (w : IsWell h) where
  descend_to_ground-some :
      (q : σ.Vec) (l ep : ℕ)
      → has_level h.nodes ep l ≡ true
      → (found : ℕ) × (descend_to_ground h q l ep ≡ some found) × (has_level h.nodes found 0 ≡ true)
  unfolding descend_to_ground IsLinked
  descend_to_ground-some q zero ep there = (ep, refl, there)
  descend_to_ground-some q (suc l) ep there =
      let (e, walked, _) =
        greedy_descend-IsFound h q order w.rows_fit ep (suc l) (λ i. (w.linked i (suc l)).0)
          there in
      let high : has_level h.nodes e (suc l) ≡ true =
        greedy_descend-kept h q (λ i. has_level h.nodes i (suc l) ≡ true) (suc l)
          (λ i. (w.linked i (suc l)).0) ep e there walked in
      let (found, rest, low) =
        descend_to_ground-some q l e (has_level-le h.nodes e l (suc l) (omega arith) high) in
      (
        found,
        ap (λ (o : Option ℕ). elim o [ none ↦ none | some i ↦ descend_to_ground h q l i ]) walked
            ∙ rest,
        low,
      )

  Hits : (String → Bool) → ℕ → Option (List (String × σ.Dist)) → Type 0
  Hits accept k o =
      (hits : List (String × σ.Dist)) × (o ≡ some hits)
      × (length hits ≤ k)
      × All (IsHit h accept) hits

  -- the part of a search below the top
  ground_search-Hits :
      (sort : List (Candidate σ) → List (Candidate σ))
      → ((cs : List (Candidate σ)) → SameItems (sort cs) cs)
      → (q : σ.Vec) (k width : ℕ) (accept : String → Bool) (entry : ℕ) → h.entry ≡ some entry
      → Hits accept k (elim (descend_to_ground h q h.top entry) [
        | none ↦ none
        | some ep ↦
            Option.map
              (λ cs. map (λ c. (id_at h c, c.dist)) (take k (sort cs)))
              (search_layer h q (passes h accept) width 0 ep)
      ])
  unfolding Hits IsLinked
  ground_search-Hits sort permutes q k width accept entry at =
      let hit : Candidate σ → String × σ.Dist = λ c. (id_at h c, c.dist) in
      let (ep, walked, there) = descend_to_ground-some q h.top entry (w.entered entry at) in
      let (found, ends) =
        search_layer-some h q (passes h accept) width 0 ep w.rows_fit (λ i. (w.linked i 0).0)
          there in
      let good : All (λ (c : Candidate σ). passes h accept c.id ≡ true) found =
        count-All (λ (c : Candidate σ). passes h accept c.id) found
          (search_layer-rejects h q (passes h accept) width 0 (λ i. has_level h.nodes i 0 ≡ true)
            (λ c. not (passes h accept c.id)) (λ i. (w.linked i 0).0)
            (λ nb d g there accepted. ap not accepted) ep found there ends) in
      (
        map hit (take k (sort found)),
        ap
              (λ (o : Option ℕ). elim o [
                | none ↦ none
                | some i ↦
                    Option.map (λ cs. map hit (take k (sort cs)))
                      (search_layer h q (passes h accept) width 0 i)
              ])
              walked
            ∙ ap (Option.map (λ cs. map hit (take k (sort cs)))) ends,
        omega (arith, length-map hit (take k (sort found)), length-take k (sort found)),
        id_at-IsHit h accept (take k (sort found)) (
            All-take (λ (c : Candidate σ). passes h accept c.id ≡ true) k (sort found)
              (sort-All sort permutes (λ (c : Candidate σ). passes h accept c.id) found good)),
      )

  -- A search of a well-formed index for a query that is not longer than the dimension ends, with
  -- at most k hits, each of them an id of the index that the filter accepts. Assumed: the
  -- distances are in a strict order, and the sort keeps the entries.
  pub search-IsHit :
      (sort : List (Candidate σ) → List (Candidate σ))
      → ((cs : List (Candidate σ)) → SameItems (sort cs) cs)
      → (query : σ.Vec) (k ef : ℕ) (accept : String → Bool) → σ.len query ≤ h.dim
      → (hits : List (String × σ.Dist)) × (search sort h query k ef accept ≡ some hits)
        × (length hits ≤ k)
        × All (IsHit h accept) hits
  unfolding search Hits
  search-IsHit sort permutes query k ef accept short =
      match_cases (Hits accept k) h.entry (λ _. ([], refl, omega arith, tt))
        (λ entry at.
          if_cases (Hits accept k) (k == 0) (λ _. ([], refl, omega arith, tt))
            (λ _.
              rw (normalized-some h query short, search)
                (ground_search-Hits sort permutes (σ.normalize h.dim query) k
                  (if ltb ef k then k else ef) accept entry at)))
