-- ===== src/Lexical/Fusion.antt =====
-- lexical/rrf.go: Reciprocal Rank Fusion of several rankings. A constant k that is not positive is 0.
use Prim.Native.String.{String}
use text.Mathlib.Text.{◌==◌ as str_eq}
use text.Mathlib.TextEquality.{eq_iff}
use mathlib.Core.Option
use turbograph.Prelude.{
  ℕ, ◌+◌, ◌≡◌, refl, ◌∙◌, ap, Bool, not, List, [], ◌∷◌, map, Option, none, some, if◌then◌else◌,
  ◌==◌, arith, if_cases,
}
use turbograph.Prelude.Keys.{string_key}
use turbograph.Prelude.Assoc.{lookup, insert, contains, lookup-insert, IsMap, insert-IsMap}
use turbograph.Prelude.Sorting.{sort_in, sort_by}
use turbograph.Lexical.{Floats, Result}

abbrev default_rrf_k : ℕ
default_rrf_k = 60

module _ (φ : Floats) (reciprocal : ℕ → φ.Wide) (string_before : String → String → Bool) where
  abbrev scored_id : String → List (String × φ.Wide) → φ.Wide
  scored_id id scores = elim (lookup id scores) [ none ↦ φ.zero | some x ↦ x ]

  -- the loop over a ranking, with its set `seen`
  unfoldable pub score_ranking :
      ℕ → List String → ℕ → List (Result φ) → List (String × φ.Wide) → List (String × φ.Wide)
  score_ranking k seen rank [] scores = scores
  score_ranking k seen rank (r ∷ rs) scores =
      let skip = score_ranking k seen (rank + 1) rs scores in
      let next =
        score_ranking k (r.id ∷ seen) (rank + 1) rs
          (insert r.id (φ.plus (scored_id r.id scores) (reciprocal (k + rank))) scores) in
      if contains seen r.id then skip else next

  unfoldable pub score_rankings :
      ℕ → List (List (Result φ)) → List (String × φ.Wide) → List (String × φ.Wide)
  score_rankings k [] scores = scores
  score_rankings k (l ∷ ls) scores = score_rankings k ls (score_ranking k [] 0 l scores)

  -- `sortResults`
  unfoldable pub result_before : Result φ → Result φ → Bool
  result_before a b =
      if not (φ.same a.score b.score) then φ.below b.score a.score else string_before a.id b.id

  abbrev fused_result : String × φ.Wide → Result φ
  fused_result p = record { id = p.0; score = φ.narrow p.1 }

  unfoldable pub rrf : ℕ → List (List (Result φ)) → List (Result φ)
  rrf k rankings =
      let scores = score_rankings (if k == 0 then default_rrf_k else k) rankings [] in
      sort_by result_before (map fused_result scores)

  -- the first rank of an id in a list, counted from `rank`
  unfoldable pub first_rank : String → ℕ → List (Result φ) → Option ℕ
  first_rank id rank [] = none
  first_rank id rank (r ∷ rs) =
      let rest = first_rank id (rank + 1) rs in if str_eq r.id id then some rank else rest

  -- the sum of an id over the lists that have it, behind what it has already
  unfoldable pub fused_score : ℕ → String → List (List (Result φ)) → Option φ.Wide → Option φ.Wide
  fused_score k id [] sum = sum
  fused_score k id (l ∷ ls) sum = fused_score k id ls (elim (first_rank id 0 l) [
    | none ↦ sum
    | some rank ↦ some (φ.plus (elim sum [ none ↦ φ.zero | some x ↦ x ]) (reciprocal (k + rank)))
  ])

  -- the score of an id in a list of results
  unfoldable pub score_in : String → List (Result φ) → Option φ.Score
  score_in id [] = none
  score_in id (r ∷ rs) = let rest = score_in id rs in if str_eq r.id id then some r.score else rest

  lookup-score_ranking :
      (k : ℕ) (seen : List String) (rank : ℕ) (l : List (Result φ))
      (scores : List (String × φ.Wide)) (id : String)
      → lookup id (score_ranking k seen rank l scores) ≡ (
          if contains seen id then lookup id scores else elim (first_rank id rank l) [
            | none ↦ lookup id scores
            | some n ↦ some (φ.plus (scored_id id scores) (reciprocal (k + n)))
          ])
  unfolding score_ranking first_rank contains
  lookup-score_ranking k seen rank [] scores id = ground arith
  lookup-score_ranking k seen rank (r ∷ rs) scores id =
      let more = φ.plus (scored_id r.id scores) (reciprocal (k + rank)) in
      ground (
        arith,
        eq_iff r.id id,
        lookup-insert r.id id more scores,
        lookup-score_ranking k seen (rank + 1) rs scores id,
        lookup-score_ranking k (r.id ∷ seen) (rank + 1) rs (insert r.id more scores) id,
      )

  lookup-score_rankings :
      (k : ℕ) (ls : List (List (Result φ))) (scores : List (String × φ.Wide)) (id : String)
      → lookup id (score_rankings k ls scores) ≡ fused_score k id ls (lookup id scores)
  unfolding score_rankings fused_score contains
  lookup-score_rankings k [] scores id = refl
  lookup-score_rankings k (l ∷ ls) scores id =
      lookup-score_rankings k ls (score_ranking k [] 0 l scores) id
      ∙ ap (fused_score k id ls) (lookup-score_ranking k [] 0 l scores id)

  score_ranking-IsMap :
      (k : ℕ) (seen : List String) (rank : ℕ) (l : List (Result φ))
      (scores : List (String × φ.Wide))
      → IsMap scores
      → IsMap (score_ranking k seen rank l scores)
  unfolding score_ranking
  score_ranking-IsMap k seen rank [] scores h = h
  score_ranking-IsMap k seen rank (r ∷ rs) scores h =
      if_cases IsMap (contains seen r.id) (λ _. score_ranking-IsMap k seen (rank + 1) rs scores h)
        (λ _. score_ranking-IsMap k (r.id ∷ seen) (rank + 1) rs _ (insert-IsMap r.id _ scores h))

  score_rankings-IsMap :
      (k : ℕ) (ls : List (List (Result φ))) (scores : List (String × φ.Wide))
      → IsMap scores
      → IsMap (score_rankings k ls scores)
  unfolding score_rankings
  score_rankings-IsMap k [] scores h = h
  score_rankings-IsMap k (l ∷ ls) scores h =
      score_rankings-IsMap k ls _ (score_ranking-IsMap k [] 0 l scores h)

  score_in-sort_in :
      (r : Result φ) (rs : List (Result φ)) (id : String)
      → score_in r.id rs ≡ none
      → score_in id (sort_in result_before r rs)
        ≡ (if str_eq r.id id then some r.score else score_in id rs)
  unfolding sort_in score_in
  score_in-sort_in r [] id h = refl
  score_in-sort_in r (q ∷ qs) id h =
      if_cases
        (λ (l : List (Result φ)).
          score_in id l ≡ (if str_eq r.id id then some r.score else score_in id (q ∷ qs)))
        (result_before q r)
        (λ _.
          ground
            (arith, h, eq_iff q.id r.id, eq_iff q.id id, eq_iff r.id id, score_in-sort_in r qs id))
        (λ _. refl)

  score_in-sort_by :
      (m : List (String × φ.Wide)) (id : String)
      → IsMap m
      → score_in id (sort_by result_before (map fused_result m)) ≡ Option.map φ.narrow (lookup id m)
  unfolding sort_by score_in lookup
  score_in-sort_by [] id h = refl
  score_in-sort_by ((j, x) ∷ m) id h =
      let rest = sort_by result_before (map fused_result m) in
      score_in-sort_in (fused_result (j, x)) rest id
        (score_in-sort_by m j h.1 ∙ ground (arith, h.0))
      ∙ ground (arith, score_in-sort_by m id h.1)

  -- RRF gives an id the sum, over the rankings that have it, of the reciprocal of k and its first
  -- rank there, and gives no score to any other id, where k is 60 unless it is positive.
  pub rrf_lem :
      (k : ℕ) (rankings : List (List (Result φ))) (id : String)
      → score_in id (rrf k rankings)
        ≡ Option.map φ.narrow (fused_score (if k == 0 then 60 else k) id rankings none)
  unfolding rrf lookup
  rrf_lem k rankings id =
      let c = if k == 0 then default_rrf_k else k in
      score_in-sort_by (score_rankings c rankings []) id (score_rankings-IsMap c rankings [] tt)
      ∙ ap (Option.map φ.narrow) (lookup-score_rankings c rankings [] id)
