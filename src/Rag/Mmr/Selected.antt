-- ===== src/Rag/Mmr/Selected.antt =====
-- What mmrRerank of rag/mmr.go selects.
use turbograph.Prelude.{
  All, All-map, sym, ap, ℕ, zero, suc, ◌+◌, ◌≤◌, ◌≡◌, refl, ◌∙◌, subst, inl, inr, ◌⊎◌, Bool, true,
  false, List, [], ◌∷◌, ◌++◌, Option, none, some, if◌then◌else◌, length, get_elem?, set, replicate,
  min, ◌==◌, ltb, arith, Option-cases, if_cases, length-set, length-replicate, get_elem?-set,
  get_elem?-lt,
}
use mathlib.Core.Option.{some-injective}
use turbograph.Prelude.Sorting.{sum_by}
use turbograph.Rag.Mmr.{
  Similarity, Best, outscored, best_from, penalize, dot32_from, select_rounds, mmr_rerank,
}

abbrev free : List Bool → ℕ
free = sum_by (λ c. if c then 0 else 1)

-- how often an index stands in a list
abbrev pub times : ℕ → List ℕ → ℕ
times i = sum_by (λ j. if j == i then 1 else 0)

times-snoc :
    (i j : ℕ) (xs : List ℕ) → times i (xs ++ j ∷ []) ≡ times i xs + (if j == i then 1 else 0)
times-snoc i j [] = omega arith
times-snoc i j (x ∷ xs) = omega (arith, times-snoc i j xs)

free-set :
    (cs : List Bool) (i : ℕ) → get_elem? cs i ≡ some false → suc (free (set cs i true)) ≡ free cs
free-set [] i h = absurd (cc)
free-set (c ∷ cs) zero h = ground arith
free-set (c ∷ cs) (suc i) h = omega (arith, free-set cs i h)

free-replicate : (n : ℕ) → free (replicate n false) ≡ n
free-replicate zero = refl
free-replicate (suc n) = omega (arith, free-replicate n)

-- 1 for a candidate that has been chosen
abbrev taken : Option Bool → ℕ
taken none = 0
taken (some c) = if c then 1 else 0

taken-replicate : (n i : ℕ) → taken (get_elem? (replicate n false) i) ≡ 0
taken-replicate zero i = refl
taken-replicate (suc n) zero = refl
taken-replicate (suc n) (suc i) = taken-replicate n i

taken-le : (cs : List Bool) (i : ℕ) → taken (get_elem? cs i) ≤ (if ltb i (length cs) then 1 else 0)
taken-le cs i = ground (arith, get_elem?-lt cs i)

length-snoc : (xs : List ℕ) (x n : ℕ) → length (xs ++ x ∷ []) + n ≡ length xs + suc n
length-snoc [] x n = omega arith
length-snoc (y ∷ ys) x n = omega (arith, length-snoc ys x n)

-- `selected` lists what `chosen` marks, also after one more candidate
known-chosen :
    (chosen : List Bool) (selected : List ℕ) (j : ℕ)
    → get_elem? chosen j ≡ some false
    → ((i : ℕ) → times i selected ≡ taken (get_elem? chosen i))
    → (i : ℕ) → times i (selected ++ j ∷ []) ≡ taken (get_elem? (set chosen j true) i)
known-chosen chosen selected j here known i = ground (
  arith,
  here,
  known i,
  times-snoc i j selected,
  get_elem?-set chosen j i true,
  get_elem?-lt chosen j,
)

module _ (σ : Similarity) where
  abbrev Fits : (ℕ → Type 0) → Best σ → Type 0
  Fits P none = Unit
  Fits P (some b) = P b.0

  abbrev Found : (ℕ → Type 0) → Best σ → Type 0
  Found P none = ⊥
  Found P (some b) = P b.0

  outscored-Found :
      (P : ℕ → Type 0) (i : ℕ) (score : σ.Real) (best : Best σ)
      → P i
      → Fits P best
      → Found P (outscored σ i score best)
  unfolding outscored
  outscored-Found P i score none h fits = h
  outscored-Found P i score (some b) h fits =
      if_cases (Found P) (σ.above score b.1) (λ _. h) (λ _. fits)

  Found-Fits : (P : ℕ → Type 0) (best : Best σ) → Found P best → Fits P best
  Found-Fits P none h = tt
  Found-Fits P (some b) h = h

  -- the search finds a candidate that is not chosen, if there is one
  best_from-Found :
      (P : ℕ → Type 0) (i : ℕ) (rel : List σ.Real) (chosen : List Bool) (max_sim : List σ.Real)
      (best : Best σ)
      → length rel ≡ length chosen
      → length max_sim ≡ length chosen
      → ((j : ℕ) → get_elem? chosen j ≡ some false → P (i + j))
      → Fits P best
      → Found P best ⊎ (1 ≤ free chosen)
      → Found P (best_from σ i rel chosen max_sim best)
  unfolding best_from
  best_from-Found P i [] [] max_sim best lr lm is_open fits (inl found) = found
  best_from-Found P i [] [] max_sim best lr lm is_open fits (inr some_free) = absurd (omega arith)
  best_from-Found P i [] (c ∷ chosen) max_sim best lr lm is_open fits there = absurd (omega arith)
  best_from-Found P i (r ∷ rel) [] max_sim best lr lm is_open fits there = absurd (omega arith)
  best_from-Found P i (r ∷ rel) (c ∷ chosen) [] best lr lm is_open fits there = absurd (omega arith)
  best_from-Found P i (r ∷ rel) (true ∷ chosen) (m ∷ max_sim) best lr lm is_open fits there =
      best_from-Found P (suc i) rel chosen max_sim best (omega arith) (omega arith)
        (λ j h. subst P (omega arith) (is_open (suc j) h)) fits
        (elim there [ inl found ↦ inl found | inr some_free ↦ inr (omega arith) ])
  best_from-Found P i (r ∷ rel) (false ∷ chosen) (m ∷ max_sim) best lr lm is_open fits there =
      let here =
        outscored-Found P i (σ.blend r m) best (subst P (omega arith) (is_open 0 refl)) fits in
      best_from-Found P (suc i) rel chosen max_sim (outscored σ i (σ.blend r m) best) (omega arith)
        (omega arith) (λ j h. subst P (omega arith) (is_open (suc j) h)) (Found-Fits P _ here)
        (inl here)

  dot32_from-some :
      (xs ys : List σ.Real) (sum : σ.Real)
      → length xs ≡ length ys
      → (s : σ.Real) × (dot32_from σ xs ys sum ≡ some s)
  unfolding dot32_from
  dot32_from-some [] ys sum h = (sum, refl)
  dot32_from-some (a ∷ xs) [] sum h = absurd (omega arith)
  dot32_from-some (a ∷ xs) (b ∷ ys) sum h =
      dot32_from-some xs ys (σ.plus sum (σ.times a b)) (omega arith)

  penalize-some :
      (bv : List σ.Real) (vecs : List (List σ.Real)) (chosen : List Bool) (max_sim : List σ.Real)
      → All (λ v. length v ≡ length bv) vecs
      → (out : List σ.Real) × (penalize σ bv vecs chosen max_sim ≡ some out)
        × (length out ≡ length max_sim)
  unfolding penalize
  penalize-some bv [] chosen max_sim h = (max_sim, refl, refl)
  penalize-some bv (v ∷ vecs) [] max_sim h = (max_sim, refl, refl)
  penalize-some bv (v ∷ vecs) (c ∷ chosen) [] h = ([], refl, refl)
  penalize-some bv (v ∷ vecs) (true ∷ chosen) (m ∷ max_sim) h =
      let (out, e, l) = penalize-some bv vecs chosen max_sim h.1 in (m ∷ out, rw e refl, ap suc l)
  penalize-some bv (v ∷ vecs) (false ∷ chosen) (m ∷ max_sim) h =
      let (out, e, l) = penalize-some bv vecs chosen max_sim h.1 in
      let (s, d) = dot32_from-some v bv σ.zero h.0 in
      ((if σ.above s m then s else m) ∷ out, rw (d, e) refl, ap suc l)

  All-get :
      (P : List σ.Real → Type 0) (vecs : List (List σ.Real)) (i : ℕ) (v : List σ.Real)
      → All P vecs
      → get_elem? vecs i ≡ some v
      → P v
  All-get P [] i v h e = absurd (cc)
  All-get P (w ∷ vecs) zero v h e = subst P (some-injective w v e) h.0
  All-get P (w ∷ vecs) (suc i) v h e = All-get P vecs i v h.1 e

  module _ (rel : List σ.Real) (vecs : List (List σ.Real)) (dim : ℕ)
      (paired : length vecs ≡ length rel) (even : All (λ v. length v ≡ dim) vecs) where
    -- a selection of `n` different candidates
    abbrev pub IsSelection : ℕ → List ℕ → Type 0
    IsSelection n out =
        (length out ≡ n) × ((i : ℕ) → times i out ≤ (if ltb i (length rel) then 1 else 0))

    next_round :
        (n : ℕ) (chosen : List Bool) (max_sim : List σ.Real) (selected : List ℕ) (b : ℕ × σ.Real)
        (bv max_sim' : List σ.Real)
        → best_from σ 0 rel chosen max_sim none ≡ some b
        → get_elem? vecs b.0 ≡ some bv
        → penalize σ bv vecs (set chosen b.0 true) max_sim ≡ some max_sim'
        → select_rounds σ rel vecs (suc n) chosen max_sim selected
          ≡ select_rounds σ rel vecs n (set chosen b.0 true) max_sim' (selected ++ b.0 ∷ [])
    unfolding select_rounds
    next_round n chosen max_sim selected b bv max_sim' this vector cut = cc

    select_rounds_lem :
        (n : ℕ) (chosen : List Bool) (max_sim : List σ.Real) (selected : List ℕ)
        → length chosen ≡ length rel
        → length max_sim ≡ length rel
        → n ≤ free chosen
        → ((i : ℕ) → times i selected ≡ taken (get_elem? chosen i))
        → (out : List ℕ) × (select_rounds σ rel vecs n chosen max_sim selected ≡ some out)
          × IsSelection (length selected + n) out
    unfolding select_rounds
    select_rounds_lem zero chosen max_sim selected lc lm enough known =
        (selected, refl, (omega arith, λ i. ground (arith, known i, taken-le chosen i)))
    select_rounds_lem (suc n) chosen max_sim selected lc lm enough known =
        let P = λ (j : ℕ). get_elem? chosen j ≡ some false in
        let best = best_from σ 0 rel chosen max_sim none in
        let found : Found P best =
          best_from-Found P 0 rel chosen max_sim none (omega arith) (omega arith)
            (λ j h. subst P (omega arith) h) tt (inr (omega arith)) in
        elim (Option-cases best) [
          | inl nothing ↦ absurd (rw nothing at found)
          | inr (b, this) ↦
              let here : get_elem? chosen b.0 ≡ some false = rw this at found in
              elim (Option-cases (get_elem? vecs b.0)) [
                | inl missing ↦
                    absurd (
                      ground (arith, missing, here, get_elem?-lt vecs b.0, get_elem?-lt chosen b.0))
                | inr (bv, vector) ↦
                    let chosen' = set chosen b.0 true in
                    let selected' = selected ++ b.0 ∷ [] in
                    let size = All-get (λ v. length v ≡ dim) vecs b.0 bv even vector in
                    let (max_sim', cut, len) =
                      penalize-some bv vecs chosen' max_sim
                        (All-map vecs (λ v h. h ∙ sym size) even) in
                    let rest =
                      select_rounds_lem n chosen' max_sim' selected'
                        (length-set chosen b.0 true ∙ lc) (len ∙ lm)
                        (omega (arith, enough, free-set chosen b.0 here))
                        (known-chosen chosen selected b.0 here known) in
                    (
                      rest.0,
                      next_round n chosen max_sim selected b bv max_sim' this vector cut ∙ rest.1,
                      (omega (arith, rest.2.0, length-snoc selected b.0 n), rest.2.1),
                    )
              ]
        ]

    -- With a vector for each candidate, all of one length, mmrRerank does not panic, and it
    -- selects as many candidates as asked for, or all of them if there are fewer, none of them
    -- twice.
    pub mmr_rerank_lem :
        (k : ℕ)
        → (out : List ℕ) × (mmr_rerank σ rel vecs k ≡ some out)
          × IsSelection (min k (length rel)) out
    unfolding mmr_rerank
    mmr_rerank_lem k =
        let n = length rel in
        let selection =
          select_rounds_lem (min k n) (replicate n false) (replicate n σ.zero) []
            (length-replicate n false) (length-replicate n σ.zero)
            (ground (arith, free-replicate n)) (λ i. omega (arith, taken-replicate n i)) in
        (selection.0, selection.1, (omega (arith, selection.2.0), selection.2.1))
