-- ===== src/Rag/Mmr/Defs.antt =====
-- mmrRerank and dot32 of rag/mmr.go, with the weight lambda fixed. A cut k that is not positive is 0.
use turbograph.Prelude.{
  ℕ, zero, suc, Bool, true, false, List, [], ◌∷◌, ◌++◌, Option, ◌>>=◌, none, some, if◌then◌else◌,
  length, get_elem?, set, replicate, min,
}

-- float32 with `>`, and the blend of relevance and similarity
pub record Similarity : Type 1 where
  pub Real : Type 0
  pub zero : Real
  pub plus : Real → Real → Real
  pub times : Real → Real → Real
  pub above : Real → Real → Bool
  pub blend : Real → Real → Real

module _ (σ : Similarity) where
  abbrev pub Best : Type 0
  Best = Option (ℕ × σ.Real)

  -- `none` is the index -1
  unfoldable pub outscored : ℕ → σ.Real → Best → Best
  outscored i score none = some (i, score)
  outscored i score (some b) = if σ.above score b.1 then some (i, score) else some b

  -- the loop that looks for the best candidate, from index `i` on
  unfoldable pub best_from : ℕ → List σ.Real → List Bool → List σ.Real → Best → Best
  best_from i (r ∷ rel) (c ∷ chosen) (m ∷ max_sim) best =
      best_from (suc i) rel chosen max_sim (if c then best else outscored i (σ.blend r m) best)
  best_from i _ _ _ best = best

  -- the loop of dot32 with its sum; a second vector that is too short, which panics, is `none`
  unfoldable pub dot32_from : List σ.Real → List σ.Real → σ.Real → Option σ.Real
  dot32_from [] ys sum = some sum
  dot32_from (a ∷ xs) [] sum = none
  dot32_from (a ∷ xs) (b ∷ ys) sum = dot32_from xs ys (σ.plus sum (σ.times a b))

  abbrev pub dot32 : List σ.Real → List σ.Real → Option σ.Real
  dot32 a b = dot32_from a b σ.zero

  -- the loop that updates the penalties
  unfoldable pub penalize :
      List σ.Real → List (List σ.Real) → List Bool → List σ.Real → Option (List σ.Real)
  penalize bv (v ∷ vecs) (c ∷ chosen) (m ∷ max_sim) = do
    m' ← if c then some m else dot32 v bv >>= λ s. some (if σ.above s m then s else m)
    rest ← penalize bv vecs chosen max_sim
    some (m' ∷ rest)
  penalize bv _ _ max_sim = some max_sim

  module _ (rel : List σ.Real) (vecs : List (List σ.Real)) where
    -- the rounds of the outer loop; a vector that is missing or too short, which panics, is `none`
    unfoldable pub select_rounds : ℕ → List Bool → List σ.Real → List ℕ → Option (List ℕ)
    select_rounds zero chosen max_sim selected = some selected
    select_rounds (suc n) chosen max_sim selected = elim (best_from 0 rel chosen max_sim none) [
      | none ↦ some selected
      | some b ↦ do
        bv ← get_elem? vecs b.0
        let chosen' = set chosen b.0 true
        max_sim' ← penalize bv vecs chosen' max_sim
        select_rounds n chosen' max_sim' (selected ++ b.0 ∷ [])
    ]

    unfoldable pub mmr_rerank : ℕ → Option (List ℕ)
    mmr_rerank k =
        let n = length rel in select_rounds (min k n) (replicate n false) (replicate n σ.zero) []
