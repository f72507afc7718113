-- ===== src/Rag/Mmr/Tests.antt =====
-- Three candidates, of which the first two are the same text.
use turbograph.Prelude.{ℕ, ◌+◌, ◌*◌, ◌-◌, ◌≡◌, refl, List, [], ◌∷◌, some, ltb}
use turbograph.Rag.Mmr.{
  Similarity, mmr_rerank, select_rounds, best_from, outscored, penalize, dot32_from,
}
use turbograph.Rag.Mmr.Selected.{IsSelection, mmr_rerank_lem}

-- whole numbers
abbrev whole : Similarity
whole = record {
  Real = ℕ;
  zero = 0;
  plus = λ a b. a + b;
  times = λ a b. a * b;
  above = λ a b. ltb b a;
  blend = λ r m. r * 2 - m;
}

abbrev vectors : List (List ℕ)
vectors = (3 ∷ 0 ∷ []) ∷ (3 ∷ 0 ∷ []) ∷ (1 ∷ 2 ∷ []) ∷ []

novel_second : mmr_rerank whole (9 ∷ 8 ∷ 6 ∷ []) vectors 2 ≡ some (0 ∷ 2 ∷ [])
unfolding mmr_rerank select_rounds best_from outscored penalize dot32_from
novel_second = refl

mmr_rerank_lem_example :
    (out : List ℕ) × (mmr_rerank whole (9 ∷ 8 ∷ 6 ∷ []) vectors 2 ≡ some out)
    × IsSelection whole (9 ∷ 8 ∷ 6 ∷ []) vectors 2 refl (refl, (refl, (refl, tt))) 2 out
mmr_rerank_lem_example =
    mmr_rerank_lem whole (9 ∷ 8 ∷ 6 ∷ []) vectors 2 refl (refl, (refl, (refl, tt))) 2
