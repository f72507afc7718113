-- ===== src/Eval/Metrics.antt =====
-- eval/metrics.go. A set of ids is the list of its keys, and a cut k that is not positive is 0. A
-- quotient of two counts is the pair of them, 0 the pair of 0 and 1.
use Prim.Native.String.{String}
use turbograph.Prelude.{
  ℕ, ◌+◌, Bool, List, [], ◌∷◌, ◌++◌, ◌||◌, if◌then◌else◌, length, leb, min, ◌==◌,
}
use turbograph.Prelude.Keys.{string_key}
use turbograph.Prelude.Assoc.{contains}

abbrev pub Fraction : Type 0
Fraction = ℕ × ℕ

-- float64, with math.Log2: the gain 1 / log2(pos + 1), and the quotient of two counts
pub record Reals : Type 1 where
  pub Real : Type 0
  pub zero : Real
  pub plus : Real → Real → Real
  pub over : Real → Real → Real
  pub is_zero : Real → Bool
  pub gain : ℕ → Real
  pub ratio : ℕ → ℕ → Real

-- the loop of dedupeTopK
unfoldable pub dedupe_from : ℕ → List String → List String → List String → List String
dedupe_from k [] seen out = out
dedupe_from k (id ∷ ids) seen out =
    let skip = dedupe_from k ids seen out in
    let keep = dedupe_from k ids (id ∷ seen) (out ++ id ∷ []) in
    if leb k (length out) then out else if contains seen id then skip else keep

unfoldable pub dedupe_top_k : List String → ℕ → List String
dedupe_top_k retrieved k = if k == 0 then [] else dedupe_from k retrieved [] []

unfoldable pub count_hits : List String → List String → ℕ
count_hits relevant [] = 0
count_hits relevant (id ∷ ids) =
    let rest = count_hits relevant ids in if contains relevant id then rest + 1 else rest

unfoldable pub recall_at_k : List String → List String → ℕ → Fraction
recall_at_k retrieved relevant k =
    if length relevant == 0
    then (0, 1)
    else (count_hits relevant (dedupe_top_k retrieved k), length relevant)

unfoldable pub precision_at_k : List String → List String → ℕ → Fraction
precision_at_k retrieved relevant k =
    if k == 0 then (0, 1) else (count_hits relevant (dedupe_top_k retrieved k), k)

-- the loop of MRR
unfoldable pub mrr_from : List String → List String → List String → ℕ → Fraction
mrr_from relevant [] seen rank = (0, 1)
mrr_from relevant (id ∷ ids) seen rank =
    let skip = mrr_from relevant ids seen rank in
    let next = mrr_from relevant ids (id ∷ seen) (rank + 1) in
    if contains seen id then skip else if contains relevant id then (1, rank + 1) else next

unfoldable pub mrr : List String → List String → Fraction
mrr retrieved relevant = mrr_from relevant retrieved [] 0

module _ (ρ : Reals) (relevant : List String) where
  -- the loop of NDCGAtK
  unfoldable pub dcg_from : ℕ → List String → List String → ℕ → ρ.Real → ρ.Real
  dcg_from k [] seen pos dcg = dcg
  dcg_from k (id ∷ ids) seen pos dcg =
      let skip = dcg_from k ids seen pos dcg in
      let next =
        dcg_from k ids (id ∷ seen) (pos + 1)
          (if contains relevant id then ρ.plus dcg (ρ.gain (pos + 1)) else dcg) in
      if leb k pos then dcg else if contains seen id then skip else next

  -- the loop of the ideal gains, over the rounds that are left
  unfoldable pub ideal_from : ℕ → ℕ → ρ.Real → ρ.Real
  ideal_from ℕ.zero i idcg = idcg
  ideal_from (ℕ.suc n) i idcg = ideal_from n (i + 1) (ρ.plus idcg (ρ.gain i))

  unfoldable pub ndcg_at_k : List String → ℕ → ρ.Real
  ndcg_at_k retrieved k =
      let dcg = dcg_from k retrieved [] 0 ρ.zero in
      let idcg = ideal_from (min (length relevant) k) 1 ρ.zero in
      if k == 0 || length relevant == 0
      then ρ.zero
      else if ρ.is_zero idcg
      then ρ.zero
      else ρ.over dcg idcg

  -- the loop of ContextPrecisionAtK: the relevant ids so far, and the sum
  unfoldable pub precisions_from : ℕ → List String → List String → ℕ → ℕ × ρ.Real → ℕ × ρ.Real
  precisions_from k [] seen pos s = s
  precisions_from k (id ∷ ids) seen pos s =
      let skip = precisions_from k ids seen pos s in
      let next =
        precisions_from k ids (id ∷ seen) (pos + 1) (
          if contains relevant id
          then (s.0 + 1, ρ.plus s.1 (ρ.ratio (s.0 + 1) (pos + 1)))
          else s) in
      if leb k pos then s else if contains seen id then skip else next

  unfoldable pub context_precision_at_k : List String → ℕ → ρ.Real
  context_precision_at_k retrieved k =
      let s = precisions_from k retrieved [] 0 (0, ρ.zero) in
      if k == 0 || length relevant == 0
      then ρ.zero
      else if s.0 == 0
      then ρ.zero
      else ρ.over s.1 (ρ.ratio (min (length relevant) k) 1)
