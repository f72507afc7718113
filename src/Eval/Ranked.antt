-- ===== src/Eval/Ranked.antt =====
-- The metrics that look at ranks go over the list that dedupeTopK gives, in its order.
use Prim.Native.String.{String}
use mathlib.Core.List.{append_assoc, append-nil}
use turbograph.Prelude.{
  ℕ, zero, suc, ◌+◌, ◌≡◌, refl, sym, List, [], ◌∷◌, ◌++◌, if◌then◌else◌, length, arith,
  length-append,
}
use turbograph.Prelude.Keys.{string_key}
use turbograph.Prelude.Assoc.{contains}
use turbograph.Eval.{Reals, dedupe_from, dedupe_top_k, dcg_from, precisions_from}

-- the first `n` ids that are new
unfoldable pub first_seen : ℕ → List String → List String → List String
first_seen n [] seen = []
first_seen zero (id ∷ ids) seen = []
first_seen (suc n) (id ∷ ids) seen =
    let skip = first_seen (suc n) ids seen in
    let keep = id ∷ first_seen n ids (id ∷ seen) in if contains seen id then skip else keep

dedupe_from-first_seen :
    (n : ℕ) (ids seen out : List String) (k : ℕ)
    → length out + n ≡ k
    → dedupe_from k ids seen out ≡ out ++ first_seen n ids seen
unfolding dedupe_from first_seen
dedupe_from-first_seen n [] seen out k h = sym (append-nil out)
dedupe_from-first_seen zero (id ∷ ids) seen out k h = ground (arith, append-nil out)
dedupe_from-first_seen (suc n) (id ∷ ids) seen out k h = ground (
  arith,
  dedupe_from-first_seen (suc n) ids seen out k,
  dedupe_from-first_seen n ids (id ∷ seen) (out ++ id ∷ []) k
      (omega (arith, length-append {0} out (id ∷ []))),
  append_assoc out (id ∷ []) (first_seen n ids (id ∷ seen)),
)

fresh_none : (ids : List String) → first_seen 0 ids [] ≡ []
unfolding first_seen
fresh_none [] = refl
fresh_none (id ∷ ids) = refl

pub dedupe_top_k-first_seen :
    (retrieved : List String) (k : ℕ) → dedupe_top_k retrieved k ≡ first_seen k retrieved []
unfolding dedupe_top_k
dedupe_top_k-first_seen retrieved k =
    ground (arith, fresh_none retrieved, dedupe_from-first_seen k retrieved [] [] k (omega arith))

module _ (ρ : Reals) (relevant : List String) where
  -- the gains and the precisions of a list without repetitions, from a rank on
  unfoldable pub gains : List String → ℕ → ρ.Real → ρ.Real
  gains [] pos dcg = dcg
  gains (id ∷ ids) pos dcg =
      gains ids (pos + 1) (if contains relevant id then ρ.plus dcg (ρ.gain (pos + 1)) else dcg)

  unfoldable pub precisions : List String → ℕ → ℕ × ρ.Real → ℕ × ρ.Real
  precisions [] pos s = s
  precisions (id ∷ ids) pos s =
      precisions ids (pos + 1)
        (if contains relevant id then (s.0 + 1, ρ.plus s.1 (ρ.ratio (s.0 + 1) (pos + 1))) else s)

  dcg_from-first_seen :
      (n : ℕ) (ids seen : List String) (pos k : ℕ) (dcg : ρ.Real)
      → pos + n ≡ k
      → dcg_from ρ relevant k ids seen pos dcg ≡ gains (first_seen n ids seen) pos dcg
  unfolding dcg_from first_seen gains
  dcg_from-first_seen n [] seen pos k dcg h = refl
  dcg_from-first_seen zero (id ∷ ids) seen pos k dcg h = ground arith
  dcg_from-first_seen (suc n) (id ∷ ids) seen pos k dcg h =
      let counted = if contains relevant id then ρ.plus dcg (ρ.gain (pos + 1)) else dcg in
      ground (
        arith,
        dcg_from-first_seen (suc n) ids seen pos k dcg,
        dcg_from-first_seen n ids (id ∷ seen) (pos + 1) k counted (omega arith),
      )

  precisions_from-first_seen :
      (n : ℕ) (ids seen : List String) (pos k : ℕ) (s : ℕ × ρ.Real)
      → pos + n ≡ k
      → precisions_from ρ relevant k ids seen pos s ≡ precisions (first_seen n ids seen) pos s
  unfolding precisions_from first_seen precisions
  precisions_from-first_seen n [] seen pos k s h = refl
  precisions_from-first_seen zero (id ∷ ids) seen pos k s h = ground arith
  precisions_from-first_seen (suc n) (id ∷ ids) seen pos k s h =
      let counted : ℕ × ρ.Real =
        if contains relevant id then (s.0 + 1, ρ.plus s.1 (ρ.ratio (s.0 + 1) (pos + 1))) else s in
      ground (
        arith,
        precisions_from-first_seen (suc n) ids seen pos k s,
        precisions_from-first_seen n ids (id ∷ seen) (pos + 1) k counted (omega arith),
      )

  -- The loops of NDCGAtK and ContextPrecisionAtK, which skip repetitions as they go, sum over
  -- exactly the list of dedupeTopK, each id under its rank in that list.
  pub ranked_lem :
      (retrieved : List String) (k : ℕ)
      → (dcg_from ρ relevant k retrieved [] 0 ρ.zero ≡ gains (dedupe_top_k retrieved k) 0 ρ.zero)
        × (precisions_from ρ relevant k retrieved [] 0 (0, ρ.zero)
            ≡ precisions (dedupe_top_k retrieved k) 0 (0, ρ.zero))
  ranked_lem retrieved k = rw (dedupe_top_k-first_seen retrieved k) (
    dcg_from-first_seen k retrieved [] 0 k ρ.zero (omega arith),
    precisions_from-first_seen k retrieved [] 0 k (0, ρ.zero) (omega arith),
  )
