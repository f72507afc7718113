-- ===== src/Eval/Bounds.antt =====
-- The metrics that count hits.
use Prim.Native.String.{String}
use text.Mathlib.TextEquality.{eq_iff}
use turbograph.Prelude.{
  ℕ, zero, suc, ◌≤◌, ◌≡◌, true, false, List, [], ◌∷◌, if◌then◌else◌, length, arith,
}
use turbograph.Prelude.Keys.{string_key}
use turbograph.Prelude.Assoc.{contains}
use turbograph.Prelude.Sorting.{sum_by}
use turbograph.Eval.{dedupe_top_k, count_hits, recall_at_k, precision_at_k, Fraction}
use turbograph.Eval.Ranked.{first_seen, dedupe_top_k-first_seen}

-- how many of the relevant ids have not been seen
abbrev unseen : List String → List String → ℕ
unseen seen = sum_by (λ r. if contains seen r then 0 else 1)

unseen-le : (seen relevant : List String) → unseen seen relevant ≤ length relevant
unseen-le seen [] = omega arith
unseen-le seen (r ∷ rs) = ground (arith, unseen-le seen rs)

unseen-cons-le :
    (id : String) (seen relevant : List String) → unseen (id ∷ seen) relevant ≤ unseen seen relevant
unfolding contains
unseen-cons-le id seen [] = omega arith
unseen-cons-le id seen (r ∷ rs) = ground (arith, unseen-cons-le id seen rs)

unseen-cons-lt :
    (id : String) (seen relevant : List String)
    → contains seen id ≡ false
    → contains relevant id ≡ true
    → suc (unseen (id ∷ seen) relevant) ≤ unseen seen relevant
unfolding contains
unseen-cons-lt id seen [] new there = absurd (cc)
unseen-cons-lt id seen (r ∷ rs) new there =
    ground
      (arith, eq_iff r id, eq_iff id r, unseen-cons-lt id seen rs new, unseen-cons-le id seen rs)

hits-first_seen :
    (relevant : List String) (n : ℕ) (ids seen : List String)
    → (count_hits relevant (first_seen n ids seen) ≤ unseen seen relevant)
      × (count_hits relevant (first_seen n ids seen) ≤ n)
unfolding count_hits first_seen
hits-first_seen relevant n [] seen = (omega arith, omega arith)
hits-first_seen relevant zero (id ∷ ids) seen = (omega arith, omega arith)
hits-first_seen relevant (suc n) (id ∷ ids) seen = ground (
  arith,
  hits-first_seen relevant (suc n) ids seen,
  hits-first_seen relevant n ids (id ∷ seen),
  unseen-cons-le id seen relevant,
  unseen-cons-lt id seen relevant,
)

abbrev pub IsProper : Fraction → Type 0
IsProper q = (q.0 ≤ q.1) × (1 ≤ q.1)

-- RecallAtK and PrecisionAtK are fractions between 0 and 1 with a denominator that is not 0, for
-- every ranking, with repetitions too, every set and every cut; the hits they count are at most
-- the relevant ids and at most k.
pub recall_bounds :
    (retrieved relevant : List String) (k : ℕ)
    → IsProper (recall_at_k retrieved relevant k)
      × IsProper (precision_at_k retrieved relevant k)
      × (count_hits relevant (dedupe_top_k retrieved k) ≤ length relevant)
      × (count_hits relevant (dedupe_top_k retrieved k) ≤ k)
unfolding recall_at_k precision_at_k
recall_bounds retrieved relevant k =
    let (known, few) = hits-first_seen relevant k retrieved [] in
    let bound = unseen-le [] relevant in rw (dedupe_top_k-first_seen retrieved k) (ground arith)
