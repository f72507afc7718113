-- ===== src/Eval/Tests.antt =====
-- A ranking with a repetition, with gains in thousandths.
use Prim.Native.String.{String}
use turbograph.Prelude.{ℕ, ◌+◌, ◌*◌, ◌/◌, ◌≤◌, ◌≡◌, refl, List, [], ◌∷◌, ◌==◌}
use turbograph.Prelude.Keys.{string_key}
use turbograph.Prelude.Assoc.{contains}
use turbograph.Eval.{
  Reals, dedupe_from, dedupe_top_k, count_hits, recall_at_k, precision_at_k, mrr_from, mrr,
  dcg_from, precisions_from,
}
use turbograph.Eval.Ranked.{gains, precisions, ranked_lem}
use turbograph.Eval.Bounds.{IsProper, recall_bounds}

abbrev thousandths : Reals
thousandths = record {
  Real = ℕ;
  zero = 0;
  plus = λ x y. x + y;
  over = λ x y. x * 1000 / y;
  is_zero = λ x. x == 0;
  gain = λ pos. 1000 / (pos + 1);
  ratio = λ a b. a * 1000 / b;
}

abbrev ranking : List String
ranking = "b" ∷ "a" ∷ "b" ∷ "c" ∷ "d" ∷ []

abbrev wanted : List String
wanted = "a" ∷ "c" ∷ "e" ∷ []

counted : (recall_at_k ranking wanted 3 ≡ (2, 3)) × (mrr ranking wanted ≡ (1, 2))
unfolding recall_at_k dedupe_top_k dedupe_from count_hits mrr mrr_from contains
counted = (refl, refl)

recall_bounds_example :
    IsProper (recall_at_k ranking wanted 3)
    × IsProper (precision_at_k ranking wanted 3)
    × (count_hits wanted (dedupe_top_k ranking 3) ≤ 3)
    × (count_hits wanted (dedupe_top_k ranking 3) ≤ 3)
recall_bounds_example = recall_bounds ranking wanted 3

ranked_lem_example :
    (dcg_from thousandths wanted 3 ranking [] 0 0
      ≡ gains thousandths wanted (dedupe_top_k ranking 3) 0 0)
    × (precisions_from thousandths wanted 3 ranking [] 0 (0, 0)
        ≡ precisions thousandths wanted (dedupe_top_k ranking 3) 0 (0, 0))
ranked_lem_example = ranked_lem thousandths wanted ranking 3
