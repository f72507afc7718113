-- ===== src/Heap/Merge.antt =====
-- Bounded heaps over the parts of a list of hits, whose entries are put together, sorted and cut off.
use turbograph.Prelude.{
  ℕ, suc, ◌+◌, ◌≤◌, ◌<◌, ◌≡◌, refl, sym, ap, ◌∙◌, inl, inr, Bool, true, not, List, [], ◌∷◌, ◌++◌,
  All, All-map, All-append, length, take, drop, min, arith, Bool-cases, length-append, length-take,
  take-append-drop,
}
use turbograph.Heap.{push_all}
use turbograph.Heap.Array.{count, SameItems, count-append}
use turbograph.Heap.Items.{count-le, count_mono, count-length}
use turbograph.Heap.Order.{IsOrder}
use turbograph.Heap.Bounded.{keeps, IsBeaten, IsBest, push_all-IsBest}
use turbograph.Heap.Exact.{better, best_few, count_none, count-not}

module _ {ℓ} {A : Type ℓ} (worse : A → A → Bool) where
  -- what the workers keep, put together
  abbrev pub merge_parts : ℕ → List (List A) → List A
  merge_parts size [] = []
  merge_parts size (part ∷ parts) = push_all worse size part [] ++ merge_parts size parts

  abbrev pub concat : List (List A) → List A
  concat [] = []
  concat (part ∷ parts) = part ++ concat parts

  -- at least `size` of the entries are not worse than `d`
  abbrev pub IsOutdone : ℕ → List A → A → Type 0
  IsOutdone size merged d = size ≤ count (λ x. not (worse x d)) merged

  -- a sort puts no entry behind one that is worse
  abbrev pub IsRanked : List A → Type 0
  IsRanked xs = (n : ℕ) → All (IsBeaten worse (take n xs)) (drop n xs)

  module _ (order : IsOrder (keeps worse) worse) (z : A) where
    part-IsOutdone :
        (size : ℕ) (hits kept dropped : List A)
        → IsBest worse size hits kept dropped
        → All (IsOutdone size kept) dropped
    part-IsOutdone size hits kept [] best = tt
    part-IsOutdone size hits kept (d ∷ dropped) best =
        let total : length kept + suc (length dropped) ≡ length hits = omega (
          arith,
          best.items (λ _. true),
          count-length (kept ++ d ∷ dropped),
          count-length hits,
          length-append kept (d ∷ dropped),
        ) in
        let full : length kept ≡ size = omega (arith, best.length_kept) in
        All-map (d ∷ dropped)
          (λ x beaten. omega (arith, full, beaten, count-not worse (λ y. worse y x) kept))
          best.beaten

    pub merge_parts-IsOutdone :
        (size : ℕ) (parts : List (List A))
        → (dropped : List A) × SameItems (merge_parts size parts ++ dropped) (concat parts)
          × All (IsOutdone size (merge_parts size parts)) dropped
    merge_parts-IsOutdone size [] = ([], (λ p. refl), tt)
    merge_parts-IsOutdone size (part ∷ parts) =
        let (d, best) = push_all-IsBest worse order z size part in
        let (e, same, outdone) = merge_parts-IsOutdone size parts in
        let kept = push_all worse size part [] in
        let rest = merge_parts size parts in
        (
          d ++ e,
          (λ p. omega (
            arith,
            best.items p,
            same p,
            count-append p kept d,
            count-append p rest e,
            count-append p kept rest,
            count-append p (kept ++ rest) (d ++ e),
            count-append p d e,
            count-append p part (concat parts),
          )),
          All-append (IsOutdone size (kept ++ rest)) d e
              (All-map d (λ x h. omega (arith, h, count-append (λ y. not (worse y x)) kept rest))
                (part-IsOutdone size part kept d best))
              (All-map e (λ x h. omega (arith, h, count-append (λ y. not (worse y x)) kept rest))
                outdone),
        )

    -- the entries that come first of the sorted ones are the best of all the hits
    pub merge_parts-IsBest :
        (sort : List A → List A)
        → ((xs : List A) → SameItems (sort xs) xs)
        → ((xs : List A) → IsRanked (sort xs))
        → (size : ℕ) (parts : List (List A))
        → (dropped : List A) × IsBest worse size
            (concat parts)
            (take size (sort (merge_parts size parts)))
            dropped
    merge_parts-IsBest sort permutes ranks size parts =
        let (d, same, outdone) = merge_parts-IsOutdone size parts in
        let merged = merge_parts size parts in
        let sorted = sort merged in
        let first = take size sorted in
        let late = drop size sorted in
        let whole : (p : A → Bool) → count p first + count p late ≡ count p merged = λ p.
          sym (count-append p first late)
          ∙ ap (count p) (take-append-drop size sorted)
          ∙ permutes merged p in
        let long : length sorted ≡ length merged =
          omega (arith, permutes merged (λ _. true), count-length sorted, count-length merged) in
        let best : IsBest worse size merged first late = record {
          items = λ p. count-append p first late ∙ whole p;
          length_kept = omega (arith, length-take size sorted, long);
          beaten = ranks merged size;
        } in
        let few = best_few worse order z size merged first late best in
        (
          late ++ d,
          record {
            items = λ p. omega (
              arith,
              count-append p first (late ++ d),
              count-append p late d,
              count-append p merged d,
              whole p,
              same p,
            );
            length_kept = omega (arith, best.length_kept, all_counted d outdone same);
            beaten =
                All-append (IsBeaten worse first) late d (ranks merged size)
                  (All-map d (λ x h. none_worse merged first x h few) outdone);
          },
        )
      where
        -- an entry that few are better than is not worse than one that many are not worse than
        none_worse :
            (merged first : List A) (x : A)
            → IsOutdone size merged x
            → All (λ y. better worse merged y < size) first
            → IsBeaten worse first x
        none_worse merged first x h few =
            count_none worse (λ y. worse y x) first
              (All-map first
                (λ y less. elim (Bool-cases (worse y x)) [
                  | inl bad ↦ absurd (
                      omega (
                        arith,
                        h,
                        less,
                        count_mono (λ v. not (worse v x)) (λ v. worse y v)
                            (λ v e. ground (arith, e, bad, order.negtrans x v y)) merged,
                      ))
                  | inr good ↦ good
                ])
                few)

        all_counted :
            (d : List A)
            → All (IsOutdone size (merge_parts size parts)) d
            → SameItems (merge_parts size parts ++ d) (concat parts)
            → min size (length (merge_parts size parts)) ≡ min size (length (concat parts))
        all_counted [] outdone same = omega (
          arith,
          same (λ _. true),
          count-append (λ _. true) (merge_parts size parts) [],
          count-length (merge_parts size parts),
          count-length (concat parts),
        )
        all_counted (x ∷ d) outdone same = omega (
          arith,
          outdone.0,
          count-le (λ y. not (worse y x)) (merge_parts size parts),
          same (λ _. true),
          count-append (λ _. true) (merge_parts size parts) (x ∷ d),
          count-length (merge_parts size parts),
          count-length (concat parts),
        )
