-- ===== src/Flat/Scan.antt =====
-- index/index.go: the parallel scan of the flat index.
use native.Mathlib.Nat.{mod-lt, div-add-mod', suc-mul, mul_comm}
use turbograph.Prelude.{
  ℕ, zero, suc, ◌+◌, ◌-◌, ◌*◌, ◌/◌, ◌≤◌, ◌<◌, ◌≡◌, refl, sym, ap, ◌∙◌, subst, true, false, List, [],
  ◌∷◌, ◌++◌, if◌then◌else◌, length, take, drop, min, ltb, arith, if_cases, length-drop,
}
use turbograph.Heap.Array.{SameItems}
use turbograph.Heap.Order.{IsOrder}
use turbograph.Heap.Bounded.{keeps, IsBest}
use turbograph.Heap.Merge.{merge_parts, concat, IsRanked, merge_parts-IsBest}
use turbograph.Flat.{
  Metric, Codes, FlatIndex, Hit, top_worse, hits_from, hits_between, scan_parts, scan,
}

drop_nil {ℓ} : {A : Type ℓ} (n : ℕ) → drop {A = A} n [] ≡ []
drop_nil zero = refl
drop_nil (suc n) = refl

drop-drop {ℓ} : {A : Type ℓ} (m n : ℕ) (xs : List A) → drop n (drop m xs) ≡ drop (m + n) xs
drop-drop zero n xs = ap (λ k. drop k xs) (omega arith)
drop-drop (suc m) n [] = drop_nil n ∙ sym (drop_nil (suc m + n))
drop-drop (suc m) n (x ∷ xs) =
    drop-drop m n xs ∙ ap (λ k. drop k (x ∷ xs)) {x = suc (m + n)} {y = suc m + n} (omega arith)

-- Scores are in a strict weak order, as float32 numbers that are no NaN.
pub record IsRating (φ : Codes) : Type 0 where
  pub asym : (a b : φ.Score) → φ.less a b ≡ true → φ.less b a ≡ false
  pub negtrans : (a b c : φ.Score) → φ.less b a ≡ false → φ.less c b ≡ false → φ.less c a ≡ false

module _ {φ : Codes} (rating : IsRating φ) (m : Metric) where
  top_worse-IsOrder : IsOrder (keeps (top_worse {φ = φ} m)) (top_worse m)
  unfolding top_worse
  top_worse-IsOrder = record {
    settled = λ p c. refl;
    asym = λ x y h. ground (arith, h, rating.asym x.score y.score, rating.asym y.score x.score);
    negtrans = λ x y w h k. ground (
      arith,
      h,
      k,
      rating.negtrans x.score y.score w.score,
      rating.negtrans w.score y.score x.score,
    );
  }

hits_from-take :
    {φ : Codes} (m : Metric) (q : φ.Query) (n i : ℕ) (cs : List φ.Code)
    → hits_from {φ = φ} m q i (take n cs) ++ hits_from m q (i + n) (drop n cs) ≡ hits_from m q i cs
hits_from-take m q zero i cs = ap (λ k. hits_from m q k cs) (omega arith)
hits_from-take m q (suc n) i [] = refl
hits_from-take {φ} m q (suc n) i (c ∷ cs) =
    ap (λ hs. record { ord = i; score = φ.score m q c } ∷ hs)
      (ap (λ k. hits_from {φ = φ} m q (suc i) (take n cs) ++ hits_from {φ = φ} m q k (drop n cs))
          (omega arith)
        ∙ hits_from-take m q n (suc i) cs)

past_end {ℓ} : {A : Type ℓ} (n : ℕ) (xs : List A) → length xs ≤ n → drop n xs ≡ []
past_end zero [] h = refl
past_end zero (x ∷ xs) h = absurd (omega arith)
past_end (suc n) [] h = refl
past_end (suc n) (x ∷ xs) h = past_end n xs (omega arith)

take-min {ℓ} : {A : Type ℓ} (n : ℕ) (xs : List A) → take n xs ≡ take (min n (length xs)) xs
take-min zero xs = ap (λ k. take k xs) {x = 0} {y = min 0 (length xs)} (omega arith)
take-min (suc n) [] = ap (λ k. take k []) {x = 0} {y = min (suc n) 0} (omega arith)
take-min (suc n) (x ∷ xs) =
    ap (◌∷◌ x) (take-min n xs)
    ∙ ap (λ k. take k (x ∷ xs)) {x = suc (min n (length xs))} {y = min (suc n) (suc (length xs))}
        (omega arith)

module _ {φ : Codes} (ix : FlatIndex φ) (q : φ.Query) (keep chunk : ℕ) where
  -- the parts that the workers scan
  abbrev parts : ℕ → ℕ → List (List (Hit φ))
  parts zero lo = []
  parts (suc w) lo =
      let rest = parts w (lo + chunk) in
      if ltb lo (min (lo + chunk) (length ix.codes))
      then hits_between ix q lo (min (lo + chunk) (length ix.codes)) ∷ rest
      else []

  scan_parts-merge_parts :
      (w lo : ℕ)
      → scan_parts ix q keep chunk w lo ≡ merge_parts (top_worse ix.metric) keep (parts w lo)
  unfolding scan_parts
  scan_parts-merge_parts zero lo = refl
  scan_parts-merge_parts (suc w) lo = ground (arith, scan_parts-merge_parts w (lo + chunk))

  -- the parts are all the hits, where the workers reach the end
  concat-parts :
      (w lo : ℕ)
      → 0 < chunk
      → length ix.codes ≤ lo + w * chunk
      → concat (top_worse ix.metric) (parts w lo) ≡ hits_from ix.metric q lo (drop lo ix.codes)
  concat-parts zero lo pos reach =
      ap (hits_from ix.metric q lo) (sym (past_end lo ix.codes (omega (arith, reach))))
  concat-parts (suc w) lo pos reach =
      if_cases (λ ps. concat (top_worse ix.metric) ps ≡ hits_from ix.metric q lo (drop lo ix.codes))
        (ltb lo (min (lo + chunk) (length ix.codes)))
        (λ some_left.
          let rest : List φ.Code = drop lo ix.codes in
          let inside : lo < min (lo + chunk) (length ix.codes) = ground (arith, some_left) in
          let size : min (lo + chunk) (length ix.codes) - lo ≡ min chunk (length rest) =
            omega (arith, length-drop lo ix.codes, inside) in
          let part : hits_between ix q lo (min (lo + chunk) (length ix.codes))
              ≡ hits_from ix.metric q lo (take chunk rest) =
            ap (λ k. hits_from {φ = φ} ix.metric q lo (take k rest)) size
            ∙ ap (hits_from {φ = φ} ix.metric q lo) (sym (take-min chunk rest)) in
          let others : concat (top_worse ix.metric) (parts w (lo + chunk))
              ≡ hits_from ix.metric q (lo + chunk) (drop chunk rest) =
            concat-parts w (lo + chunk) pos (omega (arith, reach, suc-mul w chunk))
            ∙ ap (hits_from {φ = φ} ix.metric q (lo + chunk)) (sym (drop-drop lo chunk ix.codes)) in
          ap (λ hs. hs ++ concat (top_worse ix.metric) (parts w (lo + chunk))) part
          ∙ ap (λ hs. hits_from {φ = φ} ix.metric q lo (take chunk rest) ++ hs) others
          ∙ hits_from-take ix.metric q chunk lo rest)
        (λ none_left.
          ap (hits_from ix.metric q lo) (sym (past_end lo ix.codes (ground (arith, none_left)))))

positive : (w c n : ℕ) → n ≤ w * c → 0 < n → 0 < c
positive w zero n h p = absurd (omega (arith, h))
positive w (suc c) n h p = omega arith

-- the workers reach the end
reaches : (n w : ℕ) → 0 < w → n ≤ w * ((n + w - 1) / w)
reaches n w p =
    omega (
      arith,
      div-add-mod' (n + w - 1) w,
      mod-lt (n + w - 1) {m = w} p,
      mul_comm ((n + w - 1) / w) w,
    )

module _ {φ : Codes} (rating : IsRating φ) (none_yet : φ.Score) where
  -- The parallel scan of a flat index that is not empty keeps as many of the hits as asked for, or
  -- all of them, and no kept hit is worse than one that it lacks, however many workers there are.
  -- Assumed: the scores are in a strict weak order, and the sort keeps the hits and puts none
  -- behind a worse one.
  pub scan-IsBest :
      (sort : Metric → List (Hit φ) → List (Hit φ))
      → ((m : Metric) (hs : List (Hit φ)) → SameItems (sort m hs) hs)
      → ((m : Metric) (hs : List (Hit φ)) → IsRanked (top_worse m) (sort m hs))
      → (procs : ℕ) (ix : FlatIndex φ) (q : φ.Query) (keep : ℕ) → 0 < procs
      → 0 < length ix.codes
      → (dropped : List (Hit φ)) × IsBest
          (top_worse ix.metric)
          keep
          (hits_from ix.metric q 0 ix.codes)
          (scan sort procs ix q keep)
          dropped
  unfolding scan
  scan-IsBest sort permutes ranks procs ix q keep some_procs some_codes =
      let n = length ix.codes in
      let workers = if ltb n procs then n else procs in
      let chunk = (n + workers - 1) / workers in
      let busy : 0 < workers = ground (arith, some_procs, some_codes) in
      let reach : n ≤ 0 + workers * chunk = omega (arith, reaches n workers busy) in
      let (d, best) =
        merge_parts-IsBest (top_worse ix.metric) (top_worse-IsOrder rating ix.metric)
          (record { ord = 0; score = none_yet }) (sort ix.metric) (permutes ix.metric)
          (ranks ix.metric) keep (parts ix q keep chunk workers 0) in
      let whole =
        concat-parts ix q keep chunk workers 0
          (positive workers chunk n (reaches n workers busy) some_codes) reach in
      let merged = scan_parts-merge_parts ix q keep chunk workers 0 in
      (
        d,
        subst
            (λ hits.
              IsBest (top_worse ix.metric) keep hits
                (take keep (sort ix.metric (scan_parts ix q keep chunk workers 0))) d)
            whole
            (subst
              (λ hits.
                IsBest (top_worse ix.metric) keep
                  (concat (top_worse ix.metric) (parts ix q keep chunk workers 0))
                  (take keep (sort ix.metric hits)) d)
              (sym merged) best),
      )
