-- ===== src/Heap/Exact.antt =====
-- Which entries a bounded heap keeps, where no two entries are equal to the test.
use turbograph.Prelude.{
  ℕ, ◌+◌, ◌≤◌, ◌<◌, ◌≡◌, refl, sym, ap, ◌∙◌, Bool, true, false, not, ◌&&◌, List, [], ◌∷◌, All,
  All-map, length, ltb, arith,
}
use turbograph.Heap.{push_all}
use turbograph.Heap.Array.{count, SameItems, count-append}
use turbograph.Heap.Items.{count-le, count-length}
use turbograph.Heap.Order.{IsOrder}
use turbograph.Heap.Sift.{irrefl}
use turbograph.Heap.Bounded.{keeps, IsBeaten, IsBest, push_all-IsBest}

module _ {ℓ} {A : Type ℓ} (worse : A → A → Bool) where
  -- how many of the hits are better than `x`
  abbrev pub better : List A → A → ℕ
  better hits x = count (λ y. worse x y) hits

  -- the hits that are neither better nor worse than `x`
  abbrev pub level_with : List A → A → ℕ
  level_with hits x = count (λ y. not (worse x y) && not (worse y x)) hits

  pub count_none : (p : A → Bool) (xs : List A) → All (λ x. p x ≡ false) xs → count p xs ≡ 0
  count_none p [] h = refl
  count_none p (x ∷ xs) h = ground (arith, h.0, count_none p xs h.1)

  pub count-not : (p : A → Bool) (xs : List A) → count p xs + count (λ x. not (p x)) xs ≡ length xs
  count-not p [] = refl
  count-not p (x ∷ xs) = ground (arith, count-not p xs)

  -- each entry of a part passes its own test in the whole
  member :
      (q : A → A → Bool)
      → ((x : A) → q x x ≡ true)
      → (whole part : List A) → ((p : A → Bool) → count p part ≤ count p whole)
      → All (λ x. 0 < count (q x) whole) part
  member q self whole [] le = tt
  member q self whole (x ∷ part) le =
      (ground (arith, self x, le (q x)), member q self whole part (λ p. omega (arith, le p)))

  All-both {κ μ ν} :
      {P : A → Type κ} {Q : A → Type μ} {R : A → Type ν} (xs : List A)
      → ((x : A) → P x → Q x → R x)
      → All P xs
      → All Q xs
      → All R xs
  All-both [] f h k = tt
  All-both (x ∷ xs) f h k = (f x h.0 k.0, All-both xs f h.1 k.1)

  all_better :
      (x : A) (kept : List A)
      → level_with kept x ≡ 0
      → count (λ y. worse y x) kept ≡ 0
      → better kept x ≡ length kept
  all_better x [] h k = refl
  all_better x (y ∷ kept) h k = ground (arith, all_better x kept)

  module _ (order : IsOrder (keeps worse) worse) where
    no_better :
        (x : A) (dropped kept : List A)
        → All (IsBeaten worse (x ∷ kept)) dropped
        → All (λ d. worse x d ≡ false) dropped
    no_better x [] kept h = tt
    no_better x (d ∷ ds) kept h = (ground (arith, h.0), no_better x ds kept h.1)

    rest-IsBeaten :
        (x : A) (dropped kept : List A)
        → All (IsBeaten worse (x ∷ kept)) dropped
        → All (IsBeaten worse kept) dropped
    rest-IsBeaten x dropped kept h = All-map dropped (λ d e. omega (arith, e)) h

    -- a kept hit has fewer than `n` better ones among the kept ones
    kept-All :
        (kept dropped : List A)
        → All (IsBeaten worse kept) dropped
        → All (λ x. better dropped x ≡ 0) kept
    kept-All [] dropped h = tt
    kept-All (x ∷ kept) dropped h = (
      count_none (λ y. worse x y) dropped (no_better x dropped kept h),
      kept-All kept dropped (rest-IsBeaten x dropped kept h),
    )

    -- where no two hits are level, the kept ones are those that fewer than `size` others beat
    pub record IsExact (size : ℕ) (hits kept dropped : List A) : Type ℓ where
      pub few : All (λ x. better hits x < size) kept
      pub many : All (λ x. size ≤ better hits x) dropped

    pub best_few :
        (z : A) (size : ℕ) (hits kept dropped : List A)
        → IsBest worse size hits kept dropped
        → All (λ x. better hits x < size) kept
    best_few z size hits kept dropped best =
        let self : (x : A) → worse x x ≡ false = irrefl (keeps worse) worse order z in
        let split : (p : A → Bool) → count p kept + count p dropped ≡ count p hits =
          λ p. sym (count-append p kept dropped) ∙ best.items p in
        All-both kept
          (λ x none_lost one_self.
            omega
              (arith, split (λ y. worse x y), count-not (λ y. worse x y) kept, best.length_kept))
          (kept-All kept dropped best.beaten)
          (member (λ x y. not (worse x y)) (λ x. ap not (self x)) kept kept (λ p. omega arith))

    pub best-IsExact :
        (z : A) (size : ℕ) (hits kept dropped : List A)
        → IsBest worse size hits kept dropped
        → ((x : A) → level_with hits x ≤ 1)
        → IsExact size hits kept dropped
    best-IsExact z size hits kept dropped best apart =
        let self : (x : A) → worse x x ≡ false = irrefl (keeps worse) worse order z in
        let split : (p : A → Bool) → count p kept + count p dropped ≡ count p hits =
          λ p. sym (count-append p kept dropped) ∙ best.items p in
        let total : length kept + length dropped ≡ length hits =
          omega (
            arith,
            split (λ _. true),
            count-length kept,
            count-length dropped,
            count-length hits,
          ) in
        record {
          few = best_few z size hits kept dropped best;
          many =
              All-both dropped
                (λ x beaten one_level.
                  let level : (y : A) → Bool = λ y. not (worse x y) && not (worse y x) in
                  omega (
                    arith,
                    all_better x kept (omega (arith, apart x, split level)) beaten,
                    split (λ y. worse x y),
                    best.length_kept,
                    count-le level dropped,
                    total,
                  ))
                best.beaten
                (member (λ x y. not (worse x y) && not (worse y x)) (λ x. ground (arith, self x))
                  dropped dropped (λ p. omega arith));
        }

    count_few :
        (p t : A → Bool) (xs : List A)
        → All (λ x. t x ≡ true) xs
        → count (λ x. p x && t x) xs ≡ count p xs
    count_few p t [] h = refl
    count_few p t (x ∷ xs) h = ground (arith, h.0, count_few p t xs h.1)

    count_ext : (p q : A → Bool) → ((x : A) → p x ≡ q x) → (xs : List A) → count p xs ≡ count q xs
    count_ext p q same [] = refl
    count_ext p q same (x ∷ xs) = ground (arith, same x, count_ext p q same xs)

    -- what is kept, counted in the hits
    kept-count :
        (size : ℕ) (hits kept dropped : List A)
        → IsBest worse size hits kept dropped
        → IsExact size hits kept dropped
        → (p : A → Bool) → count p kept ≡ count (λ x. p x && ltb (better hits x) size) hits
    kept-count size hits kept dropped best exact p =
        let top : A → Bool = λ x. p x && ltb (better hits x) size in
        let inside : count top kept ≡ count p kept =
          count_few p (λ x. ltb (better hits x) size) kept
            (All-map kept (λ x few. ground (arith, few)) exact.few) in
        let outside : count top dropped ≡ 0 =
          count_none top dropped (All-map dropped (λ x many. ground (arith, many)) exact.many) in
        omega (arith, inside, outside, count-append top kept dropped, best.items top)

    -- The heap keeps the same hits in whatever order they come.
    pub push_all-SameItems :
        (z : A) (size : ℕ) (hits others : List A)
        → SameItems hits others
        → ((x : A) → level_with hits x ≤ 1)
        → SameItems (push_all worse size hits []) (push_all worse size others [])
    push_all-SameItems z size hits others same apart p =
        let (d, best) = push_all-IsBest worse order z size hits in
        let (e, second) = push_all-IsBest worse order z size others in
        let apart_too : (x : A) → level_with others x ≤ 1 =
          λ x. omega (arith, apart x, same (λ y. not (worse x y) && not (worse y x))) in
        kept-count size hits _ d best (best-IsExact z size hits _ d best apart) p
        ∙ count_ext _ _ (λ x. ap (λ n. p x && ltb n size) (same (λ y. worse x y))) hits
        ∙ same (λ x. p x && ltb (better others x) size)
        ∙ sym
            (kept-count size others _ e second (best-IsExact z size others _ e second apart_too) p)
