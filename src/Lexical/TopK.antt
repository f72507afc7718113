-- ===== src/Lexical/TopK.antt =====
-- topK of lexical/bm25.go, and the documents that a search scores.
use turbograph.Prelude.{
  ℕ, ◌≤◌, ◌≡◌, refl, sym, ◌∙◌, subst, inl, inr, Bool, true, false, not, ◌&&◌, List, [], ◌∷◌, map,
  none, if◌then◌else◌, length, leb, ◌==◌, arith, Bool-cases,
}
use turbograph.Prelude.Keys.{nat_key, string_key}
use turbograph.Prelude.Assoc.{lookup, IsMap}
use turbograph.Heap.{push_all}
use turbograph.Heap.Array.{count, SameItems}
use turbograph.Heap.Items.{count_mono, count-length}
use turbograph.Heap.Order.{IsOrder}
use turbograph.Heap.Bounded.{keeps}
use turbograph.Heap.Exact.{level_with, push_all-SameItems}
use turbograph.Lexical.{Index, Floats, Scored, Result, worse, top_k, narrowed, result_at}

-- The order of float32 scores that are no NaN.
pub record IsScoreOrder (φ : Floats) : Type 0 where
  pub same_iff : (a b : φ.Score) → φ.same a b ≡ (not (φ.below a b) && not (φ.below b a))
  pub asym : (a b : φ.Score) → φ.below a b ≡ true → φ.below b a ≡ false
  pub negtrans : (a b c : φ.Score) → φ.below b a ≡ false → φ.below c b ≡ false → φ.below c a ≡ false

count-map :
    {A B : Type 0} (p : B → Bool) (f : A → B) (xs : List A)
    → count p (map f xs) ≡ count (λ x. p (f x)) xs
count-map p f [] = refl
count-map p f (x ∷ xs) = omega (arith, count-map p f xs)

if_both :
    {A : Type 0} (R : A → A → Type 0) (b : Bool) {x y u v : A}
    → R x u
    → R y v
    → R (if b then x else y) (if b then u else v)
if_both R true h k = h
if_both R false h k = k

count-key-none :
    {V : Type 0} (i : ℕ) (m : List (ℕ × V)) → lookup i m ≡ none → count (λ p. p.0 == i) m ≡ 0
unfolding lookup
count-key-none i [] h = refl
count-key-none i ((k, v) ∷ m) h = ground (arith, count-key-none i m)

count-key : {V : Type 0} (i : ℕ) (m : List (ℕ × V)) → IsMap m → count (λ p. p.0 == i) m ≤ 1
count-key i [] h = omega arith
count-key i ((k, v) ∷ m) h = elim (Bool-cases (k == i)) [
  | inl same ↦
      let here : k ≡ i = ground arith in
      ground (arith, same, count-key-none i m (subst (λ j. lookup j m ≡ none) here h.0))
  | inr other ↦ ground (arith, other, count-key i m h.1)
]

module _ {φ : Floats} (order : IsScoreOrder φ) where
  worse-IsOrder : IsOrder (keeps (worse {φ = φ})) worse
  unfolding worse
  worse-IsOrder = record {
    settled = λ p c. refl;
    asym = λ x y h. ground (
      arith,
      h,
      order.same_iff x.score y.score,
      order.same_iff y.score x.score,
      order.asym x.score y.score,
    );
    negtrans = λ x y w h k. ground (
      arith,
      h,
      k,
      order.same_iff y.score x.score,
      order.same_iff w.score y.score,
      order.same_iff w.score x.score,
      order.negtrans x.score y.score w.score,
      order.negtrans y.score w.score x.score,
      order.negtrans w.score x.score y.score,
    );
  }

  -- only the same document is neither better nor worse
  level-ord :
      (x y : Scored φ) → (not (worse x y) && not (worse y x)) ≡ true → (y.ord == x.ord) ≡ true
  unfolding worse
  level-ord x y e =
      ground (arith, e, order.same_iff x.score y.score, order.same_iff y.score x.score)

  module _ (sort_results : List (Result φ) → List (Result φ))
      (permutes : (rs : List (Result φ)) → SameItems (sort_results rs) rs) (ix : Index) where
    hits-apart :
        (scores : List (ℕ × φ.Wide))
        → IsMap scores
        → (x : Scored φ) → level_with worse (map narrowed scores) x ≤ 1
    hits-apart scores distinct x = omega (
      arith,
      count-map (λ y. not (worse x y) && not (worse y x)) narrowed scores,
      count_mono (λ y. not (worse x (narrowed y)) && not (worse (narrowed y) x)) (λ y. y.0 == x.ord)
          (λ y e. level-ord x (narrowed y) e) scores,
      count-key x.ord scores distinct,
    )

    results-SameItems :
        (hits others : List (Scored φ))
        → SameItems hits others
        → SameItems
            (sort_results (map (result_at ix) hits))
            (sort_results (map (result_at ix) others))
    results-SameItems hits others same p =
        permutes (map (result_at ix) hits) p
        ∙ count-map p (result_at ix) hits
        ∙ same (λ x. p (result_at ix x))
        ∙ sym (count-map p (result_at ix) others)
        ∙ sym (permutes (map (result_at ix) others) p)

    narrowed-SameItems :
        (scores others : List (ℕ × φ.Wide))
        → SameItems scores others
        → SameItems {A = Scored φ} (map narrowed scores) (map narrowed others)
    narrowed-SameItems scores others same p =
        count-map p narrowed scores ∙ same (λ x. p (narrowed x)) ∙ sym (count-map p narrowed others)

    -- topK gives the same documents with the same scores, as often, in whatever order the map of
    -- the scores is visited. Assumed: the scores are in a strict weak order, no NaN among them, no
    -- document stands twice in the map, and the sort keeps the results.
    pub top_k-SameItems :
        (scores others : List (ℕ × φ.Wide)) (k : ℕ)
        → IsMap scores
        → SameItems scores others
        → SameItems (top_k sort_results ix scores k) (top_k sort_results ix others k)
    unfolding top_k
    top_k-SameItems scores others k distinct same p =
        let size : length scores ≡ length others =
          omega (arith, same (λ _. true), count-length scores, count-length others) in
        let whole = narrowed-SameItems scores others same in
        subst
          (λ n.
            count p (top_k sort_results ix scores k)
            ≡ count p (
                if leb n k
                then sort_results (map (result_at ix) (map narrowed others))
                else sort_results (map (result_at ix) (push_all worse k (map narrowed others) []))))
          size
          (if_both (λ xs ys. count p xs ≡ count p ys) (leb (length scores) k)
            (results-SameItems (map narrowed scores) (map narrowed others) whole p)
            (results-SameItems _ _
              (push_all-SameItems worse worse-IsOrder (record { ord = 0; score = φ.narrow φ.zero })
                k (map narrowed scores) (map narrowed others) whole (hits-apart scores distinct))
              p))
