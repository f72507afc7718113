-- ===== src/Hnsw/Connect.antt =====
-- index/hnsw.go: the links that an inserted node gets at a level.
use turbograph.Prelude.{
  ℕ, ◌≤◌, ◌≡◌, refl, ◌∙◌, Bool, true, not, List, [], ◌∷◌, ◌++◌, length, any, ltb, leb, arith,
  if_cases, match_cases, length-append, All, All-append,
}
use turbograph.Heap.Array.{count, SameItems}
use turbograph.Hnsw.{
  Space, Candidate, Node, friends_of, set_friends, row_distance, shadows, select_from,
  select_neighbors, measured, prune_connections, link_back, link_all,
}
use turbograph.Hnsw.Well.{
  has_level, IsLinked, length-set_friends, has_level-set_friends, set_friends-IsLinked,
}

module _ {ℓ} {A : Type ℓ} (t : A → Bool) where
  pub All-count : (xs : List A) → All (λ x. t x ≡ true) xs → count (λ x. not (t x)) xs ≡ 0
  All-count [] h = refl
  All-count (x ∷ xs) h = ground (arith, h.0, All-count xs h.1)

  pub count-All : (xs : List A) → count (λ x. not (t x)) xs ≡ 0 → All (λ x. t x ≡ true) xs
  count-All [] h = tt
  count-All (x ∷ xs) h = (ground arith, count-All xs (omega arith))

measured-All :
    (σ : Space) (t : ℕ → Bool) (rows : List σ.Vec) (node : ℕ) (fs : List ℕ)
    → All (λ i. t i ≡ true) fs
    → All (λ (c : Candidate σ). t c.id ≡ true) (measured rows node fs)
unfolding measured
measured-All σ t rows node [] h = tt
measured-All σ t rows node (f ∷ fs) h =
    match_cases (All (λ (c : Candidate σ). t c.id ≡ true)) (row_distance σ rows node f)
      (λ _. measured-All σ t rows node fs h.1) (λ d _. (h.0, measured-All σ t rows node fs h.1))

module _ {σ : Space} where
  select_from-All :
      (t : ℕ → Bool) (rows : List σ.Vec) (m : ℕ) (cands : List (Candidate σ)) (selected : List ℕ)
      → All (λ (c : Candidate σ). t c.id ≡ true) cands
      → All (λ i. t i ≡ true) selected
      → All (λ i. t i ≡ true) (select_from rows m cands selected)
  unfolding select_from
  select_from-All t rows m [] selected hc hs = hs
  select_from-All t rows m (c ∷ cs) selected hc hs =
      if_cases (All (λ i. t i ≡ true)) (leb m (length selected)) (λ _. hs)
        (λ _. select_from-All t rows m cs _ hc.1 (
          if_cases (All (λ i. t i ≡ true)) (any (shadows rows c) selected) (λ _. hs)
            (λ _. All-append (λ i. t i ≡ true) selected (c.id ∷ []) hs (hc.0, tt))))

  length-select_from :
      (rows : List σ.Vec) (m : ℕ) (cands : List (Candidate σ)) (selected : List ℕ)
      → length selected ≤ m
      → length (select_from rows m cands selected) ≤ m
  unfolding select_from
  length-select_from rows m [] selected few = few
  length-select_from rows m (c ∷ cs) selected few =
      if_cases (λ (r : List ℕ). length r ≤ m) (leb m (length selected)) (λ _. few)
        (λ room. length-select_from rows m cs _ (
          if_cases (λ (r : List ℕ). length r ≤ m) (any (shadows rows c) selected) (λ _. few)
            (λ _. ground (arith, length-append selected (c.id ∷ [])))))

  pub select_neighbors-All :
      (t : ℕ → Bool) (rows : List σ.Vec) (cands : List (Candidate σ)) (m : ℕ)
      → All (λ (c : Candidate σ). t c.id ≡ true) cands
      → All (λ i. t i ≡ true) (select_neighbors rows cands m)
  unfolding select_neighbors
  select_neighbors-All t rows cands m h = select_from-All t rows m cands [] h tt

  pub length-select_neighbors :
      (rows : List σ.Vec) (cands : List (Candidate σ)) (m : ℕ)
      → length (select_neighbors rows cands m) ≤ m
  unfolding select_neighbors
  length-select_neighbors rows cands m = length-select_from rows m cands [] (omega arith)

  module _ (sort : List (Candidate σ) → List (Candidate σ))
      (permutes : (cs : List (Candidate σ)) → SameItems (sort cs) cs) where
    pub sort-All :
        (t : Candidate σ → Bool) (cs : List (Candidate σ))
        → All (λ c. t c ≡ true) cs
        → All (λ c. t c ≡ true) (sort cs)
    sort-All t cs h = count-All t (sort cs) (permutes cs (λ c. not (t c)) ∙ All-count t cs h)

    module _ (rows : List σ.Vec) (cur l : ℕ) (cap : ℕ → ℕ) where
      link_back-IsLinked :
          (nb : ℕ) (nodes : List Node)
          → IsLinked cap nodes
          → has_level nodes cur l ≡ true
          → IsLinked cap (link_back sort rows cur l (cap l) nb nodes)
      unfolding link_back prune_connections IsLinked
      link_back-IsLinked nb nodes linked there =
          let f : List ℕ = friends_of nodes nb l ++ cur ∷ [] in
          let inside : All (λ x. has_level nodes x l ≡ true) f =
            All-append (λ x. has_level nodes x l ≡ true) (friends_of nodes nb l) (cur ∷ [])
              (linked nb l).0 (there, tt) in
          if_cases (λ fs. IsLinked cap (set_friends nb l fs nodes)) (ltb (cap l) (length f))
            (λ many.
              set_friends-IsLinked cap nb l _ nodes linked
                (select_neighbors-All (λ x. has_level nodes x l) rows _ (cap l)
                  (sort-All (λ c. has_level nodes c.id l) _
                    (measured-All σ (λ x. has_level nodes x l) rows nb f inside)))
                (length-select_neighbors rows _ (cap l)))
            (λ few. set_friends-IsLinked cap nb l f nodes linked inside (ground arith))

      has_level-link_back :
          (nb : ℕ) (nodes : List Node) (j k : ℕ)
          → has_level (link_back sort rows cur l (cap l) nb nodes) j k ≡ has_level nodes j k
      unfolding link_back
      has_level-link_back nb nodes j k = has_level-set_friends nb l _ nodes j k

      pub length-link_all :
          (nbs : List ℕ) (nodes : List Node)
          → length (link_all sort rows cur l (cap l) nbs nodes) ≡ length nodes
      unfolding link_all link_back
      length-link_all [] nodes = refl
      length-link_all (nb ∷ nbs) nodes =
          length-link_all nbs (link_back sort rows cur l (cap l) nb nodes)
          ∙ length-set_friends nb l _ nodes

      pub has_level-link_all :
          (nbs : List ℕ) (nodes : List Node) (j k : ℕ)
          → has_level (link_all sort rows cur l (cap l) nbs nodes) j k ≡ has_level nodes j k
      unfolding link_all
      has_level-link_all [] nodes j k = refl
      has_level-link_all (nb ∷ nbs) nodes j k =
          has_level-link_all nbs (link_back sort rows cur l (cap l) nb nodes) j k
          ∙ has_level-link_back nb nodes j k

      pub link_all-IsLinked :
          (nbs : List ℕ) (nodes : List Node)
          → IsLinked cap nodes
          → has_level nodes cur l ≡ true
          → IsLinked cap (link_all sort rows cur l (cap l) nbs nodes)
      unfolding link_all
      link_all-IsLinked [] nodes linked there = linked
      link_all-IsLinked (nb ∷ nbs) nodes linked there =
          link_all-IsLinked nbs (link_back sort rows cur l (cap l) nb nodes)
            (link_back-IsLinked nb nodes linked there) (has_level-link_back nb nodes cur l ∙ there)
