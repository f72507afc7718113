-- ===== src/Hnsw/Extend.antt =====
-- index/hnsw.go: the descent to the level of a new node, and the links that it gets below.
use turbograph.Prelude.{
  ℕ, zero, suc, ◌≤◌, ◌≡◌, refl, sym, ap, ◌∙◌, subst, Bool, true, not, List, [], ◌∷◌, ◌++◌, min,
  Option, none, some, length, get_elem?, replicate, ltb, ◌==◌, arith, if_cases, get_elem?-lt,
  get_elem?-snoc, All, All-map,
}
use turbograph.Heap.Array.{SameItems}
use turbograph.Hnsw.{
  Space, Hnsw, Candidate, Node, friends_of, search_layer, set_friends, select_neighbors, connect,
  connect_down, max_conn_at, next_entry, descend_to,
}
use turbograph.Hnsw.Well.{
  has_level, IsLinked, has_level-set_friends, length-set_friends, set_friends-IsLinked,
}
use turbograph.Hnsw.Connect.{
  count-All, sort-All, select_neighbors-All, length-select_neighbors, length-link_all,
  has_level-link_all, link_all-IsLinked,
}
use turbograph.Hnsw.Total.{search_layer-some}
use turbograph.Hnsw.Layer.{search_layer-rejects}
use turbograph.Hnsw.Walk.{IsStrict, greedy_descend-IsFound, greedy_descend-kept}

pub has_level-le :
    (nodes : List Node) (i k l : ℕ)
    → k ≤ l
    → has_level nodes i l ≡ true
    → has_level nodes i k ≡ true
has_level-le nodes i k l low there = ground arith

pub has_level-snoc :
    (nodes : List Node) (n : Node) (i l : ℕ)
    → has_level nodes i l ≡ true
    → has_level (nodes ++ n ∷ []) i l ≡ true
has_level-snoc nodes n i l there = ground (arith, get_elem?-snoc nodes n i, get_elem?-lt nodes i)

fresh_friends :
    (k l : ℕ) → (elim (get_elem? (replicate {A = List ℕ} k []) l) [ none ↦ [] | some f ↦ f ]) ≡ []
fresh_friends zero l = refl
fresh_friends (suc k) zero = refl
fresh_friends (suc k) (suc l) = fresh_friends k l

-- a new node has no links
pub snoc-IsLinked :
    (cap : ℕ → ℕ) (nodes : List Node) (level : ℕ)
    → IsLinked cap nodes
    → IsLinked cap (nodes ++ record { level = level; friends = replicate (suc level) [] } ∷ [])
unfolding IsLinked
snoc-IsLinked cap nodes level linked i l =
    let n : Node = record { level = level; friends = replicate (suc level) [] } in
    let P : List ℕ → Type 0 =
      λ fs. All (λ f. has_level (nodes ++ n ∷ []) f l ≡ true) fs × (length fs ≤ cap l) in
    let Q : Option Node → Type 0 = λ o.
      P (elim o [ none ↦ [] | some m ↦ elim (get_elem? m.friends l) [ none ↦ [] | some f ↦ f ] ]) in
    subst Q (sym (get_elem?-snoc nodes n i)) (
      if_cases Q (i == length nodes)
        (λ last. subst P (sym (fresh_friends (suc level) l)) (tt, omega arith))
        (λ old. (
          All-map (friends_of nodes i l) (λ f. has_level-snoc nodes n f l) (linked i l).0,
          (linked i l).1,
        )))

module _ {σ : Space} where
  -- the nodes that the search of a layer finds have its level
  search_layer-All :
      (h : Hnsw σ) (q : σ.Vec) (ef level ep : ℕ) (found : List (Candidate σ))
      → IsLinked (max_conn_at h) h.nodes
      → has_level h.nodes ep level ≡ true
      → search_layer h q (λ _. true) ef level ep ≡ some found
      → All (λ (c : Candidate σ). has_level h.nodes c.id level ≡ true) found
  unfolding IsLinked
  search_layer-All h q ef level ep found linked there ends =
      count-All (λ (c : Candidate σ). has_level h.nodes c.id level) found
        (search_layer-rejects h q (λ _. true) ef level (λ i. has_level h.nodes i level ≡ true)
          (λ c. not (has_level h.nodes c.id level)) (λ i. (linked i level).0)
          (λ nb d g at _. ap not g) ep found there ends)

  -- what the descent to the level of the new node finds
  pub descend_to-level :
      IsStrict σ
      → (h : Hnsw σ) (q : σ.Vec) (level l ep : ℕ) → length h.rows ≡ length h.nodes
      → IsLinked (max_conn_at h) h.nodes
      → has_level h.nodes ep l ≡ true
      → (found : ℕ) × (descend_to h q level l ep ≡ some found)
        × (has_level h.nodes found (min level l) ≡ true)
  unfolding descend_to IsLinked
  descend_to-level order h q level zero ep fit linked there =
      (ep, refl, has_level-le h.nodes ep (min level 0) 0 (omega arith) there)
  descend_to-level order h q level (suc l) ep fit linked there =
      let Q : Option ℕ → Type 0 = λ o.
        (found : ℕ) × (o ≡ some found) × (has_level h.nodes found (min level (suc l)) ≡ true) in
      let (e, walked, _) =
        greedy_descend-IsFound h q order fit ep (suc l) (λ i. (linked i (suc l)).0) there in
      let high : has_level h.nodes e (suc l) ≡ true =
        greedy_descend-kept h q (λ i. has_level h.nodes i (suc l) ≡ true) (suc l)
          (λ i. (linked i (suc l)).0) ep e there walked in
      let (found, rest, low) =
        descend_to-level order h q level l e fit linked
          (has_level-le h.nodes e l (suc l) (omega arith) high) in
      if_cases Q (ltb level (suc l))
        (λ below.
          subst (λ (o : Option ℕ). Q (elim o [ none ↦ none | some i ↦ descend_to h q level l i ]))
            (sym walked)
            (
              found,
              rest,
              has_level-le h.nodes found (min level (suc l)) (min level l) (ground arith) low,
            ))
        (λ stop. (ep, refl, subst (λ k. has_level h.nodes ep k ≡ true) (ground arith) there))

  next_entry-All :
      (t : ℕ → Bool) (ep : ℕ) (cands : List (Candidate σ))
      → t ep ≡ true
      → All (λ (c : Candidate σ). t c.id ≡ true) cands
      → t (next_entry ep cands) ≡ true
  next_entry-All t ep [] h hs = h
  next_entry-All t ep (c ∷ cs) h hs = hs.0

  module _ (sort : List (Candidate σ) → List (Candidate σ))
      (permutes : (cs : List (Candidate σ)) → SameItems (sort cs) cs) (q : σ.Vec) (cur : ℕ) where
    -- what the links of an insert keep of a state
    pub record IsExtended (h : Hnsw σ) (nodes : List Node) : Type 0 where
      pub linked : IsLinked (max_conn_at h) nodes
      pub same : (j k : ℕ) → has_level nodes j k ≡ has_level h.nodes j k
      pub size : length nodes ≡ length h.nodes

    connect-IsExtended :
        (l : ℕ) (cands : List (Candidate σ)) (h : Hnsw σ)
        → IsLinked (max_conn_at h) h.nodes
        → has_level h.nodes cur l ≡ true
        → All (λ (c : Candidate σ). has_level h.nodes c.id l ≡ true) cands
        → IsExtended h (connect sort cur l cands h).nodes
    unfolding connect
    connect-IsExtended l cands h linked there inside =
        let nbs = select_neighbors h.rows cands (max_conn_at h l) in
        let start = set_friends cur l nbs h.nodes in
        record {
          linked =
              link_all-IsLinked sort permutes h.rows cur l (max_conn_at h) nbs start
                (set_friends-IsLinked (max_conn_at h) cur l nbs h.nodes linked
                  (select_neighbors-All (λ i. has_level h.nodes i l) h.rows cands (max_conn_at h l)
                    inside)
                  (length-select_neighbors h.rows cands (max_conn_at h l)))
                (has_level-set_friends cur l nbs h.nodes cur l ∙ there);
          same = λ j k.
              has_level-link_all sort permutes h.rows cur l (max_conn_at h) nbs start j k
              ∙ has_level-set_friends cur l nbs h.nodes j k;
          size =
              length-link_all sort permutes h.rows cur l (max_conn_at h) nbs start
              ∙ length-set_friends cur l nbs h.nodes;
        }

    unfoldable pub Connects : Hnsw σ → Option (Hnsw σ) → Type 0
    Connects h o =
        (nodes : List Node) × (o ≡ some (record h { nodes = nodes })) × IsExtended h nodes

    pub connect_down-Connects :
        (l ep : ℕ) (h : Hnsw σ)
        → length h.rows ≡ length h.nodes
        → IsLinked (max_conn_at h) h.nodes
        → has_level h.nodes cur l ≡ true
        → has_level h.nodes ep l ≡ true
        → Connects h (connect_down sort q cur l ep h)
    unfolding connect_down Connects connect IsLinked
    connect_down-Connects zero ep h fit linked mine there =
        let (found, ends) =
          search_layer-some h q (λ _. true) h.ef_cons 0 ep fit (λ i. (linked i 0).0) there in
        let inside = search_layer-All h q h.ef_cons 0 ep found linked there ends in
        (
          (connect sort cur 0 (sort found) h).nodes,
          ap
              (λ (o : Option (List (Candidate σ))). elim o [
                | none ↦ none
                | some cs ↦ some (connect sort cur 0 (sort cs) h)
              ])
              ends,
          connect-IsExtended 0 (sort found) h linked mine
              (sort-All sort permutes (λ c. has_level h.nodes c.id 0) found inside),
        )
    connect_down-Connects (suc l) ep h fit linked mine there =
        let (found, ends) =
          search_layer-some h q (λ _. true) h.ef_cons (suc l) ep fit (λ i. (linked i (suc l)).0)
            there in
        let inside =
          sort-All sort permutes (λ c. has_level h.nodes c.id (suc l)) found
            (search_layer-All h q h.ef_cons (suc l) ep found linked there ends) in
        let g = connect sort cur (suc l) (sort found) h in
        let one = connect-IsExtended (suc l) (sort found) h linked mine inside in
        let high : has_level h.nodes (next_entry ep (sort found)) (suc l) ≡ true =
          next_entry-All (λ i. has_level h.nodes i (suc l)) ep (sort found) there inside in
        let lower : (i : ℕ) → has_level h.nodes i (suc l) ≡ true → has_level g.nodes i l ≡ true =
          λ i e. one.same i l ∙ has_level-le h.nodes i l (suc l) (omega arith) e in
        let (nodes, rest, more) =
          connect_down-Connects l (next_entry ep (sort found)) g (fit ∙ sym one.size) one.linked
            (lower cur mine) (lower (next_entry ep (sort found)) high) in
        (
          nodes,
          ap
                (λ (o : Option (List (Candidate σ))). elim o [
                  | none ↦ none
                  | some cs ↦
                      connect_down sort q cur l (next_entry ep (sort cs))
                        (connect sort cur (suc l) (sort cs) h)
                ])
                ends
              ∙ rest,
          record {
            linked = more.linked;
            same = λ j k. more.same j k ∙ one.same j k;
            size = more.size ∙ one.size;
          },
        )
