-- ===== src/Hnsw/Walk.antt =====
-- index/hnsw.go: the walk of one layer toward the query.
use mathlib.Core.Option.{some_inj}
use mathlib.Core.Option
use turbograph.Prelude.{
  ℕ, zero, suc, ◌≤◌, ◌<◌, ◌≡◌, refl, sym, ap, subst, ◌⊎◌, ◌∙◌, inl, inr, true, false, List, [], ◌∷◌,
  All, Option, some, length, get_elem?, arith, if_cases, match_cases, Bool-cases, get_elem?-lt,
}
use turbograph.Heap.Array.{count}
use turbograph.Heap.Items.{count-le}
use turbograph.Hnsw.Well.{has_level}
use turbograph.Hnsw.InRange.{links_of-friends, links_of-some}
use turbograph.Hnsw.{
  links_of, Space, Hnsw, Descent, dist_to_node, friends_of, improve, improve_all, descend,
  greedy_descend,
}

-- The test `<` on distances is a strict order, as it is on floats, NaN included.
pub record IsStrict (σ : Space) : Type 0 where
  pub irrefl : (a : σ.Dist) → σ.below a a ≡ false
  pub trans : (a b c : σ.Dist) → σ.below a b ≡ true → σ.below b c ≡ true → σ.below a c ≡ true

module _ {σ : Space} (h : Hnsw σ) (q : σ.Vec) where
  -- no node of the list is nearer than `d`
  abbrev pub IsLowest : List ℕ → σ.Dist → Type 0
  IsLowest nbs d = All (λ nb. (e : σ.Dist) → dist_to_node h q nb ≡ some e → σ.below e d ≡ false) nbs

  -- what the loop over the neighbors keeps, that starts from the distance `d`
  record IsDescent (d : σ.Dist) (s : Descent σ) : Type 0 where
    at : dist_to_node h q s.best ≡ some s.best_d
    lower : s.improved ≡ true → σ.below s.best_d d ≡ true
    fixed : s.improved ≡ false → s.best_d ≡ d

  improve-IsDescent :
      IsStrict σ
      → (d : σ.Dist) (nb : ℕ) (s : Descent σ) → IsDescent d s
      → IsDescent d (improve h q nb s)
  improve-IsDescent order d nb s i =
      match_cases (IsDescent d) (dist_to_node h q nb) (λ _. i)
        (λ e found.
          if_cases (IsDescent d) (σ.below e s.best_d)
            (λ lower. record {
              at = found;
              lower = λ _. elim (Bool-cases s.improved) [
                | inl was ↦ order.trans e s.best_d d lower (i.lower was)
                | inr fresh ↦ sym (ap (σ.below e) (i.fixed fresh)) ∙ lower
              ];
              fixed = λ bad. absurd (ground arith);
            })
            (λ _. i))

  improve_all-IsDescent :
      IsStrict σ
      → (d : σ.Dist) (nbs : List ℕ) (s : Descent σ) → IsDescent d s
      → IsDescent d (improve_all h q nbs s)
  unfolding improve_all
  improve_all-IsDescent order d [] s i = i
  improve_all-IsDescent order d (nb ∷ nbs) s i =
      improve_all-IsDescent order d nbs (improve h q nb s) (improve-IsDescent order d nb s i)

  -- a step stays where it is and nothing is nearer, or it improves
  improve-cases :
      (nb : ℕ) (s : Descent σ)
      → ((improve h q nb s ≡ s)
          × ((e : σ.Dist) → dist_to_node h q nb ≡ some e → σ.below e s.best_d ≡ false))
        ⊎ ((improve h q nb s).improved ≡ true)
  improve-cases nb s =
      let Q : Descent σ → Type 0 = λ t.
        ((t ≡ s) × ((e : σ.Dist) → dist_to_node h q nb ≡ some e → σ.below e s.best_d ≡ false))
        ⊎ (t.improved ≡ true) in
      match_cases Q (dist_to_node h q nb)
        (λ missing. inl (refl, λ e found. absurd (ground (arith, missing, found))))
        (λ d there.
          if_cases Q (σ.below d s.best_d) (λ _. inr refl)
            (λ above. inl (
              refl,
              λ e found. ap (λ x. σ.below x s.best_d) (some_inj.0 (sym found ∙ there)) ∙ above,
            )))

  improve_all-improved :
      (nbs : List ℕ) (s : Descent σ) → s.improved ≡ true → (improve_all h q nbs s).improved ≡ true
  unfolding improve_all
  improve_all-improved [] s e = e
  improve_all-improved (nb ∷ nbs) s e =
      improve_all-improved nbs (improve h q nb s) (elim (improve-cases nb s) [
        | inl stayed ↦ ap (λ (t : Descent σ). t.improved) stayed.0 ∙ e
        | inr better ↦ better
      ])

  -- no neighbor was nearer where nothing improved
  improve_all-IsLowest :
      (nbs : List ℕ) (s : Descent σ)
      → (improve_all h q nbs s).improved ≡ false
      → IsLowest nbs s.best_d
  unfolding improve_all
  improve_all-IsLowest [] s last = tt
  improve_all-IsLowest (nb ∷ nbs) s last = elim (improve-cases nb s) [
    | inl stayed ↦ (
      stayed.1,
      improve_all-IsLowest nbs s (ap (λ t. (improve_all h q nbs t).improved) (sym stayed.0) ∙ last),
    )
    | inr better ↦ absurd (ground (arith, last, improve_all-improved nbs (improve h q nb s) better))
  ]

  -- the rows that are nearer than `d`
  closer : σ.Dist → ℕ
  closer d = count (λ v. σ.below (σ.distance q v) d) h.rows

  closer_mono :
      IsStrict σ
      → (d e : σ.Dist) (rows : List σ.Vec) → σ.below d e ≡ true
      → count (λ v. σ.below (σ.distance q v) d) rows ≤ count (λ v. σ.below (σ.distance q v) e) rows
  closer_mono order d e [] lower = omega arith
  closer_mono order d e (v ∷ vs) lower =
      ground (arith, closer_mono order d e vs lower, order.trans (σ.distance q v) d e)

  -- A row that is nearer than `e` has fewer rows that are nearer.
  closer-less :
      IsStrict σ
      → (i : ℕ) (d e : σ.Dist) (rows : List σ.Vec)
      → Option.map (σ.distance q) (get_elem? rows i) ≡ some d
      → σ.below d e ≡ true
      → count (λ v. σ.below (σ.distance q v) d) rows < count (λ v. σ.below (σ.distance q v) e) rows
  closer-less order i d e [] found lower = absurd (ground arith)
  closer-less order zero d e (v ∷ vs) found lower =
      let same : σ.distance q v ≡ d = some_inj.0 found in
      let out : σ.below (σ.distance q v) d ≡ false = ap (λ x. σ.below x d) same ∙ order.irrefl d in
      let into : σ.below (σ.distance q v) e ≡ true = ap (λ x. σ.below x e) same ∙ lower in
      ground (arith, closer_mono order d e vs lower)
  closer-less order (suc i) d e (v ∷ vs) found lower =
      ground (arith, closer-less order i d e vs found lower, order.trans (σ.distance q v) d e)

  -- what holds of the start and of the neighbors holds of the node found
  module _ (G : ℕ → Type 0) (level : ℕ) (good : (i : ℕ) → All G (friends_of h.nodes i level)) where
    improve_all-kept :
        (nbs : List ℕ) (s : Descent σ) → All G nbs → G s.best → G (improve_all h q nbs s).best
    unfolding improve_all
    improve_all-kept [] s g i = i
    improve_all-kept (nb ∷ nbs) s g i = improve_all-kept nbs (improve h q nb s) g.1 (
        match_cases (λ (t : Descent σ). G t.best) (dist_to_node h q nb) (λ _. i)
          (λ d _. if_cases (λ (t : Descent σ). G t.best) (σ.below d s.best_d) (λ _. g.0) (λ _. i)))

    descend-kept :
        (k best : ℕ) (d : σ.Dist) (found : ℕ)
        → G best
        → descend h q k level best d ≡ some found
        → G found
    unfolding descend
    descend-kept zero best d found g e = absurd (ground arith)
    descend-kept (suc k) best d found g e =
        let s : Descent σ = record { best = best; best_d = d; improved = false } in
        let Q : Option ℕ → Type 0 = λ o. o ≡ some found → G found in
        match_cases Q (links_of h best level) (λ _ ends. absurd (ground arith))
          (λ nbs linked.
            let t = improve_all h q nbs s in
            let inside : All G nbs =
              subst (All G) (links_of-friends h best level nbs linked) (good best) in
            if_cases Q t.improved
              (λ _ ends.
                descend-kept k t.best t.best_d found (improve_all-kept nbs s inside g) ends)
              (λ _ ends. subst G (some_inj.0 ends) g))
          e

    pub greedy_descend-kept :
        (ep found : ℕ) → G ep → greedy_descend h q ep level ≡ some found → G found
    unfolding greedy_descend
    greedy_descend-kept ep found g e =
        match_cases (λ o. o ≡ some found → G found) (dist_to_node h q ep)
          (λ _ ends. absurd (ground arith))
          (λ d _ ends. descend-kept (suc (length h.nodes)) ep d found g ends) e

  -- what the walk of a layer finds
  pub record IsFound (level : ℕ) (found : ℕ) : Type 0 where
    pub dist : σ.Dist
    pub at : dist_to_node h q found ≡ some dist
    pub lowest : IsLowest (friends_of h.nodes found level) dist

  Finds : ℕ → Option ℕ → Type 0
  Finds level o = (found : ℕ) × (o ≡ some found) × IsFound level found

  -- the list at the level is there for each node with the level, and its nodes have the level too
  abbrev pub HasLevel : ℕ → ℕ → Type 0
  HasLevel level i = has_level h.nodes i level ≡ true

  descend-Finds :
      IsStrict σ
      → length h.rows ≡ length h.nodes
      → (k level best : ℕ) (d : σ.Dist) → dist_to_node h q best ≡ some d
      → ((i : ℕ) → All (HasLevel level) (friends_of h.nodes i level))
      → HasLevel level best
      → closer d < k
      → Finds level (descend h q k level best d)
  unfolding descend Finds closer dist_to_node
  descend-Finds order fit zero level best d at good there enough = absurd (omega arith)
  descend-Finds order fit (suc k) level best d at good there enough =
      let s : Descent σ = record { best = best; best_d = d; improved = false } in
      let t = improve_all h q (friends_of h.nodes best level) s in
      let kept =
        improve_all-IsDescent order d (friends_of h.nodes best level) s
          (record { at = at; lower = λ bad. absurd (ground arith); fixed = λ _. refl }) in
      let there' =
        improve_all-kept (HasLevel level) level good (friends_of h.nodes best level) s (good best)
          there in
      rw (links_of-some h best level fit there (good best), descend)
        (if_cases (Finds level) t.improved
          (λ on. descend-Finds order fit k level t.best t.best_d kept.at good there' (
            omega
              (arith, enough, closer-less order t.best t.best_d d h.rows kept.at (kept.lower on))))
          (λ over. (
            best,
            refl,
            record {
              dist = d;
              at = at;
              lowest = improve_all-IsLowest (friends_of h.nodes best level) s over;
            },
          )))

  -- In an index that has a row for each node, where the neighbors of a node at a level have a list
  -- at that level, and with distances in a strict order, the walk of the level from a node that
  -- has it ends and meets no link out of range, at a node none of whose neighbors is nearer to the
  -- query.
  pub greedy_descend-IsFound :
      IsStrict σ
      → length h.rows ≡ length h.nodes
      → (ep level : ℕ) → ((i : ℕ) → All (HasLevel level) (friends_of h.nodes i level))
      → HasLevel level ep
      → (found : ℕ) × (greedy_descend h q ep level ≡ some found) × IsFound level found
  unfolding greedy_descend Finds closer dist_to_node
  greedy_descend-IsFound order fit ep level good there =
      match_cases (Finds level) (dist_to_node h q ep)
        (λ missing.
          absurd (ground (arith, missing, there, get_elem?-lt h.rows ep, get_elem?-lt h.nodes ep)))
        (λ d at.
          descend-Finds order fit (suc (length h.nodes)) level ep d at good there
            (omega (arith, count-le (λ v. σ.below (σ.distance q v) d) h.rows)))
