-- ===== src/Hnsw/Total.antt =====
-- index/hnsw.go: the turns that the search of a layer takes.
use turbograph.Prelude.{
  sym, subst, All, true, none, ℕ, zero, suc, ◌+◌, ◌≤◌, ◌<◌, ◌≡◌, refl, inl, inr, Bool, false, not,
  List, [], ◌∷◌, Option, some, length, get_elem?, ◌==◌, arith, if_cases, match_cases, Option-cases,
  get_elem?-lt, length-set, length-replicate,
}
use turbograph.Heap.{pop}
use turbograph.Heap.Array.{count, count-set}
use turbograph.Heap.Items.{push-count, popped-count, count-le, length-push, length-popped}
use turbograph.Hnsw.Visited.{IsEpochal, reset-unseen}
use turbograph.Hnsw.Well.{has_level}
use turbograph.Hnsw.InRange.{links_of-some}
use turbograph.Hnsw.Layer.{IsKept, visit_all-kept}
use turbograph.Hnsw.{
  Space, Hnsw, Candidate, Frontier, VisitedSet, mark, seen, reset, new_visited, grow, dist_to_node,
  no_farther, nearer, friends_of, meet, visit, visit_all, is_over, search_loop, start_at,
  search_layer,
}

-- the nodes of a visited set that are not seen
unseen_count : VisitedSet → ℕ
unseen_count v = count (λ m. not (m == v.epoch)) v.array

-- Marking a node of the array that is not seen takes it from those that are not seen.
mark-unseen_count :
    (i : ℕ) (v : VisitedSet)
    → i < length v.array
    → seen i v ≡ false
    → suc (unseen_count (mark i v)) ≡ unseen_count v
unfolding unseen_count seen mark
mark-unseen_count i v inside new = elim (Option-cases (get_elem? v.array i)) [
  | inl missing ↦ absurd (ground (arith, get_elem?-lt v.array i))
  | inr (m, found) ↦ ground (arith, count-set (λ k. not (k == v.epoch)) v.array i m v.epoch found)
]

unseen_count-le : (v : VisitedSet) → unseen_count v ≤ length v.array
unfolding unseen_count
unseen_count-le v = count-le (λ m. not (m == v.epoch)) v.array

pub length-reset : (n : ℕ) → length (reset n new_visited).array ≡ n
unfolding reset grow
length-reset zero = refl
length-reset (suc n) = ground (arith, length-replicate {A = ℕ} (suc n) 0)

new_visited-IsEpochal : IsEpochal new_visited
new_visited-IsEpochal = record {
  fits = omega arith;
  small = omega arith;
  past = λ i m found. absurd (ground arith);
}

pub length-mark : (i : ℕ) (v : VisitedSet) → length (mark i v).array ≡ length v.array
unfolding mark
length-mark i v = length-set v.array i v.epoch

module _ {σ : Space} where
  -- the turns that are left: one for each node that is not seen, and one for each candidate
  work : Frontier σ → ℕ
  work s = unseen_count s.visited + length s.cand

  Ends : Option (List (Candidate σ)) → Type 0
  Ends o = (found : List (Candidate σ)) × (o ≡ some found)

  module _ (h : Hnsw σ) (q : σ.Vec) (accept : ℕ → Bool) (ef level : ℕ) where
    -- what a step of the loop over the neighbors keeps
    record IsBounded (s t : Frontier σ) : Type 0 where
      fits : length h.rows ≤ length t.visited.array
      shrinks : work t ≤ work s

    meet-IsBounded :
        (c : Candidate σ) (s : Frontier σ)
        → c.id < length s.visited.array
        → length h.rows ≤ length s.visited.array
        → IsBounded s (meet h q accept ef level c s)
    unfolding meet work
    meet-IsBounded c s inside fit =
        if_cases (IsBounded s) (seen c.id s.visited)
          (λ old. record { fits = fit; shrinks = omega arith })
          (λ new.
            let less : suc (unseen_count (mark c.id s.visited)) ≡ unseen_count s.visited =
              mark-unseen_count c.id s.visited inside new in
            record {
              fits = ground (arith, length-mark c.id s.visited);
              shrinks = ground (arith, length-push no_farther c s.cand);
            })

    visit-IsBounded :
        (nb : ℕ) (s : Frontier σ)
        → length h.rows ≤ length s.visited.array
        → IsBounded s (visit h q accept ef level nb s)
    unfolding visit dist_to_node
    visit-IsBounded nb s fit =
        match_cases (IsBounded s) (dist_to_node h q nb)
          (λ missing. record { fits = fit; shrinks = omega arith })
          (λ d found.
            meet-IsBounded (record { id = nb; dist = d }) s (ground (arith, get_elem?-lt h.rows nb))
              fit)

    visit_all-IsBounded :
        (nbs : List ℕ) (s : Frontier σ)
        → length h.rows ≤ length s.visited.array
        → IsBounded s (visit_all h q accept ef level nbs s)
    unfolding visit_all
    visit_all-IsBounded [] s fit = record { fits = fit; shrinks = omega arith }
    visit_all-IsBounded (nb ∷ nbs) s fit =
        let one = visit-IsBounded nb s fit in
        let rest = visit_all-IsBounded nbs (visit h q accept ef level nb s) one.fits in
        record { fits = rest.fits; shrinks = omega (arith, one.shrinks, rest.shrinks) }

    -- a node has the level
    abbrev pub HasLevel : ℕ → Type 0
    HasLevel i = has_level h.nodes i level ≡ true

    -- the candidates that do not have the level: none
    abbrev strangers : Frontier σ → ℕ
    strangers s = count (λ c. not (has_level h.nodes c.id level)) s.cand

    meet-strangers :
        (s : Frontier σ) (nb : ℕ) (d : σ.Dist)
        → HasLevel nb
        → strangers s ≡ 0
        → strangers (meet h q accept ef level (record { id = nb; dist = d }) s) ≡ 0
    unfolding meet
    meet-strangers s nb d there i =
        let c : Candidate σ = record { id = nb; dist = d } in
        ground (
          arith,
          there,
          i,
          push-count no_farther (λ c. not (has_level h.nodes c.id level)) c s.cand,
        )

    strangers-IsKept : IsKept h q accept ef level HasLevel (λ s. strangers s ≡ 0)
    strangers-IsKept = record {
      popped = λ s r popped i.
          omega (
            arith,
            popped-count nearer (λ c. not (has_level h.nodes c.id level)) s.cand r popped,
            i,
          );
      met = λ s nb d at there i. meet-strangers s nb d there i;
    }

    -- With a turn for each node that is not seen and each candidate, and one more, the search ends.
    search_loop-some :
        length h.rows ≡ length h.nodes
        → ((i : ℕ) → All HasLevel (friends_of h.nodes i level))
        → (k : ℕ) (s : Frontier σ) → strangers s ≡ 0
        → work s < k
        → length h.rows ≤ length s.visited.array
        → Ends (search_loop h q accept ef level k s)
    unfolding Ends search_loop work
    search_loop-some same good zero s known enough fit = absurd (omega arith)
    search_loop-some same good (suc k) s known enough fit =
        match_cases Ends (pop nearer s.cand) (λ _. (s.result, refl))
          (λ r popped.
            let t : Frontier σ = record s { cand = r.1 } in
            let shorter : suc (length r.1) ≡ length s.cand = length-popped nearer s.cand r popped in
            let nbs = friends_of h.nodes r.0.id level in
            let all = visit_all-IsBounded nbs t fit in
            let there : HasLevel r.0.id = ground (
              arith,
              known,
              popped-count nearer (λ c. not (has_level h.nodes c.id level)) s.cand r popped,
            ) in
            let linked = links_of-some h r.0.id level same there (good r.0.id) in
            if_cases Ends (is_over h q accept ef level r.0 s.result) (λ over. (s.result, refl))
              (λ on.
                subst
                  (λ (o : Option (List ℕ)). Ends (elim o [
                    | none ↦ none
                    | some fs ↦
                        search_loop h q accept ef level k (visit_all h q accept ef level fs t)
                  ]))
                  (sym linked)
                  (search_loop-some same good k (visit_all h q accept ef level nbs t)
                    (visit_all-kept h q accept ef level HasLevel good (λ f. strangers f ≡ 0)
                      strangers-IsKept nbs t (good r.0.id)
                      (strangers-IsKept.popped s r popped known))
                    (omega (arith, all.shrinks, shorter)) all.fits)))

    start_at-work :
        (ep : ℕ) (d : σ.Dist)
        → ep < length h.nodes
        → work (start_at h q accept ef level ep d) ≤ length h.nodes
    unfolding work
    start_at-work ep d inside =
        let v : VisitedSet = reset (length h.nodes) new_visited in
        let less : suc (unseen_count (mark ep v)) ≡ unseen_count v =
          mark-unseen_count ep v (omega (arith, length-reset (length h.nodes)))
            (reset-unseen (length h.nodes) ep new_visited new_visited-IsEpochal inside) in
        omega (arith, unseen_count-le v, length-reset (length h.nodes))

    -- In an index that has a row for each node, where the neighbors of a node at a level have a
    -- list at that level, the search of the level from a node that has it ends and meets no link
    -- out of range: a turn for each node and one more are enough, whatever the distances and the
    -- filter are.
    pub search_layer-some :
        (ep : ℕ)
        → length h.rows ≡ length h.nodes
        → ((i : ℕ) → All HasLevel (friends_of h.nodes i level))
        → HasLevel ep
        → (found : List (Candidate σ)) × (search_layer h q accept ef level ep ≡ some found)
    unfolding search_layer Ends dist_to_node
    search_layer-some ep fit good there =
        match_cases Ends (dist_to_node h q ep)
          (λ missing.
            absurd
              (ground (arith, missing, there, get_elem?-lt h.rows ep, get_elem?-lt h.nodes ep)))
          (λ d found.
            search_loop-some fit good (suc (length h.nodes)) (start_at h q accept ef level ep d)
              (ground (arith, there))
              (omega (arith, start_at-work ep d (ground (arith, there, get_elem?-lt h.nodes ep))))
              (omega (
                arith,
                length-mark ep (reset (length h.nodes) new_visited),
                length-reset (length h.nodes),
              )))
