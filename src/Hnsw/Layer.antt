-- ===== src/Hnsw/Layer.antt =====
-- index/hnsw.go: what the search of a layer returns.
use mathlib.Core.Option.{some_inj}
use turbograph.Prelude.{
  ℕ, zero, suc, ◌+◌, ◌≤◌, ◌≡◌, sym, ap, ◌∙◌, subst, Bool, true, false, List, [], ◌∷◌, Option, some,
  if◌then◌else◌, length, ltb, ◌==◌, arith, if_cases, match_cases, All,
}
use turbograph.Heap.{push, pop}
use turbograph.Heap.Array.{count}
use turbograph.Heap.Items.{push-count, popped-count}
use turbograph.Hnsw.InRange.{links_of-friends}
use turbograph.Hnsw.{
  links_of, Space, Hnsw, Candidate, Frontier, seen, dist_to_node, farther, no_nearer, nearer, admit,
  friends_of, meet, visit, visit_all, is_over, search_loop, start_at, search_layer,
}

module _ {σ : Space} (h : Hnsw σ) (q : σ.Vec) (accept : ℕ → Bool) (ef level : ℕ) where
  admit-count :
      (p : Candidate σ → Bool) (c : Candidate σ) (result : List (Candidate σ))
      → count p (admit h q accept ef level c result) ≤ count p result + (if p c then 1 else 0)
  unfolding admit
  admit-count p c result =
      let P : List (Candidate σ) → Type 0 =
        λ r. count p r ≤ count p result + (if p c then 1 else 0) in
      let whole : P (push no_nearer c result) = omega (arith, push-count no_nearer p c result) in
      if_cases P (ltb ef (length (push no_nearer c result)))
        (λ full.
          match_cases P (pop farther (push no_nearer c result)) (λ _. whole)
            (λ r popped. omega (
              arith,
              push-count no_nearer p c result,
              popped-count farther p (push no_nearer c result) r popped,
            )))
        (λ room. whole)

  -- what holds of a state, step by step from the start to the end
  pub record IsKept (G : ℕ → Type 0) (P : Frontier σ → Type 0) : Type 0 where
    pub popped :
        (s : Frontier σ) (r : Candidate σ × List (Candidate σ))
        → pop nearer s.cand ≡ some r
        → P s
        → P (record s { cand = r.1 })
    pub met :
        (s : Frontier σ) (nb : ℕ) (d : σ.Dist)
        → dist_to_node h q nb ≡ some d
        → G nb
        → P s
        → P (meet h q accept ef level (record { id = nb; dist = d }) s)

  module _ (G : ℕ → Type 0) (good : (i : ℕ) → All G (friends_of h.nodes i level))
      (P : Frontier σ → Type 0) (kept : IsKept G P) where
    pub visit_all-kept :
        (nbs : List ℕ) (s : Frontier σ) → All G nbs → P s → P (visit_all h q accept ef level nbs s)
    unfolding visit_all visit
    visit_all-kept [] s g i = i
    visit_all-kept (nb ∷ nbs) s g i =
        visit_all-kept nbs (visit h q accept ef level nb s) g.1
          (match_cases P (dist_to_node h q nb) (λ _. i) (λ d found. kept.met s nb d found g.0 i))

    search_loop-kept :
        (k : ℕ) (s : Frontier σ) (found : List (Candidate σ))
        → P s
        → search_loop h q accept ef level k s ≡ some found
        → (t : Frontier σ) × P t × (t.result ≡ found)
    unfolding search_loop
    search_loop-kept zero s found i e = absurd (ground arith)
    search_loop-kept (suc k) s found i ends =
        let Q : Option (List (Candidate σ)) → Type 0 =
          λ o. o ≡ some found → (t : Frontier σ) × P t × (t.result ≡ found) in
        match_cases Q (pop nearer s.cand) (λ _ e. (s, i, some_inj.0 e))
          (λ r popped.
            if_cases Q (is_over h q accept ef level r.0 s.result) (λ over e. (s, i, some_inj.0 e))
              (λ on.
                match_cases Q (links_of h r.0.id level) (λ _ e. absurd (ground arith))
                  (λ nbs linked e.
                    search_loop-kept k _ found
                      (visit_all-kept nbs (record s { cand = r.1 })
                        (subst (All G) (links_of-friends h r.0.id level nbs linked) (good r.0.id))
                        (kept.popped s r popped i))
                      e)))
          ends

  -- the test fails on each node that is accepted, with its distance
  abbrev pub Fails : (ℕ → Type 0) → (Candidate σ → Bool) → Type 0
  Fails G p =
      (nb : ℕ) (d : σ.Dist)
      → G nb
      → dist_to_node h q nb ≡ some d
      → accept nb ≡ true
      → p (record { id = nb; dist = d }) ≡ false

  meet-rejects :
      (G : ℕ → Type 0) (p : Candidate σ → Bool)
      → Fails G p
      → (s : Frontier σ) (nb : ℕ) (d : σ.Dist) → dist_to_node h q nb ≡ some d
      → G nb
      → count p s.result ≡ 0
      → count p (meet h q accept ef level (record { id = nb; dist = d }) s).result ≡ 0
  unfolding meet
  meet-rejects G p fails s nb d at g i =
      if_cases (λ (t : Frontier σ). count p t.result ≡ 0) (seen nb s.visited) (λ _. i)
        (λ _.
          ground (arith, fails nb d g at, admit-count p (record { id = nb; dist = d }) s.result))

  -- A test that fails on each node that is accepted, with its distance, fails on each result.
  pub search_layer-rejects :
      (G : ℕ → Type 0) (p : Candidate σ → Bool)
      → ((i : ℕ) → All G (friends_of h.nodes i level))
      → Fails G p
      → (ep : ℕ) (found : List (Candidate σ)) → G ep
      → search_layer h q accept ef level ep ≡ some found
      → count p found ≡ 0
  unfolding search_layer
  search_layer-rejects G p good fails ep found g ends =
      let P : Frontier σ → Type 0 = λ s. count p s.result ≡ 0 in
      let kept : IsKept G P = record {
        popped = λ s r _ i. i;
        met = λ s nb d at g i. meet-rejects G p fails s nb d at g i;
      } in
      match_cases (λ o. o ≡ some found → count p found ≡ 0) (dist_to_node h q ep)
        (λ _ e. absurd (ground arith))
        (λ d at e.
          let (t, i, same) =
            search_loop-kept G good P kept (suc (length h.nodes))
              (start_at h q accept ef level ep d) found (ground (arith, fails ep d g at)) e in
          sym (ap (count p) same) ∙ i)
        ends

  -- a node is in the results once at most, and only where it is seen
  record IsOnce (s : Frontier σ) : Type 0 where
    fits : length h.rows ≤ length s.visited.array
    once : (i : ℕ) → count (λ c. c.id == i) s.result + (if seen i s.visited then 0 else 1) ≤ 1
