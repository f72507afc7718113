-- ===== src/Graph/Joined.antt =====
-- graph/community.go: what a label that is propagated says of the nodes.
use turbograph.Prelude.{
  ℕ, zero, suc, ◌+◌, ◌%◌, ◌^◌, ◌<◌, ◌≡◌, refl, sym, ap, ◌∙◌, subst, inl, inr, Bool, false, List, [],
  ◌∷◌, Option, none, some, if◌then◌else◌, length, get_elem?, set, ◌==◌, arith, if_cases,
  match_cases, Option-cases, Bool-cases, get_elem?-set, get_elem?-lt, All,
}
use turbograph.Prelude.Keys.{nat_key}
use turbograph.Prelude.Assoc.{insert}
use turbograph.Graph.{
  Weights, Csr, neighbors, degree, Sums, weigh, is_better, heaviest, relabel, sweep, propagate,
  numbers, shuffle, detect_communities, compact, label, node_count,
}
use turbograph.Graph.Compact.{compact_exact}

-- two nodes that a path of edges joins, whichever way each of them is taken
pub data Joined {ω : Weights} (g : Csr ω) : ℕ → ℕ → Type 0 where
  here : {a : ℕ} → Joined g a a
  hop : {a b : ℕ} (p : ℕ) (w : ω.Weight) → get_elem? (neighbors g a) p ≡ some (b, w) → Joined g a b
  back : {a b : ℕ} → Joined g a b → Joined g b a
  join : {a b c : ℕ} → Joined g a b → Joined g b c → Joined g a c

set_missing : (xs : List ℕ) (i v : ℕ) → get_elem? xs i ≡ none → set xs i v ≡ xs
set_missing [] i v e = refl
set_missing (x ∷ xs) zero v e = absurd (ground arith)
set_missing (x ∷ xs) (suc i) v e = ap (◌∷◌ x) (set_missing xs i v e)

-- a node of a community has a label
labelled :
    (labs : List ℕ) (i c : ℕ)
    → label (compact labs) i ≡ some c
    → (l : ℕ) × (get_elem? labs i ≡ some l)
labelled labs i c e = elim (Option-cases (get_elem? labs i)) [
  | inl missing ↦ absurd (ground (arith, missing, e, (compact_exact labs).0 i, get_elem?-lt labs i))
  | inr known ↦ known
]

module _ {ω : Weights} (u : Sums ω) (g : Csr ω) where
  -- each node is joined with its label
  IsOwn : List ℕ → Type 0
  IsOwn labs = (i l : ℕ) → get_elem? labs i ≡ some l → Joined g i l

  -- each label of a map is joined with a node
  abbrev Reached : ℕ → List (ℕ × ω.Weight) → Type 0
  Reached node m = All (λ e. Joined g node e.0) m

  insert-Reached :
      (node l : ℕ) (v : ω.Weight) (m : List (ℕ × ω.Weight))
      → Joined g node l
      → Reached node m
      → Reached node (insert l v m)
  unfolding insert
  insert-Reached node l v [] j r = (j, tt)
  insert-Reached node l v ((k, w) ∷ m) j r =
      if_cases (Reached node) (k == l) (λ _. (j, r.1)) (λ _. (r.0, insert-Reached node l v m j r.1))

  weigh-Reached :
      (node : ℕ) (labs : List ℕ) (es m : List (ℕ × ω.Weight))
      → IsOwn labs
      → All (λ e. Joined g node e.0) es
      → Reached node m
      → Reached node (weigh u labs es m)
  unfolding weigh IsOwn
  weigh-Reached node labs [] m own hs r = r
  weigh-Reached node labs ((j, w) ∷ es) m own hs r =
      match_cases (Reached node) (get_elem? labs j) (λ _. weigh-Reached node labs es m own hs.1 r)
        (λ l found.
          weigh-Reached node labs es _ own hs.1
            (insert-Reached node l _ m (join hs.0 (own j l found)) r))

  heaviest-Reached :
      (node : ℕ) (m : List (ℕ × ω.Weight)) (best : ℕ) (b : Option ω.Weight)
      → Reached node m
      → Joined g node best
      → Joined g node (heaviest u m best b)
  unfolding heaviest
  heaviest-Reached node [] best b r j = j
  heaviest-Reached node ((lab, w) ∷ m) best b r j =
      if_cases (Joined g node) (is_better u lab w best b)
        (λ _. heaviest-Reached node m lab (some w) r.1 r.0)
        (λ _. heaviest-Reached node m best b r.1 j)

  All-hops :
      (node : ℕ) (es : List (ℕ × ω.Weight))
      → ((p : ℕ) (b : ℕ) (w : ω.Weight) → get_elem? es p ≡ some (b, w) → Joined g node b)
      → All (λ e. Joined g node e.0) es
  All-hops node [] h = tt
  All-hops node ((b, w) ∷ es) h = (h 0 b w refl, All-hops node es (λ p c v e. h (suc p) c v e))

  neighbors-Joined : (node : ℕ) → All (λ e. Joined g node e.0) (neighbors g node)
  neighbors-Joined node = All-hops node (neighbors g node) (λ p b w e. hop p w e)

  set-IsOwn :
      (labs : List ℕ) (node best : ℕ)
      → node < length labs
      → Joined g node best
      → IsOwn labs
      → IsOwn (set labs node best)
  unfolding IsOwn
  set-IsOwn labs node best inside j own i l found =
      let P : Option ℕ → Type 0 = λ o. o ≡ some l → Joined g i l in
      subst P (sym (get_elem?-set labs node i best inside))
        (elim (Bool-cases (node == i)) [
          | inl same ↦ λ e.
              let at : node ≡ i = ground (arith, same) in
              let is : best ≡ l = ground (arith, e, same) in
              subst (λ k. Joined g k l) at (subst (Joined g node) is j)
          | inr other ↦ λ e. own i l (ground (arith, e, other))
        ])
        found

  relabel-IsOwn : (node : ℕ) (s : List ℕ × Bool) → IsOwn s.0 → IsOwn (relabel u g node s).0
  unfolding relabel IsOwn
  relabel-IsOwn node s own =
      let old : ℕ = elim (get_elem? s.0 node) [ none ↦ 0 | some l ↦ l ] in
      let m = weigh u s.0 (neighbors g node) [] in
      if_cases (λ (t : List ℕ × Bool). IsOwn t.0) (degree g node == 0) (λ _. own)
        (λ _.
          if_cases (λ (t : List ℕ × Bool). IsOwn t.0) (heaviest u m old none == old) (λ _. own)
            (λ _. elim (Option-cases (get_elem? s.0 node)) [
              | inl missing ↦
                  subst IsOwn (sym (set_missing s.0 node (heaviest u m old none) missing)) own
              | inr (l, found) ↦
                  let start : Joined g node old =
                    subst (Joined g node)
                      (sym (ap (λ (o : Option ℕ). elim o [ none ↦ 0 | some k ↦ k ]) found))
                      (own node l found) in
                  let best : Joined g node (heaviest u m old none) =
                    heaviest-Reached node m old none
                      (weigh-Reached node s.0 (neighbors g node) [] own (neighbors-Joined node) tt)
                      start in
                  set-IsOwn s.0 node (heaviest u m old none)
                    (ground (arith, get_elem?-lt s.0 node, found)) best own
            ]))

  sweep-IsOwn : (nodes : List ℕ) (s : List ℕ × Bool) → IsOwn s.0 → IsOwn (sweep u g nodes s).0
  unfolding sweep
  sweep-IsOwn [] s own = own
  sweep-IsOwn (node ∷ nodes) s own =
      sweep-IsOwn nodes (relabel u g node s) (relabel-IsOwn node s own)

  propagate-IsOwn :
      (iters : ℕ) (order : List ℕ) (rng : ℕ) (labs : List ℕ)
      → IsOwn labs
      → IsOwn (propagate u g iters order rng labs)
  unfolding propagate
  propagate-IsOwn zero order rng labs own = own
  propagate-IsOwn (suc iters) order rng labs own =
      let mixed = shuffle order rng in
      let s = sweep u g mixed.0 (labs, false) in
      let once : IsOwn s.0 = sweep-IsOwn mixed.0 (labs, false) own in
      if_cases IsOwn s.1 (λ _. propagate-IsOwn iters mixed.0 mixed.1 s.0 once) (λ _. once)

  numbers-get : (i n p l : ℕ) → get_elem? (numbers i n) p ≡ some l → i + p ≡ l
  numbers-get i zero p l e = absurd (ground arith)
  numbers-get i (suc n) zero l e = ground arith
  numbers-get i (suc n) (suc p) l e = omega (arith, numbers-get (suc i) n p l e)

  -- Label propagation puts two nodes into one community only if a path of edges joins them,
  -- whatever the weights, the seed and the cap on the sweeps are.
  pub detect_communities-Joined :
      (max_iter seed a b c : ℕ)
      → label (detect_communities u g max_iter seed) a ≡ some c
      → label (detect_communities u g max_iter seed) b ≡ some c
      → Joined g a b
  unfolding detect_communities IsOwn
  detect_communities-Joined max_iter seed a b c ha hb =
      let all = numbers 0 (node_count g) in
      let own_number : (i l : ℕ) → get_elem? all i ≡ some l → i ≡ l =
        λ i l e. omega (arith, numbers-get 0 (node_count g) i l e) in
      let labs = propagate u g (if max_iter == 0 then 20 else max_iter) all (seed % 2 ^ 64) all in
      let own : IsOwn labs =
        propagate-IsOwn (if max_iter == 0 then 20 else max_iter) all (seed % 2 ^ 64) all
          (λ i l e. subst (Joined g i) (own_number i l e) here) in
      let (la, at_a) = labelled labs a c ha in
      let (lb, at_b) = labelled labs b c hb in
      let same : la ≡ lb = ((compact_exact labs).1 a b la lb at_a at_b).0 (ha ∙ sym hb) in
      join (own a la at_a) (back (subst (Joined g b) (sym same) (own b lb at_b)))
