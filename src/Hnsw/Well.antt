-- ===== src/Hnsw/Well.antt =====
-- index/hnsw.go: the links of the nodes.
use turbograph.Prelude.{
  ℕ, zero, suc, ◌≤◌, ◌≡◌, refl, sym, ap, ◌∙◌, subst, ◌⊎◌, inl, inr, Bool, true, false, List, [],
  ◌∷◌, Option, none, some, if◌then◌else◌, length, get_elem?, set, ltb, ◌==◌, arith, if_cases,
  match_cases, Option-cases, get_elem?-lt, get_elem?-set, length-set, All, All-map,
}
use turbograph.Hnsw.{Node, friends_of, set_friends}

-- whether a node has a list of neighbors at a level
abbrev pub has_level : List Node → ℕ → ℕ → Bool
has_level nodes i l = elim (get_elem? nodes i) [ none ↦ false | some n ↦ ltb l (length n.friends) ]

-- The neighbors of a node at a level have a list at that level, and there are at most as many as
-- `cap` says.
unfoldable pub IsLinked : (ℕ → ℕ) → List Node → Type 0
IsLinked cap nodes =
    (i l : ℕ)
    → All (λ f. has_level nodes f l ≡ true) (friends_of nodes i l)
      × (length (friends_of nodes i l) ≤ cap l)

pub length-set_friends :
    (i l : ℕ) (f : List ℕ) (nodes : List Node) → length (set_friends i l f nodes) ≡ length nodes
unfolding set_friends
length-set_friends i l f nodes =
    match_cases (λ (ns : List Node). length ns ≡ length nodes) (get_elem? nodes i) (λ _. refl)
      (λ n found. length-set nodes i (record n { friends = set n.friends l f }))

set_friends-none :
    (i l : ℕ) (f : List ℕ) (nodes : List Node)
    → get_elem? nodes i ≡ none
    → set_friends i l f nodes ≡ nodes
unfolding set_friends
set_friends-none i l f nodes missing =
    match_cases (λ (ns : List Node). ns ≡ nodes) (get_elem? nodes i) (λ _. refl)
      (λ n found. absurd (ground (arith, missing, found)))

set_friends-get :
    (i l : ℕ) (f : List ℕ) (nodes : List Node) (j : ℕ) (n : Node)
    → get_elem? nodes i ≡ some n
    → get_elem? (set_friends i l f nodes) j
      ≡ (if i == j then some (record n { friends = set n.friends l f }) else get_elem? nodes j)
unfolding set_friends
set_friends-get i l f nodes j n found =
    ap
      (λ (o : Option Node).
        get_elem?
          (elim o [
            | none ↦ nodes
            | some m ↦ set nodes i (record m { friends = set m.friends l f })
          ])
          j)
      found
    ∙ get_elem?-set nodes i j (record n { friends = set n.friends l f })
        (ground (arith, get_elem?-lt nodes i, found))

pub has_level-set_friends :
    (i l : ℕ) (f : List ℕ) (nodes : List Node) (j k : ℕ)
    → has_level (set_friends i l f nodes) j k ≡ has_level nodes j k
has_level-set_friends i l f nodes j k = elim (Option-cases (get_elem? nodes i)) [
  | inl missing ↦ ap (λ ns. has_level ns j k) (set_friends-none i l f nodes missing)
  | inr (n, found) ↦
      ap (λ (o : Option Node). elim o [ none ↦ false | some m ↦ ltb k (length m.friends) ])
        (set_friends-get i l f nodes j n found)
      ∙ ground (arith, found, length-set n.friends l f)
]

-- the list at a level
abbrev list_at : List (List ℕ) → ℕ → List ℕ
list_at fs k = elim (get_elem? fs k) [ none ↦ [] | some f ↦ f ]

list_at-set :
    (fs : List (List ℕ)) (l : ℕ) (f : List ℕ) (k : ℕ)
    → (list_at (set fs l f) k ≡ list_at fs k) ⊎ ((l ≡ k) × (list_at (set fs l f) k ≡ f))
list_at-set [] l f k = inl refl
list_at-set (g ∷ fs) zero f zero = inr (refl, refl)
list_at-set (g ∷ fs) zero f (suc k) = inl refl
list_at-set (g ∷ fs) (suc l) f zero = inl refl
list_at-set (g ∷ fs) (suc l) f (suc k) = elim (list_at-set fs l f k) [
  | inl same ↦ inl same
  | inr new ↦ inr (ap suc new.0, new.1)
]

-- a list of neighbors is the one before, or the one that is set at that level
friends_of-set_friends :
    (i l : ℕ) (f : List ℕ) (nodes : List Node) (j k : ℕ)
    → (friends_of (set_friends i l f nodes) j k ≡ friends_of nodes j k)
      ⊎ ((l ≡ k) × (friends_of (set_friends i l f nodes) j k ≡ f))
friends_of-set_friends i l f nodes j k = elim (Option-cases (get_elem? nodes i)) [
  | inl missing ↦ inl (ap (λ ns. friends_of ns j k) (set_friends-none i l f nodes missing))
  | inr (n, found) ↦ subst P (sym (set_friends-get i l f nodes j n found)) (
      if_cases P (i == j)
        (λ same.
          let here : list_at n.friends k ≡ friends_of nodes j k = ground (arith, found) in
          elim (list_at-set n.friends l f k) [ inl old ↦ inl (old ∙ here) | inr new ↦ inr new ])
        (λ _. inl refl))
]
  where
    P : Option Node → Type 0
    P o =
        ((elim o [ none ↦ [] | some m ↦ list_at m.friends k ]) ≡ friends_of nodes j k)
        ⊎ ((l ≡ k) × ((elim o [ none ↦ [] | some m ↦ list_at m.friends k ]) ≡ f))

pub set_friends-IsLinked :
    (cap : ℕ → ℕ) (i l : ℕ) (f : List ℕ) (nodes : List Node)
    → IsLinked cap nodes
    → All (λ x. has_level nodes x l ≡ true) f
    → length f ≤ cap l
    → IsLinked cap (set_friends i l f nodes)
unfolding IsLinked
set_friends-IsLinked cap i l f nodes linked inside few j k =
    let same : (fs : List ℕ) (m : ℕ)
        → All (λ x. has_level nodes x m ≡ true) fs
        → All (λ x. has_level (set_friends i l f nodes) x m ≡ true) fs =
      λ fs m h. All-map fs (λ x e. has_level-set_friends i l f nodes x m ∙ e) h in
    elim (friends_of-set_friends i l f nodes j k) [
      | inl old ↦
          subst
            (λ fs.
              All (λ x. has_level (set_friends i l f nodes) x k ≡ true) fs × (length fs ≤ cap k))
            (sym old) (same (friends_of nodes j k) k (linked j k).0, (linked j k).1)
      | inr (at, new) ↦
          subst
            (λ fs.
              All (λ x. has_level (set_friends i l f nodes) x k ≡ true) fs × (length fs ≤ cap k))
            (sym new)
            (subst
              (λ m.
                All (λ x. has_level (set_friends i l f nodes) x m ≡ true) f × (length f ≤ cap m))
              at (same f l inside, few))
    ]
