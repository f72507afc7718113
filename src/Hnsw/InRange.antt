-- ===== src/Hnsw/InRange.antt =====
-- index/hnsw.go: the links that the loops of the search go over.
use turbograph.Prelude.{
  ℕ, ◌≤◌, ◌≡◌, refl, sym, ap, ◌∙◌, inl, inr, true, any, leb, false, List, [], ◌∷◌, some, length,
  get_elem?, arith, Option-cases, get_elem?-lt, All,
}
use turbograph.Hnsw.{Space, Hnsw, Node, friends_of, links_of, normalized}
use turbograph.Hnsw.Well.{has_level}

none_outside :
    (n l : ℕ) (nodes : List Node) (fs : List ℕ)
    → n ≡ length nodes
    → All (λ f. has_level nodes f l ≡ true) fs
    → any (λ f. leb n f) fs ≡ false
none_outside n l nodes [] fit good = refl
none_outside n l nodes (f ∷ fs) fit good =
    ground (arith, good.0, get_elem?-lt nodes f, none_outside n l nodes fs fit good.1)

module _ {σ : Space} where
  pub normalized-some :
      (h : Hnsw σ) (v : σ.Vec) → σ.len v ≤ h.dim → normalized h v ≡ some (σ.normalize h.dim v)
  unfolding normalized
  normalized-some h v short = ground arith

  module _ (h : Hnsw σ) (i l : ℕ) where
    pub links_of-friends : (fs : List ℕ) → links_of h i l ≡ some fs → friends_of h.nodes i l ≡ fs
    unfolding links_of
    links_of-friends fs e = ground arith

    -- A node that has the level, with neighbors that have it, has its links in range.
    pub links_of-some :
        length h.rows ≡ length h.nodes
        → has_level h.nodes i l ≡ true
        → All (λ f. has_level h.nodes f l ≡ true) (friends_of h.nodes i l)
        → links_of h i l ≡ some (friends_of h.nodes i l)
    unfolding links_of
    links_of-some fit there good =
        let inside = none_outside (length h.rows) l h.nodes (friends_of h.nodes i l) fit good in
        elim (Option-cases (get_elem? h.nodes i)) [
          | inl missing ↦ absurd (ground (arith, missing, there))
          | inr (n, found) ↦ elim (Option-cases (get_elem? n.friends l)) [
            | inl missing ↦ absurd (ground (arith, missing, found, there, get_elem?-lt n.friends l))
            | inr (fs, listed) ↦
                let same : friends_of h.nodes i l ≡ fs = cc in
                let bounded : any (λ f. leb (length h.rows) f) fs ≡ false =
                  ap (any (λ f. leb (length h.rows) f)) (sym same) ∙ inside in
                cc
          ]
        ]
