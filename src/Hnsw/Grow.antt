-- ===== src/Hnsw/Grow.antt =====
-- index/hnsw.go: an insert, and the state that it keeps.
use Prim.Native.String.{String}
use mathlib.Core.Option.{some_inj}
use mathlib.Core.Option
use turbograph.Prelude.{
  ℕ, suc, ◌≤◌, ◌≡◌, refl, sym, ap, ◌∙◌, subst, true, List, [], ◌∷◌, ◌++◌, min, Option, none, some,
  length, replicate, ltb, arith, if_cases, match_cases, get_elem?-snoc, length-append,
  length-replicate,
}
use turbograph.Heap.Array.{SameItems}
use turbograph.Hnsw.{
  Space, Hnsw, Candidate, Node, connect_down, max_conn_at, descend_to, append_node, crown,
  add_vector,
}
use turbograph.Hnsw.InRange.{normalized-some}
use turbograph.Hnsw.Well.{has_level, IsLinked}
use turbograph.Hnsw.Walk.{IsStrict}
use turbograph.Hnsw.Extend.{
  has_level-snoc, snoc-IsLinked, descend_to-level, IsExtended, Connects, connect_down-Connects,
}

-- Each node has a row and an id, the entry has the top level, the neighbors of a node at a level have
-- that level, and there are at most as many as the index allows.
pub record IsWell {σ : Space} (h : Hnsw σ) : Type 0 where
  pub rows_fit : length h.rows ≡ length h.nodes
  pub ids_fit : length h.ids ≡ length h.nodes
  pub entered : (e : ℕ) → h.entry ≡ some e → has_level h.nodes e h.top ≡ true
  pub linked : IsLinked (max_conn_at h) h.nodes

module _ {σ : Space} where
  abbrev level_of : Hnsw σ → ℕ
  level_of h = (σ.draw h.m h.rng).0

  append_node-has_level :
      (id : String) (norm : σ.Vec) (h : Hnsw σ)
      → length h.ids ≡ length h.nodes
      → (k : ℕ) → k ≤ level_of h
      → has_level (append_node id norm h).nodes (length h.ids) k ≡ true
  unfolding append_node
  append_node-has_level id norm h fit k low = ground (
    arith,
    get_elem?-snoc h.nodes
        (record { level = level_of h; friends = replicate (suc (level_of h)) [] }) (length h.ids),
    length-replicate {A = List ℕ} (level_of h) [],
  )

  append_node-IsWell :
      (id : String) (norm : σ.Vec) (h : Hnsw σ) → IsWell h → IsWell (append_node id norm h)
  unfolding append_node
  append_node-IsWell id norm h w =
      let n : Node = record { level = level_of h; friends = replicate (suc (level_of h)) [] } in
      record {
        rows_fit =
            omega
              (arith, length-append h.rows (norm ∷ []), length-append h.nodes (n ∷ []), w.rows_fit);
        ids_fit =
            omega (arith, length-append h.ids (id ∷ []), length-append h.nodes (n ∷ []), w.ids_fit);
        entered = λ e at. has_level-snoc h.nodes n e h.top (w.entered e at);
        linked = snoc-IsLinked (max_conn_at h) h.nodes (level_of h) w.linked;
      }

  crown-IsWell :
      (cur level : ℕ) (h : Hnsw σ)
      → IsWell h
      → has_level h.nodes cur level ≡ true
      → IsWell (crown cur level h)
  crown-IsWell cur level h w there =
      if_cases (IsWell {σ = σ}) (ltb h.top level)
        (λ above. record {
          rows_fit = w.rows_fit;
          ids_fit = w.ids_fit;
          entered = λ e at. subst (λ i. has_level h.nodes i level ≡ true) (some_inj.0 at) there;
          linked = w.linked;
        })
        (λ _. w)

  crown-ids : (cur level : ℕ) (h : Hnsw σ) → (crown cur level h).ids ≡ h.ids
  crown-ids cur level h =
      if_cases (λ (g : Hnsw σ). g.ids ≡ h.ids) (ltb h.top level) (λ _. refl) (λ _. refl)

  -- what an insert gives
  Adds : String → Hnsw σ → Option (Hnsw σ × ℕ) → Type 0
  Adds id h o = (g : Hnsw σ) × (o ≡ some (g, length h.ids)) × IsWell g × (g.ids ≡ h.ids ++ id ∷ [])

  module _ (order : IsStrict σ) (sort : List (Candidate σ) → List (Candidate σ))
      (permutes : (cs : List (Candidate σ)) → SameItems (sort cs) cs) (id : String) (vec : σ.Vec)
      (h : Hnsw σ) (w : IsWell h) where
    abbrev added : Hnsw σ
    added = append_node id (σ.normalize h.dim vec) h

    add_first :
        Adds id h
          (some (record added { entry = some (length h.ids); top = level_of h }, length h.ids))
    unfolding Adds append_node
    add_first =
        let g = append_node-IsWell id (σ.normalize h.dim vec) h w in
        let mine =
          append_node-has_level id (σ.normalize h.dim vec) h w.ids_fit (level_of h) (omega arith) in
        (
          record added { entry = some (length h.ids); top = level_of h },
          refl,
          record {
            rows_fit = g.rows_fit;
            ids_fit = g.ids_fit;
            entered = λ e at.
                subst (λ i. has_level added.nodes i (level_of h) ≡ true) (some_inj.0 at) mine;
            linked = g.linked;
          },
          refl,
        )

    added-entered : (entry : ℕ) → h.entry ≡ some entry → has_level added.nodes entry h.top ≡ true
    unfolding append_node
    added-entered entry at = (append_node-IsWell id (σ.normalize h.dim vec) h w).entered entry at

    linked-IsWell :
        (nodes : List Node)
        → IsExtended sort permutes (σ.normalize h.dim vec) (length h.ids) added nodes
        → IsWell (record added { nodes = nodes })
    linked-IsWell nodes more =
        let g = append_node-IsWell id (σ.normalize h.dim vec) h w in
        record {
          rows_fit = g.rows_fit ∙ sym more.size;
          ids_fit = g.ids_fit ∙ sym more.size;
          entered = λ e at. more.same e added.top ∙ g.entered e at;
          linked = more.linked;
        }

    added-ids : added.ids ≡ h.ids ++ id ∷ []
    unfolding append_node
    added-ids = refl

    add_next :
        (entry : ℕ)
        → h.entry ≡ some entry
        → Adds id h (elim (descend_to added (σ.normalize h.dim vec) (level_of h) h.top entry) [
          | none ↦ none
          | some ep ↦
              Option.map
                (λ k. (crown (length h.ids) (level_of h) k, length h.ids))
                (connect_down sort
                  (σ.normalize h.dim vec)
                  (length h.ids)
                  (min (level_of h) h.top)
                  ep
                  added)
        ])
    unfolding Adds Connects
    add_next entry at =
        let q = σ.normalize h.dim vec in
        let g : IsWell added = append_node-IsWell id q h w in
        let mine : (k : ℕ) → k ≤ level_of h → has_level added.nodes (length h.ids) k ≡ true =
          append_node-has_level id q h w.ids_fit in
        let (ep, walked, there) =
          descend_to-level order added q (level_of h) h.top entry g.rows_fit g.linked
            (added-entered entry at) in
        let (nodes, linked, more) =
          connect_down-Connects sort permutes q (length h.ids) (min (level_of h) h.top) ep added
            g.rows_fit g.linked (mine (min (level_of h) h.top) (omega arith)) there in
        let k : Hnsw σ = record added { nodes = nodes } in
        let mine_still : has_level nodes (length h.ids) (level_of h) ≡ true =
          more.same (length h.ids) (level_of h) ∙ mine (level_of h) (omega arith) in
        (
          crown (length h.ids) (level_of h) k,
          ap
                (λ (o : Option ℕ). elim o [
                  | none ↦ none
                  | some i ↦
                      Option.map (λ n. (crown (length h.ids) (level_of h) n, length h.ids))
                        (connect_down sort q (length h.ids) (min (level_of h) h.top) i added)
                ])
                walked
              ∙ ap (Option.map (λ n. (crown (length h.ids) (level_of h) n, length h.ids))) linked,
          crown-IsWell (length h.ids) (level_of h) k (linked-IsWell nodes more) mine_still,
          crown-ids (length h.ids) (level_of h) k ∙ added-ids,
        )

    -- Inserting a vector that is not longer than the dimension into a well-formed index ends, with
    -- the ordinal of the new id, keeps the index well-formed and adds the id behind the others.
    -- Well-formed: each node has a row and an id, the entry has the top level, each neighbor at a
    -- level has a list at that level, and no list is longer than the index allows. Assumed: the
    -- distances are in a strict order, and the sort keeps the entries.
    pub add_vector-IsWell :
        σ.len vec ≤ h.dim
        → (g : Hnsw σ) × (add_vector sort id vec h ≡ some (g, length h.ids))
          × IsWell g
          × (g.ids ≡ h.ids ++ id ∷ [])
    unfolding add_vector Adds
    add_vector-IsWell short =
        rw (normalized-some h vec short, add_vector)
          (match_cases (Adds id h) h.entry (λ _. add_first) (λ entry at. add_next entry at))
