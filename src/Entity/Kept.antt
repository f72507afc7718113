-- ===== src/Entity/Kept.antt =====
-- Canonicalize under the invariant of the graph.
use Prim.Native.String.{String}
use text.Mathlib.Text.{◌==◌ as str_eq}
use turbograph.Prelude.{
  ◌≡◌, refl, ◌∙◌, inl, inr, true, [], arith, if◌then◌else◌, Bool-cases, All, All-map, ltb, length,
}
use turbograph.Prelude.Keys.{string_key, pair_key}
use turbograph.Prelude.Assoc.{lookup, has, contains, IsMap}
use turbograph.Prelude.Sorting.{sum_by, sum_by-sort_by}
use turbograph.Entity.{TextOps, Graph}
use turbograph.Entity.Valid.{IsValid, IsOrder}
use turbograph.Entity.Names.{Spelling}
use turbograph.Entity.Canonical.{
  Merging, entity_at, parent_of, head_of, merge_entities, describe_merged, sorted_names,
  assign_heads, canonicalize, is_more_complete,
}
use turbograph.Entity.Heads.{occurrences, contains-occurrences, assign_heads-IsGrouped}
use turbograph.Entity.Merged.{IsMerging, IsName, total_mentions, merge_entities-IsMerging}
use turbograph.Entity.Keyed.{
  IsMap-All, All-sort_by, All-contains, keys_of, occurrences-keys_of, All-keys_of, sum_by-keys_of,
}
use turbograph.Entity.Rewrite.{
  nothing-AreAnchored, rewrite_relations-AreAnchored, total_mentions-described,
  describe_merged-IsMap, describe_merged-IsNode, has-head_of,
}

start-IsMerging : IsMerging [] (record { merged = []; desc_seen = [] })
unfolding lookup contains
start-IsMerging = record { map = tt; domain = λ c. refl; nodes = λ c e h. ground arith }

module _ (t : TextOps) (sp : Spelling) (g : Graph) where
  sorted_names-IsName : IsValid t g → All (IsName g.entities) (sorted_names t sp g)
  unfolding sorted_names
  sorted_names-IsName v = All-sort_by (IsName g.entities) _ (keys_of g.entities) (
      All-keys_of (IsName g.entities) g.entities (
        All-map g.entities
          (λ x found.
            let node = v.nodes x.0 x.1 found in (rw (found, entity_at) node.named, node.visible))
          (IsMap-All g.entities v.map)))

  occurrences-sorted_names :
      (k : String)
      → IsMap g.entities
      → occurrences k (sorted_names t sp g) ≡ (if has k g.entities then 1 else 0)
  unfolding sorted_names
  occurrences-sorted_names k h =
      sum_by-sort_by (λ x. if str_eq x k then 1 else 0) (is_more_complete t sp g.entities)
        (keys_of g.entities)
      ∙ occurrences-keys_of k g.entities h

  contains-sorted_names :
      (k : String) → IsMap g.entities → contains (sorted_names t sp g) k ≡ has k g.entities
  contains-sorted_names k h =
      contains-occurrences k (sorted_names t sp g) ∙ ground (arith, occurrences-sorted_names k h)

  sum_by-sorted_names :
      IsMap g.entities
      → sum_by (λ n. (entity_at n g.entities).mentions) (sorted_names t sp g)
        ≡ total_mentions g.entities
  unfolding sorted_names
  sum_by-sorted_names h =
      sum_by-sort_by (λ n. (entity_at n g.entities).mentions) (is_more_complete t sp g.entities)
        (keys_of g.entities)
      ∙ sum_by-keys_of g.entities g.entities (IsMap-All g.entities h)

  -- Canonicalize keeps the invariant of the entity graph, with one relation for each pair of names
  -- (so that every relation still joins two different entities of the graph), and loses and
  -- doubles no mention: the entities have been mentioned as often as before, all together. The
  -- order of strings is assumed not to hold both ways.
  pub canonicalize-IsValid :
      IsOrder t
      → IsValid t g
      → IsMap g.relations
      → IsValid t (canonicalize t sp g)
        × IsMap (canonicalize t sp g).relations
        × (total_mentions (canonicalize t sp g).entities ≡ total_mentions g.entities)
  unfolding canonicalize total_mentions
  canonicalize-IsValid order v rels = elim (Bool-cases (ltb (length g.entities) 2)) [
    | inl few ↦ rw few (v, rels, refl)
    | inr many ↦
        let names = sorted_names t sp g in
        let parent = assign_heads sp names [] [] in
        let start : Merging = record { merged = []; desc_seen = [] } in
        let grouped =
          assign_heads-IsGrouped sp names [] []
            (λ k. ground (arith, occurrences-sorted_names k v.map)) in
        let (hs, m, grown, heads, sum) =
          merge_entities-IsMerging t g.entities parent names [] start (sorted_names-IsName v)
            grouped start-IsMerging in
        let s = merge_entities t g.entities parent names start in
        let ends : (n : String)
            → has n g.entities ≡ true
            → has (head_of t parent n) (describe_merged t s) ≡ true =
          λ n h. has-head_of t s hs parent n m (
            All-contains (λ n. contains hs (parent_of n parent) ≡ true) names n heads
              (contains-sorted_names n v.map ∙ h)) in
        let made =
          rewrite_relations-AreAnchored t (describe_merged t s) parent g.relations [] order
            (All-map g.relations
              (λ x found.
                let a = v.edges x.0 x.1 found in
                (ends x.1.source (rw a.source a.from), ends x.1.target (rw a.target a.to)))
              (IsMap-All g.relations rels))
            (nothing-AreAnchored t (describe_merged t s) parent) in
        rw many (
          record {
            map = describe_merged-IsMap t s m.map;
            nodes = describe_merged-IsNode t s hs m;
            edges = made.1;
          },
          made.0,
          total_mentions-described t s ∙ sum ∙ omega (arith, sum_by-sorted_names v.map),
        )
  ]
