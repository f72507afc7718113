-- ===== src/Entity/Rewrite.antt =====
-- The loop of Canonicalize over the relations, and the entities that it leaves.
use Prim.Native.String.{String}
use text.Mathlib.Text.{◌==◌ as str_eq}
use text.Mathlib.TextEquality.{eq_iff}
use turbograph.Prelude.{
  ◌≡◌, refl, ◌∙◌, inl, inr, true, false, List, [], ◌∷◌, Option, none, some, arith, if◌then◌else◌,
  Bool-cases, Option-cases, All, if_cases,
}
use turbograph.Prelude.Keys.{string_key, pair_key}
use turbograph.Prelude.Assoc.{
  lookup, has, contains, IsMap, lookup-insert, insert-IsMap, map_values, lookup-map_values,
  map_values-IsMap,
}
use turbograph.Entity.{TextOps, Entity, Relation, RelationKey, relation_key}
use turbograph.Entity.Valid.{IsAnchored, IsNode, IsOrder}
use turbograph.Entity.Canonical.{
  Merging, parent_of, head_of, absorb, rewrite_relation, rewrite_relations, describe_merged,
  redescribe,
}
use turbograph.Entity.Merged.{IsMerging, total_mentions}

-- what the loop over the relations makes
module _ (t : TextOps) (entities : List (String × Entity)) (parent : List (String × String)) where
  abbrev pub AreAnchored : List (RelationKey × Relation) → Type 0
  AreAnchored rels =
      IsMap rels
      × ((k : RelationKey) (r : Relation) → lookup k rels ≡ some r → IsAnchored t entities k r)

  absorb-IsAnchored :
      (key : RelationKey) (r : Relation) (o : Option Relation)
      → has key.0 entities ≡ true
      → has key.1 entities ≡ true
      → t.before key.1 key.0 ≡ false
      → str_eq key.0 key.1 ≡ false
      → ((q : Relation) → o ≡ some q → IsAnchored t entities key q)
      → IsAnchored t entities key (absorb key r o)
  unfolding absorb
  absorb-IsAnchored key r none from to ordered distinct h = record {
    source = refl;
    target = refl;
    ordered = ordered;
    distinct = distinct;
    from = from;
    to = to;
  }
  absorb-IsAnchored key r (some q) from to ordered distinct h = record {
    source = (h q refl).source;
    target = (h q refl).target;
    ordered = ordered;
    distinct = distinct;
    from = from;
    to = to;
  }

  written-IsAnchored :
      (key : RelationKey) (rels : List (RelationKey × Relation)) (new : Relation)
      → IsAnchored t entities key new
      → ((k : RelationKey) (r : Relation) → lookup k rels ≡ some r → IsAnchored t entities k r)
      → (k : RelationKey) (f : Relation)
      → (if pair_key.beq key k then some new else lookup k rels) ≡ some f
      → IsAnchored t entities k f
  written-IsAnchored key rels new here h k f e = elim (Bool-cases (pair_key.beq key k)) [
    | inl same ↦
        let new_f : new ≡ f = cc in rw ((pair_key.beq_iff key k).0 same) at (rw new_f at here)
    | inr other ↦ h k f (ground arith)
  ]

  rewrite_relation-AreAnchored :
      (r : Relation) (rels : List (RelationKey × Relation))
      → IsOrder t
      → has (head_of t parent r.source) entities ≡ true
      → has (head_of t parent r.target) entities ≡ true
      → AreAnchored rels
      → AreAnchored (rewrite_relation t parent r rels)
  unfolding rewrite_relation
  rewrite_relation-AreAnchored r rels order from to h =
      let s = head_of t parent r.source in
      let q = head_of t parent r.target in
      let key = relation_key t s q in
      let new = absorb key r (lookup key rels) in
      if_cases AreAnchored (str_eq s q) (λ _. h)
        λ differ.
          let here =
            absorb-IsAnchored key r (lookup key rels) (ground (arith, from, to))
              (ground (arith, from, to)) (ground (arith, order q s))
              (ground (arith, eq_iff s q, eq_iff q s)) (h.1 key) in
          (
            insert-IsMap key new rels h.0,
            λ k f e.
                written-IsAnchored key rels new here h.1 k f
                  (rw (lookup-insert key k new rels) at e),
          )

  pub nothing-AreAnchored : AreAnchored []
  unfolding lookup
  nothing-AreAnchored = (tt, λ k r h. ground arith)

  pub rewrite_relations-AreAnchored :
      (rs : List (RelationKey × Relation)) (rels : List (RelationKey × Relation))
      → IsOrder t
      → All
          (λ x.
            (has (head_of t parent x.1.source) entities ≡ true)
            × (has (head_of t parent x.1.target) entities ≡ true))
          rs
      → AreAnchored rels
      → AreAnchored (rewrite_relations t parent rs rels)
  unfolding rewrite_relations
  rewrite_relations-AreAnchored [] rels order ends h = h
  rewrite_relations-AreAnchored ((k, r) ∷ rs) rels order ends h =
      rewrite_relations-AreAnchored rs (rewrite_relation t parent r rels) order ends.1
        (rewrite_relation-AreAnchored r rels order ends.0.0 ends.0.1 h)

module _ (t : TextOps) (s : Merging) where
  has-describe_merged : (c : String) → has c (describe_merged t s) ≡ has c s.merged
  unfolding describe_merged
  has-describe_merged c = ground (arith, lookup-map_values (redescribe t s.desc_seen) c s.merged)

  total_mentions-describe_merged :
      (m : List (String × Entity))
      → total_mentions (map_values (redescribe t s.desc_seen) m) ≡ total_mentions m
  unfolding total_mentions map_values
  total_mentions-describe_merged [] = refl
  total_mentions-describe_merged ((c, e) ∷ m) = omega (arith, total_mentions-describe_merged m)

  pub total_mentions-described : total_mentions (describe_merged t s) ≡ total_mentions s.merged
  unfolding describe_merged
  total_mentions-described = total_mentions-describe_merged s.merged

  pub describe_merged-IsMap : IsMap s.merged → IsMap (describe_merged t s)
  unfolding describe_merged
  describe_merged-IsMap h = map_values-IsMap (redescribe t s.desc_seen) s.merged h

  pub describe_merged-IsNode :
      (hs : List String)
      → IsMerging hs s
      → (n : String) (e : Entity) → lookup n (describe_merged t s) ≡ some e
      → IsNode s.desc_seen n e
  unfolding describe_merged
  describe_merged-IsNode hs v n e h = elim (Option-cases (lookup n s.merged)) [
    | inl out ↦ absurd (ground (arith, lookup-map_values (redescribe t s.desc_seen) n s.merged))
    | inr (m, there) ↦
        let node = v.nodes n m there in
        let same = lookup-map_values (redescribe t s.desc_seen) n s.merged in
        record {
          named = ground (arith, same, there, node.named);
          visible = node.visible;
          described = node.told;
        }
  ]

  -- a head stands for itself or has a parent among the heads
  pub has-head_of :
      (hs : List String) (parent : List (String × String)) (n : String)
      → IsMerging hs s
      → contains hs (parent_of n parent) ≡ true
      → has (head_of t parent n) (describe_merged t s) ≡ true
  has-head_of hs parent n v h =
      let there = v.domain (parent_of n parent) ∙ h in
      elim (Option-cases (lookup (parent_of n parent) s.merged)) [
        | inl out ↦ absurd (ground (arith, there))
        | inr (m, found) ↦
            rw ((v.nodes (parent_of n parent) m found).visible)
              (has-describe_merged (parent_of n parent) ∙ there)
      ]
