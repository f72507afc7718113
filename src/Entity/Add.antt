-- ===== src/Entity/Add.antt =====
-- Add of entity/entity.go under the invariant of the graph.
use Prim.Native.String.{String}
use text.Mathlib.TextEquality.{eq_iff}
use text.Mathlib.Text.{◌==◌ as str_eq}
use turbograph.Prelude.{
  ◌≡◌, refl, inl, inr, true, false, ◌||◌, List, [], ◌∷◌, Option, none, some, arith, if◌then◌else◌,
  Bool-cases, Option-cases,
}
use turbograph.Prelude.Keys.{string_key, pair_key}
use turbograph.Prelude.Assoc.{lookup, insert, has, contains, lookup-insert}
use turbograph.Entity.{
  TextOps, Relation, RelationKey, Graph, ExtractedEntity, ExtractedRelation, Extraction, ensure,
  seen_of, describe, cite, add_entity, add_entities, mention_endpoint, relation_key, bump,
  count_relation, add_relation, add_relations, add, clean, is_blank,
}
use turbograph.Entity.Valid.{
  IsAnchored, IsValid, IsOrder, Keeps, Keeps-refl, Keeps-trans, adjust-Keeps, ensure-Keeps,
  ensure-has, describe_seen-IsValid,
}

module _ (t : TextOps) where
  describe-Keeps : (n d : String) (g : Graph) → Keeps t g (describe t n d g)
  unfolding describe
  describe-Keeps n d g = elim (Bool-cases (is_blank d || contains (seen_of n g) d)) [
    | inl old ↦ rw (old, describe) (Keeps-refl t g)
    | inr new ↦
        let g' = record g { desc_seen = insert n (d ∷ seen_of n g) g.desc_seen } in
        let seen : Keeps t g g' = record {
          valid = describe_seen-IsValid t n _ g;
          grown = λ m h. h;
        } in
        rw (new, describe) (Keeps-trans t seen (adjust-Keeps t n _ g' (λ e. refl)))
  ]

  cite-Keeps : (chunk_id n : String) (g : Graph) → Keeps t g (cite t chunk_id n g)
  unfolding cite
  cite-Keeps chunk_id n g = elim (Bool-cases (is_blank chunk_id)) [
    | inl blank ↦ rw (blank, cite) (Keeps-refl t g)
    | inr given ↦ rw (given, cite) (adjust-Keeps t n _ g (λ e. refl))
  ]

  mention-Keeps :
      (chunk_id n : String) (s : Graph × List String)
      → Keeps t s.0 (mention_endpoint t chunk_id n s).0
  unfolding mention_endpoint
  mention-Keeps chunk_id n (g, mentioned) = elim (Bool-cases (contains mentioned n)) [
    | inl old ↦ rw (old, mention_endpoint) (Keeps-refl t g)
    | inr new ↦
        rw (new, mention_endpoint)
          (Keeps-trans t (adjust-Keeps t n _ g (λ e. refl)) (cite-Keeps chunk_id n _))
  ]

  add_entity-Keeps :
      (chunk_id : String) (ent : ExtractedEntity) (s : Graph × List String)
      → Keeps t s.0 (add_entity t chunk_id ent s).0
  unfolding add_entity
  add_entity-Keeps chunk_id ent (g, mentioned) =
      let made = ensure-Keeps t g ent.name ent.name ent.type in
      elim (Option-cases (ensure t g ent.name ent.name ent.type).1) [
        | inl blank ↦ rw (blank, add_entity) made
        | inr (n, there) ↦
            let counted = Keeps-trans t made (adjust-Keeps t n _ _ (λ e. refl)) in
            let told = Keeps-trans t counted (describe-Keeps n (t.trim ent.description) _) in
            elim (Bool-cases (contains mentioned n)) [
              | inl old ↦ rw (there, old, add_entity) told
              | inr new ↦ rw (there, new, add_entity) (Keeps-trans t told (cite-Keeps chunk_id n _))
            ]
      ]

  add_entities-Keeps :
      (chunk_id : String) (ents : List ExtractedEntity) (s : Graph × List String)
      → Keeps t s.0 (add_entities t chunk_id ents s).0
  unfolding add_entities
  add_entities-Keeps chunk_id [] s = Keeps-refl t s.0
  add_entities-Keeps chunk_id (ent ∷ ents) s =
      Keeps-trans t (add_entity-Keeps chunk_id ent s) (add_entities-Keeps chunk_id ents _)

  module _ (key : RelationKey) (d : String) (g : Graph) (from : has key.0 g.entities ≡ true)
      (to : has key.1 g.entities ≡ true) (ordered : t.before key.1 key.0 ≡ false)
      (distinct : str_eq key.0 key.1 ≡ false) where
    bump-IsAnchored :
        (o : Option Relation)
        → ((r : Relation) → o ≡ some r → IsAnchored t g.entities key r)
        → IsAnchored t g.entities key (bump key d o)
    unfolding bump
    bump-IsAnchored none h = record {
      source = refl;
      target = refl;
      ordered = ordered;
      distinct = distinct;
      from = from;
      to = to;
    }
    bump-IsAnchored (some r) h = record {
      source = (h r refl).source;
      target = (h r refl).target;
      ordered = ordered;
      distinct = distinct;
      from = from;
      to = to;
    }

    -- the edges of the new graph, by the equation of `lookup` and `insert`
    counted-edges :
        IsValid t g
        → (k : RelationKey) (r : Relation)
        → (if pair_key.beq key k
            then some (bump key d (lookup key g.relations))
            else lookup k g.relations)
          ≡ some r
        → IsAnchored t g.entities k r
    counted-edges v k r h = elim (Bool-cases (pair_key.beq key k)) [
      | inl same ↦
          let here = bump-IsAnchored (lookup key g.relations) (v.edges key) in
          let e : bump key d (lookup key g.relations) ≡ r = cc in
          rw ((pair_key.beq_iff key k).0 same) at (rw e at here)
      | inr other ↦ v.edges k r (ground arith)
    ]

    count_relation-Keeps : Keeps t g (count_relation t key d g)
    unfolding count_relation
    count_relation-Keeps = record {
      valid = λ v. record {
        map = v.map;
        nodes = v.nodes;
        edges = λ k r h. counted-edges v k r (rw (lookup-insert key k _ g.relations) at h);
      };
      grown = λ m h. h;
    }

  ordered_key :
      (s q : String) → IsOrder t → t.before (relation_key t s q).1 (relation_key t s q).0 ≡ false
  ordered_key s q order = ground (arith, order q s)

  add_relation-Keeps :
      (chunk_id : String) (rel : ExtractedRelation) (s : Graph × List String)
      → IsOrder t
      → Keeps t s.0 (add_relation t chunk_id rel s).0
  unfolding add_relation
  add_relation-Keeps chunk_id rel (g, mentioned) order =
      let rs = ensure t g rel.source rel.source "" in
      let rt = ensure t rs.0 rel.target rel.target "" in
      let second = ensure-Keeps t rs.0 rel.target rel.target "" in
      let made = Keeps-trans t (ensure-Keeps t g rel.source rel.source "") second in
      elim (Option-cases rs.1) [
        | inl blank ↦ rw (blank, add_relation) made
        | inr (a, left) ↦ elim (Option-cases rt.1) [
          | inl blank ↦ rw (left, blank, add_relation) made
          | inr (b, right) ↦ elim (Bool-cases (str_eq a b)) [
            | inl loop ↦ rw (left, right, loop, add_relation) made
            | inr apart ↦
                let m1 = mention_endpoint t chunk_id a (rt.0, mentioned) in
                let m2 = mention_endpoint t chunk_id b m1 in
                let told =
                  Keeps-trans t (mention-Keeps chunk_id a (rt.0, mentioned))
                    (mention-Keeps chunk_id b m1) in
                let from =
                  told.grown a (second.grown a (ensure-has t g rel.source rel.source "" a left)) in
                let to = told.grown b (ensure-has t rs.0 rel.target rel.target "" b right) in
                rw (left, right, apart, add_relation)
                  (Keeps-trans t made (
                    Keeps-trans t told (
                      count_relation-Keeps (relation_key t a b) (t.trim rel.description) m2.0
                        (ground (arith, from, to)) (ground (arith, from, to))
                        (ordered_key a b order) (ground (arith, eq_iff a b, eq_iff b a)))))
          ]
        ]
      ]

  add_relations-Keeps :
      (chunk_id : String) (rels : List ExtractedRelation) (s : Graph × List String)
      → IsOrder t
      → Keeps t s.0 (add_relations t chunk_id rels s).0
  unfolding add_relations
  add_relations-Keeps chunk_id [] s order = Keeps-refl t s.0
  add_relations-Keeps chunk_id (rel ∷ rels) s order =
      Keeps-trans t (add_relation-Keeps chunk_id rel s order)
        (add_relations-Keeps chunk_id rels _ order)

  -- Add keeps the invariant of the entity graph (nodes under their own names, edges between two
  -- different nodes, stored in order) and no node disappears. The order of strings is assumed not
  -- to hold both ways.
  pub add-IsValid :
      (g : Graph) (chunk_id : String) (ex : Extraction)
      → IsOrder t
      → IsValid t g
      → IsValid t (add t g chunk_id ex)
        × ((n : String) → has n g.entities ≡ true → has n (add t g chunk_id ex).entities ≡ true)
  unfolding add
  add-IsValid g chunk_id ex order v =
      let c = clean t ex in
      let all =
        Keeps-trans t (add_entities-Keeps chunk_id c.entities (g, []))
          (add_relations-Keeps chunk_id c.relations _ order) in
      (all.valid v, all.grown)
