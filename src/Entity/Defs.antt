-- ===== src/Entity/Defs.antt =====
-- entity/entity.go: the data and the operations of the graph.
use Prim.Native.String.{String, ◌++◌ as concat}
use turbograph.Prelude.{
  ℕ, ◌+◌, Bool, true, false, not, ◌&&◌, ◌||◌, List, [], ◌∷◌, ◌++◌, Option, none, some,
  if◌then◌else◌, filter, length, ◌==◌,
}
use turbograph.Prelude.Keys.{string_key, pair_key}
use turbograph.Prelude.Assoc.{
  lookup, insert, contains, delete_all, keys_where, map_values, delete_where,
}
use text.Mathlib.Text.{◌==◌ as str_eq}

-- What the code calls of packages strings and unicode: TrimSpace, ToLower, ContainsFunc with
-- IsUpper, and the order of strings.
pub record TextOps : Type 0 where
  pub trim : String → String
  pub lower : String → String
  pub has_upper : String → Bool
  pub before : String → String → Bool

pub record ExtractedEntity : Type 0 where
  pub name : String
  pub type : String
  pub description : String

pub record ExtractedRelation : Type 0 where
  pub source : String
  pub target : String
  pub description : String

pub record Extraction : Type 0 where
  pub entities : List ExtractedEntity
  pub relations : List ExtractedRelation

pub record Entity : Type 0 where
  pub name : String
  pub display : String
  pub type : String
  pub description : String
  pub chunks : List String
  pub mentions : ℕ

pub record Relation : Type 0 where
  pub source : String
  pub target : String
  pub description : String
  pub weight : ℕ

abbrev pub RelationKey : Type 0
RelationKey = String × String

pub record Graph : Type 0 where
  pub entities : List (String × Entity)
  pub relations : List (RelationKey × Relation)
  pub desc_seen : List (String × List String)

abbrev pub new_graph : Graph
new_graph = record { entities = []; relations = []; desc_seen = [] }

abbrev pub is_blank : String → Bool
is_blank s = str_eq s ""

-- `g.entities[n] = e`, or a write through the pointer `n`
unfoldable pub put : String → Entity → Graph → Graph
put n e g = record g { entities = insert n e g.entities }

unfoldable pub adjust : String → (Entity → Entity) → Graph → Graph
adjust n f g = elim (lookup n g.entities) [ none ↦ g | some e ↦ put n (f e) g ]

abbrev pub fresh : String → String → Entity
fresh c display = record {
  name = c;
  display = display;
  type = "";
  description = "";
  chunks = [];
  mentions = 0;
}

abbrev pub fill : String → String → Entity → Entity
fill display type e = record e {
  display = if is_blank e.display then display else e.display;
  type = if is_blank e.type then type else e.type;
}

-- the set of descriptions seen of an entity
abbrev pub seen_of : String → Graph → List String
seen_of n g = elim (lookup n g.desc_seen) [ none ↦ [] | some ds ↦ ds ]

-- the edge under a key, made if it is missing, with its weight and its first description
unfoldable pub bump : RelationKey → String → Option Relation → Relation
bump key d none = record { source = key.0; target = key.1; description = d; weight = 1 }
bump key d (some r) = record r {
  weight = r.weight + 1;
  description = if not (is_blank d) && is_blank r.description then d else r.description;
}

module _ (t : TextOps) where
  unfoldable pub norm : String → String
  norm s = t.lower (t.trim s)

  -- the pointer is `none` for nil
  unfoldable pub ensure : Graph → String → String → String → Graph × Option String
  ensure g name display type =
      let c = norm name in
      if is_blank c then (g, none) else elim (lookup c g.entities) [
        | some e ↦ (put c (fill (t.trim display) (t.trim type) e) g, some c)
        | none ↦ (
          record g {
            entities =
                insert c (fill (t.trim display) (t.trim type) (fresh c (t.trim display)))
                  g.entities;
            desc_seen = insert c [] g.desc_seen;
          },
          some c,
        )
      ]

  unfoldable pub plausible_endpoint : String → List String → Bool
  plausible_endpoint name named =
      let n = norm name in
      if is_blank n then false else if contains named n then true else t.has_upper name

  unfoldable pub named_of : List ExtractedEntity → List String
  named_of [] = []
  named_of (ent ∷ ents) =
      let rest = named_of ents in let n = norm ent.name in if is_blank n then rest else n ∷ rest

  unfoldable pub clean : Extraction → Extraction
  clean ex =
      let named = named_of ex.entities in
      record ex {
        relations =
            filter
              (λ rel. plausible_endpoint rel.source named && plausible_endpoint rel.target named)
              ex.relations;
      }

  -- the first mention by a chunk records the chunk
  unfoldable pub cite : String → String → Graph → Graph
  cite chunk_id n g =
      if is_blank chunk_id
      then g
      else adjust n (λ e. record e { chunks = e.chunks ++ chunk_id ∷ [] }) g

  unfoldable pub describe : String → String → Graph → Graph
  describe n d g =
      if is_blank d || contains (seen_of n g) d
      then g
      else let g' = record g { desc_seen = insert n (d ∷ seen_of n g) g.desc_seen } in
        adjust n
          (λ e. record e {
            description = if is_blank e.description then d else concat (concat e.description " ") d;
          })
          g'

  -- the body of the loop over the entities; the set `mentioned` goes along
  unfoldable pub add_entity : String → ExtractedEntity → Graph × List String → Graph × List String
  add_entity chunk_id ent (g, mentioned) =
      let r = ensure g ent.name ent.name ent.type in
      elim r.1 [
        | none ↦ (r.0, mentioned)
        | some n ↦
            let g2 = adjust n (λ e. record e { mentions = e.mentions + 1 }) r.0 in
            let g3 = describe n (t.trim ent.description) g2 in
            if contains mentioned n then (g3, mentioned) else (cite chunk_id n g3, n ∷ mentioned)
      ]

  unfoldable pub add_entities :
      String → List ExtractedEntity → Graph × List String → Graph × List String
  add_entities chunk_id [] s = s
  add_entities chunk_id (ent ∷ ents) s = add_entities chunk_id ents (add_entity chunk_id ent s)

  -- the loop over the two endpoints
  unfoldable pub mention_endpoint : String → String → Graph × List String → Graph × List String
  mention_endpoint chunk_id n (g, mentioned) = if contains mentioned n then (g, mentioned) else (
    cite chunk_id n (adjust n (λ e. record e { mentions = e.mentions + 1 }) g),
    n ∷ mentioned,
  )

  -- the two names in ascending order
  abbrev pub relation_key : String → String → RelationKey
  relation_key s q = if t.before q s then (q, s) else (s, q)

  unfoldable pub count_relation : RelationKey → String → Graph → Graph
  count_relation key d g = record g {
    relations = insert key (bump key d (lookup key g.relations)) g.relations;
  }

  unfoldable pub add_relation :
      String → ExtractedRelation → Graph × List String → Graph × List String
  add_relation chunk_id rel (g, mentioned) =
      let rs = ensure g rel.source rel.source "" in
      let rt = ensure rs.0 rel.target rel.target "" in
      elim rs.1 [
        | none ↦ (rt.0, mentioned)
        | some s ↦ elim rt.1 [
          | none ↦ (rt.0, mentioned)
          | some q ↦
              if str_eq s q
              then (rt.0, mentioned)
              else let m =
                  mention_endpoint chunk_id q (mention_endpoint chunk_id s (rt.0, mentioned)) in
                (count_relation (relation_key s q) (t.trim rel.description) m.0, m.1)
        ]
      ]

  unfoldable pub add_relations :
      String → List ExtractedRelation → Graph × List String → Graph × List String
  add_relations chunk_id [] s = s
  add_relations chunk_id (rel ∷ rels) s = add_relations chunk_id rels (add_relation chunk_id rel s)

  unfoldable pub add : Graph → String → Extraction → Graph
  add g chunk_id ex =
      let c = clean ex in
      (add_relations chunk_id c.relations (add_entities chunk_id c.entities (g, []))).0

-- the loop that filters the chunk list of an entity in place
unfoldable pub forget : List String → Entity → Entity
forget gone e = record e { chunks = filter (λ c. not (contains gone c)) e.chunks }

abbrev pub is_uncited : Entity → Bool
is_uncited e = length e.chunks == 0

-- `gone` is the set of chunk ids; the result is the graph and the number of entities dropped
unfoldable pub drop_chunks : List String → Graph → Graph × ℕ
drop_chunks gone g =
    let kept = map_values (λ _. forget gone) g.entities in
    let dead = keys_where (λ _. is_uncited) kept in
    if length gone == 0
    then (g, 0)
    else if length dead == 0
    then (record g { entities = kept }, 0)
    else (
      record {
        entities = delete_all dead kept;
        relations = delete_where (λ k. contains dead k.0 || contains dead k.1) g.relations;
        desc_seen = delete_all dead g.desc_seen;
      },
      length dead,
    )
