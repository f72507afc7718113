-- ===== src/Entity/Canonical.antt =====
-- Canonicalize of entity/canonical.go: the variants of a name are merged into one entity, and the
-- relations are rewritten.
use Prim.Native.String.{String, ◌++◌ as concat}
use text.Mathlib.Text.{◌==◌ as str_eq}
use turbograph.Prelude.{
  ◌+◌, Bool, true, not, List, [], ◌∷◌, ◌++◌, Option, none, some, if◌then◌else◌, length, ltb, ◌==◌,
}
use turbograph.Prelude.Keys.{string_key, pair_key}
use turbograph.Prelude.Assoc.{lookup, insert, has, contains, keys_where, map_values}
use turbograph.Prelude.Sorting.{sort_by}
use turbograph.Entity.{TextOps, Entity, Relation, RelationKey, Graph, is_blank, fresh, relation_key}
use turbograph.Entity.Names.{Spelling, byte_len, mergeable_names}

-- the entity of a name of the map
abbrev pub entity_at : String → List (String × Entity) → Entity
entity_at n entities = elim (lookup n entities) [ none ↦ fresh "" "" | some e ↦ e ]

-- the empty string for a missing name
abbrev pub parent_of : String → List (String × String) → String
parent_of n parent = elim (lookup n parent) [ none ↦ "" | some c ↦ c ]

abbrev pub descs_of : String → List (String × List String) → List String
descs_of c seen = elim (lookup c seen) [ none ↦ [] | some ds ↦ ds ]

unfoldable pub append_unique : List String → String → List String
append_unique s v = if contains s v then s else s ++ v ∷ []

unfoldable pub append_all : List String → List String → List String
append_all s [] = s
append_all s (v ∷ vs) = append_all (append_unique s v) vs

unfoldable pub join_spaces : List String → String
join_spaces [] = ""
join_spaces (d ∷ []) = d
join_spaces (d ∷ e ∷ ds) = concat d (concat " " (join_spaces (e ∷ ds)))

-- a variant folded into its head
unfoldable pub fold_variant : Entity → Entity → Entity
fold_variant e m = record m {
  mentions = m.mentions + e.mentions;
  type = if is_blank m.type then e.type else m.type;
}

-- the entities and the descriptions that the loop over the names has made
pub record Merging : Type 0 where
  pub merged : List (String × Entity)
  pub desc_seen : List (String × List String)

-- the relation under a new key, with one more relation of the old graph
unfoldable pub absorb : RelationKey → Relation → Option Relation → Relation
absorb key r none = record {
  source = key.0;
  target = key.1;
  weight = r.weight;
  description = r.description;
}
absorb key r (some q) = record q {
  weight = q.weight + r.weight;
  description = if is_blank q.description then r.description else q.description;
}

module _ (sp : Spelling) where
  -- the first head that a name is a variant of; the empty string for none
  unfoldable pub find_head : String → List String → String
  find_head n [] = ""
  find_head n (h ∷ hs) = let rest = find_head n hs in if mergeable_names sp n h then h else rest

  -- the loop that makes the heads and the map `parent`
  unfoldable pub assign_heads :
      List String → List String → List (String × String) → List (String × String)
  assign_heads [] heads parent = parent
  assign_heads (n ∷ ns) heads parent =
      let alone = assign_heads ns (heads ++ n ∷ []) (insert n n parent) in
      let canon = find_head n heads in
      let variant = assign_heads ns heads (insert n canon parent) in
      if is_blank canon then alone else variant

module _ (t : TextOps) where
  unfoldable pub split_descs : String → List String
  split_descs d = let d' = t.trim d in if is_blank d' then [] else d' ∷ []

  unfoldable pub note_descs :
      String → List String → List (String × List String) → List (String × List String)
  note_descs c [] seen = seen
  note_descs c (d ∷ ds) seen =
      let old = descs_of c seen in
      note_descs c ds (if contains old d then seen else insert c (d ∷ old) seen)

  -- the head of a name, copied before its first use
  unfoldable pub open_head : List (String × Entity) → String → Merging → Merging
  open_head entities c s = if has c s.merged then s else record {
    merged = insert c (entity_at c entities) s.merged;
    desc_seen = insert c [] s.desc_seen;
  }

  -- the body of the loop over the names
  unfoldable pub merge_entity :
      List (String × Entity) → List (String × String) → String → Merging → Merging
  merge_entity entities parent n s =
      let e = entity_at n entities in
      let c = parent_of n parent in
      let s' = open_head entities c s in
      let m = entity_at c s'.merged in
      let m' = if str_eq n c then m else fold_variant e m in
      record {
        merged = insert c (record m' { chunks = append_all m'.chunks e.chunks }) s'.merged;
        desc_seen = note_descs c (split_descs e.description) s'.desc_seen;
      }

  unfoldable pub merge_entities :
      List (String × Entity) → List (String × String) → List String → Merging → Merging
  merge_entities entities parent [] s = s
  merge_entities entities parent (n ∷ ns) s =
      merge_entities entities parent ns (merge_entity entities parent n s)

  abbrev pub redescribe : List (String × List String) → String → Entity → Entity
  redescribe seen c m = record m { description = join_spaces (sort_by t.before (descs_of c seen)) }

  unfoldable pub describe_merged : Merging → List (String × Entity)
  describe_merged s = map_values (redescribe s.desc_seen) s.merged

  -- the body of the loop over the relations
  abbrev pub head_of : List (String × String) → String → String
  head_of parent n = if is_blank (parent_of n parent) then n else parent_of n parent

  unfoldable pub rewrite_relation :
      List (String × String)
      → Relation
      → List (RelationKey × Relation)
      → List (RelationKey × Relation)
  rewrite_relation parent r rels =
      let s = head_of parent r.source in
      let q = head_of parent r.target in
      let key = relation_key t s q in
      if str_eq s q then rels else insert key (absorb key r (lookup key rels)) rels

  unfoldable pub rewrite_relations :
      List (String × String)
      → List (RelationKey × Relation)
      → List (RelationKey × Relation)
      → List (RelationKey × Relation)
  rewrite_relations parent [] rels = rels
  rewrite_relations parent ((_, r) ∷ rs) rels =
      rewrite_relations parent rs (rewrite_relation parent r rels)

  module _ (sp : Spelling) where
    -- the order of the names: the longest, then the most mentioned, then by name
    unfoldable pub is_more_complete : List (String × Entity) → String → String → Bool
    is_more_complete entities i j =
        let a = entity_at i entities in
        let b = entity_at j entities in
        if not (byte_len sp a.name == byte_len sp b.name)
        then ltb (byte_len sp b.name) (byte_len sp a.name)
        else if not (a.mentions == b.mentions)
        then ltb b.mentions a.mentions
        else t.before a.name b.name

    unfoldable pub sorted_names : Graph → List String
    sorted_names g = sort_by (is_more_complete g.entities) (keys_where (λ _ _. true) g.entities)

    unfoldable pub canonicalize : Graph → Graph
    canonicalize g =
        let names = sorted_names g in
        let parent = assign_heads sp names [] [] in
        let s = merge_entities g.entities parent names (record { merged = []; desc_seen = [] }) in
        if ltb (length g.entities) 2 then g else record {
          entities = describe_merged s;
          relations = rewrite_relations parent g.relations [];
          desc_seen = s.desc_seen;
        }
