-- ===== src/Entity/Drop.antt =====
-- DropChunks of entity/entity.go, and what the graph cites afterwards.
use Prim.Native.String.{String}
use text.Mathlib.TextEquality.{eq_iff}
use turbograph.Prelude.{
  ◌≡◌, refl, sym, ap, ◌∙◌, subst, if_cases, inl, inr, true, false, not, ◌&&◌, ◌||◌, List, [], ◌∷◌,
  Option, none, some, arith, if◌then◌else◌, filter, length, ◌==◌, Bool-cases, Option-cases,
}
use turbograph.Prelude.Keys.{string_key, pair_key}
use turbograph.Prelude.Assoc.{
  lookup, has, contains, keys_where, map_values, holds, IsMap, lookup-delete_all, lookup-map_values,
  lookup-delete_where, contains-keys_where, map_values-IsMap,
}
use turbograph.Entity.Valid.{IsValid}
use turbograph.Entity.{TextOps, Entity, Graph, RelationKey, drop_chunks, forget, is_uncited}

contains-filter :
    (gone cs : List String) (c : String)
    → contains (filter (λ d. not (contains gone d)) cs) c
      ≡ (if contains gone c then false else contains cs c)
unfolding contains
contains-filter gone [] c = ground arith
contains-filter gone (d ∷ cs) c = elim (Bool-cases (contains gone d)) [
  | inl out ↦ ground (arith, eq_iff d c, contains-filter gone cs c)
  | inr kept ↦ ground (arith, eq_iff d c, contains-filter gone cs c)
]

-- what an entity of the old graph becomes
abbrev pub survivor : List String → Entity → Option Entity
survivor gone e = if is_uncited (forget gone e) then none else some (forget gone e)

no_dead : (dead : List String) (n : String) → (length dead == 0) ≡ true → contains dead n ≡ false
unfolding contains
no_dead [] n h = refl
no_dead (d ∷ dead) n h = ground arith

-- What is left of an entity: nothing if all of its chunks are gone, or the entity without those.
abbrev pub Survives : List String → Entity → Option Entity → Type 0
Survives gone e none = (c : String) → contains e.chunks c ≡ true → contains gone c ≡ true
Survives gone e (some f) =
    (f ≡ record e { chunks = f.chunks })
    × ((c : String) → contains f.chunks c ≡ (contains e.chunks c && not (contains gone c)))
    × ((length f.chunks == 0) ≡ false)

survivor-Survives : (gone : List String) (e : Entity) → Survives gone e (survivor gone e)
unfolding forget
survivor-Survives gone e =
    if_cases (Survives gone e) (is_uncited (forget gone e))
      (λ empty c cited. ground (
        arith,
        cited,
        contains-filter gone e.chunks c,
        no_dead (filter (λ d. not (contains gone d)) e.chunks) c empty,
      ))
      (λ full. (refl, λ c. ground (arith, contains-filter gone e.chunks c), full))

module _ (gone : List String) (g : Graph) (some_gone : (length gone == 0) ≡ false) where
  -- the names of the entities left with no chunk
  abbrev dead : List String
  dead = keys_where (λ _. is_uncited) (map_values (λ _. forget gone) g.entities)

  dead_lem :
      IsMap g.entities
      → (n : String)
      → contains dead n ≡ holds (λ e. is_uncited (forget gone e)) (lookup n g.entities)
  dead_lem h n = ground (
    arith,
    contains-keys_where (λ (m : String) (e : Entity). is_uncited e) n _
        (map_values-IsMap (λ (m : String). forget gone) g.entities h),
    lookup-map_values (λ (m : String). forget gone) n g.entities,
  )

  lookup-drop_chunks :
      IsMap g.entities
      → (n : String)
      → lookup n (drop_chunks gone g).0.entities
        ≡ elim (lookup n g.entities) [ none ↦ none | some e ↦ survivor gone e ]
  unfolding drop_chunks
  lookup-drop_chunks h n = ground (
    arith,
    dead_lem h n,
    no_dead dead n,
    lookup-delete_all dead n (map_values (λ (m : String). forget gone) g.entities),
    lookup-map_values (λ (m : String). forget gone) n g.entities,
  )

  -- the surviving nodes, by the list of the dead
  has-drop_chunks :
      IsMap g.entities
      → (n : String)
      → has n (drop_chunks gone g).0.entities
        ≡ (if contains dead n then false else has n g.entities)
  has-drop_chunks h n = ground (arith, lookup-drop_chunks h n, dead_lem h n)

  relations-drop_chunks :
      (k : RelationKey)
      → lookup k (drop_chunks gone g).0.relations
        ≡ (if contains dead k.0 || contains dead k.1 then none else lookup k g.relations)
  unfolding drop_chunks
  relations-drop_chunks k = ground (
    arith,
    no_dead dead k.0,
    no_dead dead k.1,
    lookup-delete_where (λ j. contains dead j.0 || contains dead j.1) k g.relations,
  )

  -- In a valid graph, with a chunk gone, DropChunks drops an entity only if all of its chunks are
  -- gone, and keeps any other as it is but for the chunks, which are those it had that are not
  -- gone, one at least. It makes no new entity, and keeps exactly the relations between two
  -- entities that are kept.
  pub drop_chunks_exact :
      (t : TextOps)
      → IsValid t g
      → ((n : String) (e : Entity)
          → lookup n g.entities ≡ some e
          → Survives gone e (lookup n (drop_chunks gone g).0.entities))
        × ((n : String)
            → lookup n g.entities ≡ none
            → lookup n (drop_chunks gone g).0.entities ≡ none)
        × ((k : RelationKey)
            → lookup k (drop_chunks gone g).0.relations ≡ (
                if has k.0 (drop_chunks gone g).0.entities
                  && has k.1 (drop_chunks gone g).0.entities
                then lookup k g.relations
                else none))
  drop_chunks_exact t v = (
    λ n e found.
        subst (Survives gone e)
          (sym (
            lookup-drop_chunks v.map n
            ∙ ap (λ (o : Option Entity). elim o [ none ↦ none | some f ↦ survivor gone f ]) found))
          (survivor-Survives gone e),
    λ n missing.
        lookup-drop_chunks v.map n
        ∙ ap (λ (o : Option Entity). elim o [ none ↦ none | some f ↦ survivor gone f ]) missing,
    λ k. elim (Option-cases (lookup k g.relations)) [
      | inl missing ↦ ground (arith, relations-drop_chunks k)
      | inr (r, found) ↦
          let edge = v.edges k r found in
          ground (
            arith,
            relations-drop_chunks k,
            has-drop_chunks v.map k.0,
            has-drop_chunks v.map k.1,
            edge.from,
            edge.to,
          )
    ],
  )

-- After DropChunks in a valid graph no entity cites a chunk that is gone, and every entity cites
-- one that is left.
pub drop_chunks_uncited :
    (t : TextOps) (gone : List String) (g : Graph) (n c : String) (e : Entity)
    → IsValid t g
    → contains gone c ≡ true
    → lookup n (drop_chunks gone g).0.entities ≡ some e
    → (contains e.chunks c ≡ false) × ((length e.chunks == 0) ≡ false)
unfolding forget contains
drop_chunks_uncited t [] g n c e v out found = cc
drop_chunks_uncited t (x ∷ gone) g n c e v out found = elim (Option-cases (lookup n g.entities)) [
  | inl missing ↦ ground (arith, lookup-drop_chunks (x ∷ gone) g (ground arith) v.map n)
  | inr (f, was) ↦ ground (
    arith,
    lookup-drop_chunks (x ∷ gone) g (ground arith) v.map n,
    contains-filter (x ∷ gone) f.chunks c,
  )
]
