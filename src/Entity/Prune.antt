-- ===== src/Entity/Prune.antt =====
-- Prune of entity/canonical.go: generic and ghost nodes.
use Prim.Native.String.{String}
use text.Mathlib.Text.{◌==◌ as str_eq}
use text.Mathlib.TextEquality.{eq_iff}
use turbograph.Prelude.{
  ◌≡◌, refl, ap, is_some, ◌⊎◌, Option, inl, inr, Bool, true, false, not, ◌&&◌, ◌||◌, List, [], ◌∷◌,
  ◌++◌, none, some, arith, if◌then◌else◌, length, ◌==◌, leb, Bool-cases, Option-cases,
}
use turbograph.Prelude.Keys.{string_key, pair_key}
use turbograph.Prelude.Assoc.{
  lookup, contains, delete_all, keys_where, delete_where, holds, lookup-delete_all,
  lookup-delete_where, contains-keys_where,
}
use turbograph.Entity.{TextOps, Entity, Relation, RelationKey, Graph, is_blank}
use turbograph.Entity.Valid.{IsValid}

abbrev pub generic_names : List String
generic_names =
    "the" ∷ "a" ∷ "an" ∷ "it" ∷ "he" ∷ "she" ∷ "they" ∷ "we" ∷ "this" ∷ "that" ∷ "these" ∷ "those"
    ∷ "thing" ∷ "things" ∷ "entity" ∷ "system" ∷ "concept" ∷ "item" ∷ "object" ∷ "one" ∷ "some" ∷ []

-- a name that the first pass drops
pub is_noise : String → Bool
is_noise n = is_blank n || contains generic_names n

abbrev pub is_ghost : Entity → Bool
is_ghost e = is_blank e.type && is_blank e.description && leb e.mentions 1

-- the set `linked`
pub endpoints : List (RelationKey × Relation) → List String
endpoints [] = []
endpoints ((k, r) ∷ m) = k.0 ∷ k.1 ∷ endpoints m

-- a loop over the relations that deletes those with an endpoint in a set
pub detach : List String → List (RelationKey × Relation) → List (RelationKey × Relation)
detach drop = delete_where (λ k. contains drop k.0 || contains drop k.1)

pub noise_of : Graph → List String
noise_of g = keys_where (λ n _. is_noise n) g.entities

pub ghosts_of : List String → Graph → List String
ghosts_of linked g =
    keys_where (λ n e. not (is_noise n || contains linked n) && is_ghost e) g.entities

pub prune : Graph → Graph
prune g =
    let kept = detach (noise_of g) g.relations in
    let drop = noise_of g ++ ghosts_of (endpoints kept) g in
    if length drop == 0 then record g { relations = kept } else record {
      entities = delete_all drop g.entities;
      relations = detach drop kept;
      desc_seen = delete_all drop g.desc_seen;
    }

contains-append :
    (xs ys : List String) (n : String) → contains (xs ++ ys) n ≡ (contains xs n || contains ys n)
unfolding contains
contains-append [] ys n = refl
contains-append (x ∷ xs) ys n = ground (arith, contains-append xs ys n)

no_drop : (drop : List String) (n : String) → (length drop == 0) ≡ true → contains drop n ≡ false
unfolding contains
no_drop [] n h = refl
no_drop (d ∷ drop) n h = ground arith

endpoints-lookup :
    (m : List (RelationKey × Relation)) (k : RelationKey) (r : Relation)
    → lookup k m ≡ some r
    → (contains (endpoints m) k.0 ≡ true) × (contains (endpoints m) k.1 ≡ true)
unfolding endpoints contains lookup
endpoints-lookup [] k r h = cc
endpoints-lookup ((j, q) ∷ m) k r h =
    ground (arith, eq_iff j.0 k.0, eq_iff j.1 k.1, endpoints-lookup m k r)

lookup-detach :
    (drop : List String) (k : RelationKey) (m : List (RelationKey × Relation))
    → lookup k (detach drop m)
      ≡ (if contains drop k.0 || contains drop k.1 then none else lookup k m)
unfolding detach
lookup-detach drop k m = lookup-delete_where (λ j. contains drop j.0 || contains drop j.1) k m

module _ (t : TextOps) (g : Graph) (v : IsValid t g) where
  -- the names of every kind that are dropped
  abbrev linked : List String
  linked = endpoints (detach (noise_of g) g.relations)

  abbrev drop : List String
  drop = noise_of g ++ ghosts_of linked g

  noise_lem : (n : String) → contains (noise_of g) n ≡ holds (λ _. is_noise n) (lookup n g.entities)
  unfolding noise_of
  noise_lem n = contains-keys_where (λ m _. is_noise m) n g.entities v.map

  drop_lem :
      (n : String)
      → contains drop n
        ≡ holds (λ e. is_noise n || (not (contains linked n) && is_ghost e)) (lookup n g.entities)
  unfolding ghosts_of
  drop_lem n = ground (
    arith,
    contains-append (noise_of g) (ghosts_of linked g) n,
    noise_lem n,
    contains-keys_where (λ m (e : Entity). not (is_noise m || contains linked m) && is_ghost e) n
        g.entities v.map,
  )

  entities-prune :
      (n : String)
      → lookup n (prune g).entities ≡ elim (lookup n g.entities) [
        | none ↦ none
        | some e ↦ if is_noise n || (not (contains linked n) && is_ghost e) then none else some e
      ]
  unfolding prune
  entities-prune n = ground (arith, drop_lem n, no_drop drop n, lookup-delete_all drop n g.entities)

  -- the relations that are left are those whose endpoints are dropped by neither pass
  relations_by_drop :
      (k : RelationKey)
      → lookup k (prune g).relations ≡ (
          if contains drop k.0 || contains drop k.1
          then none
          else lookup k (detach (noise_of g) g.relations))
  unfolding prune
  relations_by_drop k = ground (
    arith,
    no_drop drop k.0,
    no_drop drop k.1,
    lookup-detach drop k (detach (noise_of g) g.relations),
  )

  relations-prune :
      (k : RelationKey)
      → lookup k (prune g).relations
        ≡ (if is_noise k.0 || is_noise k.1 then none else lookup k g.relations)
  relations-prune k =
      let kept = lookup-detach (noise_of g) k g.relations in
      elim (Option-cases (lookup k g.relations)) [
        | inl missing ↦ ground (arith, relations_by_drop k, kept)
        | inr (r, found) ↦
            let edge = v.edges k r found in
            let left : contains (noise_of g) k.0 ≡ is_noise k.0 =
              ground (arith, noise_lem k.0, edge.from) in
            let right : contains (noise_of g) k.1 ≡ is_noise k.1 =
              ground (arith, noise_lem k.1, edge.to) in
            elim (Bool-cases (is_noise k.0 || is_noise k.1)) [
              | inl noise ↦ ground (arith, relations_by_drop k, kept, left, right)
              | inr names ↦
                  let kept' : lookup k (detach (noise_of g) g.relations) ≡ some r =
                    ground (arith, kept, left, right) in
                  ground (
                    arith,
                    relations_by_drop k,
                    drop_lem k.0,
                    drop_lem k.1,
                    edge.from,
                    edge.to,
                    endpoints-lookup (detach (noise_of g) g.relations) k r kept',
                  )
            ]
      ]

-- a relation of the map joins the name to another
abbrev pub IsAnchored : String → List (RelationKey × Relation) → Type 0
IsAnchored n m =
    (k : RelationKey) × (is_some (lookup k m) ≡ true) × ((str_eq k.0 n || str_eq k.1 n) ≡ true)

endpoints-IsAnchored :
    (m : List (RelationKey × Relation)) (n : String)
    → contains (endpoints m) n ≡ true
    → IsAnchored n m
unfolding endpoints contains lookup
endpoints-IsAnchored [] n h = absurd (cc)
endpoints-IsAnchored ((j, q) ∷ m) n h = elim (Bool-cases (str_eq j.0 n || str_eq j.1 n)) [
  | inl here ↦ (j, ground (arith, eq_iff j.0 j.0, eq_iff j.1 j.1), here)
  | inr past ↦
      let (k, found, at) = endpoints-IsAnchored m n (ground (arith, past)) in
      (k, ground (arith, found), at)
]

-- What becomes of an entity: nothing if its name is noise, itself if it is no ghost, and if it is a
-- ghost, itself exactly if a relation that is left has it.
abbrev pub Stays : Graph → String → Entity → Option Entity → Type 0
Stays g n e o =
    (is_noise n ≡ true → o ≡ none)
    × (is_noise n ≡ false → is_ghost e ≡ false → o ≡ some e)
    × (is_noise n ≡ false
        → is_ghost e ≡ true
        → ((o ≡ some e) × IsAnchored n (prune g).relations)
          ⊎ ((o ≡ none) × ¬ IsAnchored n (prune g).relations))

-- In a valid graph, Prune drops the entities with a blank or generic name, keeps every other
-- entity that is no ghost, keeps a ghost exactly if a relation that is left has it, and makes no
-- new entity. It keeps exactly the relations neither of whose endpoints is blank or generic.
pub prune_exact :
    (t : TextOps) (g : Graph)
    → IsValid t g
    → ((n : String) (e : Entity)
        → lookup n g.entities ≡ some e
        → Stays g n e (lookup n (prune g).entities))
      × ((n : String) → lookup n g.entities ≡ none → lookup n (prune g).entities ≡ none)
      × ((k : RelationKey)
          → lookup k (prune g).relations
            ≡ (if is_noise k.0 || is_noise k.1 then none else lookup k g.relations))
prune_exact t g v = (
  λ n e found. (
    λ noise. ground (arith, entities-prune t g v n),
    λ name solid. ground (arith, entities-prune t g v n),
    λ name ghost. elim (Bool-cases (contains (linked t g v) n)) [
      | inl held ↦ inl (
        ground (arith, entities-prune t g v n),
        anchored n (endpoints-IsAnchored (detach (noise_of g) g.relations) n held),
      )
      | inr free ↦ inr (ground (arith, entities-prune t g v n), λ at. loose n free at)
    ],
  ),
  λ n missing. ground (arith, entities-prune t g v n),
  relations-prune t g v,
)
  where
    anchored :
        (n : String)
        → IsAnchored n (detach (noise_of g) g.relations)
        → IsAnchored n (prune g).relations
    anchored n (k, found, at) =
        let kept = lookup-detach (noise_of g) k g.relations in
        elim (Option-cases (lookup k g.relations)) [
          | inl missing ↦ absurd (ground (arith, kept, missing, found))
          | inr (r, was) ↦
              let edge = v.edges k r was in
              (
                k,
                ground (
                  arith,
                  found,
                  kept,
                  was,
                  relations-prune t g v k,
                  noise_lem t g v k.0,
                  noise_lem t g v k.1,
                  edge.from,
                  edge.to,
                ),
                at,
              )
        ]

    loose : (n : String) → contains (linked t g v) n ≡ false → IsAnchored n (prune g).relations → ⊥
    loose n free (k, found, at) = elim (Option-cases (lookup k g.relations)) [
      | inl missing ↦ absurd (ground (arith, relations-prune t g v k, missing, found))
      | inr (r, was) ↦
          let edge = v.edges k r was in
          let kept : lookup k (detach (noise_of g) g.relations) ≡ some r = ground (
            arith,
            found,
            was,
            lookup-detach (noise_of g) k g.relations,
            relations-prune t g v k,
            noise_lem t g v k.0,
            noise_lem t g v k.1,
            edge.from,
            edge.to,
          ) in
          let (left, right) = endpoints-lookup (detach (noise_of g) g.relations) k r kept in
          elim (Bool-cases (str_eq k.0 n)) [
            | inl here ↦
                absurd
                  (ground (arith, free, ap (contains (linked t g v)) ((eq_iff k.0 n).0 here), left))
            | inr there ↦ absurd (
                ground (
                  arith,
                  free,
                  ap (contains (linked t g v)) ((eq_iff k.1 n).0 (ground arith)),
                  right,
                ))
          ]
    ]
