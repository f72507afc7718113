-- ===== src/Entity/Tests.antt =====
-- A small graph, and runs of the operations on it.
mod Variants
use Prim.Native.String.{String}
use turbograph.Prelude.{
  ◌≡◌, refl, true, false, ◌&&◌, ◌||◌, not, List, [], ◌∷◌, none, some, arith, if◌then◌else◌, ◌==◌,
  length,
}
use turbograph.Prelude.Keys.{string_key, pair_key}
use turbograph.Prelude.Assoc.{
  has, lookup, insert, contains, delete, delete_all, keys_where, map_values, delete_where,
}
use turbograph.Entity.{
  TextOps, Graph, Entity, RelationKey, Extraction, new_graph, put, adjust, bump, norm, ensure,
  plausible_endpoint, named_of, clean, cite, describe, add_entity, add_entities, mention_endpoint,
  count_relation, add_relation, add_relations, add, forget, drop_chunks,
}
use turbograph.Entity.Valid.{IsValid, IsOrder}
use turbograph.Entity.Add.{add-IsValid}
use turbograph.Entity.Drop.{drop_chunks_exact, drop_chunks_uncited, Survives}
use turbograph.Entity.Prune.{
  Stays, prune, prune_exact, is_noise, is_ghost, endpoints, detach, noise_of,
}

-- text that is trimmed and in lower case already, in no order
abbrev pub flat : TextOps
flat = record { trim = λ s. s; lower = λ s. s; has_upper = λ _. true; before = λ _ _. false }

abbrev pub letter : Extraction
letter = record {
  entities =
      record { name = "ada"; type = "person"; description = "a writer" }
      ∷ record { name = "babbage"; type = "person"; description = "" }
      ∷ [];
  relations = record { source = "ada"; target = "babbage"; description = "wrote to" } ∷ [];
}

pub new_graph-IsValid : IsValid flat new_graph
unfolding lookup
new_graph-IsValid = record {
  map = tt;
  nodes = λ n e h. ground arith;
  edges = λ k r h. ground arith;
}

pub flat-IsOrder : IsOrder flat
flat-IsOrder a b h = ground arith

abbrev pub society : Graph
society = add flat new_graph "c1" letter

pub society-IsValid : IsValid flat society
society-IsValid = (add-IsValid flat new_graph "c1" letter flat-IsOrder new_graph-IsValid).0

add-IsValid_example :
    IsValid flat (add flat society "c2" letter)
    × ((n : String)
        → has n society.entities ≡ true
        → has n (add flat society "c2" letter).entities ≡ true)
add-IsValid_example = add-IsValid flat society "c2" letter flat-IsOrder society-IsValid

abbrev one_gone : List String
one_gone = "c1" ∷ []

drop_chunks_exact_example :
    ((n : String) (e : Entity)
      → lookup n society.entities ≡ some e
      → Survives one_gone e (lookup n (drop_chunks one_gone society).0.entities))
    × ((n : String)
        → lookup n society.entities ≡ none
        → lookup n (drop_chunks one_gone society).0.entities ≡ none)
    × ((k : RelationKey)
        → lookup k (drop_chunks one_gone society).0.relations ≡ (
            if has k.0 (drop_chunks one_gone society).0.entities
              && has k.1 (drop_chunks one_gone society).0.entities
            then lookup k society.relations
            else none))
drop_chunks_exact_example = drop_chunks_exact one_gone society refl flat society-IsValid

prune_exact_example :
    ((n : String) (e : Entity)
      → lookup n society.entities ≡ some e
      → Stays society n e (lookup n (prune society).entities))
    × ((n : String) → lookup n society.entities ≡ none → lookup n (prune society).entities ≡ none)
    × ((k : RelationKey)
        → lookup k (prune society).relations
          ≡ (if is_noise k.0 || is_noise k.1 then none else lookup k society.relations))
prune_exact_example = prune_exact flat society society-IsValid

-- two letters, and the chunk of the first gone
abbrev letters : Graph
letters = add flat society "c2" letter

letters-IsValid : IsValid flat letters
letters-IsValid = (add-IsValid flat society "c2" letter flat-IsOrder society-IsValid).0

abbrev ada : Entity
ada = record {
  name = "ada";
  display = "ada";
  type = "person";
  description = "a writer";
  chunks = "c2" ∷ [];
  mentions = 2;
}

ada_found : lookup "ada" (drop_chunks one_gone letters).0.entities ≡ some ada
unfolding put adjust bump norm ensure plausible_endpoint named_of clean cite describe add_entity
    add_entities mention_endpoint count_relation add_relation add_relations add forget drop_chunks
    lookup insert contains delete delete_all keys_where map_values delete_where
ada_found = refl

drop_chunks_uncited_example :
    (contains ada.chunks "c1" ≡ false) × ((length ada.chunks == 0) ≡ false)
unfolding contains
drop_chunks_uncited_example =
    drop_chunks_uncited flat one_gone letters "ada" "c1" ada letters-IsValid refl ada_found
