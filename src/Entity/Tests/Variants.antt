-- ===== src/Entity/Tests/Variants.antt =====
-- Runs of Canonicalize and of the edit distance.
use text.Mathlib.Text.{◌==◌ as str_eq}
use turbograph.Prelude.{ℕ, ◌≤◌, ◌≡◌, refl, true, false, [], ◌∷◌, some, if◌then◌else◌, length}
use turbograph.Prelude.Keys.{string_key, pair_key}
use turbograph.Prelude.Assoc.{has, lookup, insert, contains, keys_where, map_values, IsMap}
use turbograph.Prelude.Sorting.{sort_by}
use turbograph.Entity.{
  Graph, Extraction, new_graph, put, adjust, bump, norm, ensure, plausible_endpoint, named_of,
  clean, cite, describe, add_entity, add_entities, mention_endpoint, count_relation, add_relation,
  add_relations, add,
}
use turbograph.Entity.Valid.{IsValid}
use turbograph.Entity.Tests.{flat, flat-IsOrder, new_graph-IsValid}
use turbograph.Entity.Add.{add-IsValid}
use turbograph.Entity.Distance.{min3, store_cell, number_cells, fill_cells, fill_rows, levenshtein}
use turbograph.Entity.Edits.{Edits}
use turbograph.Entity.Rows.{levenshtein-IsLeast}
use turbograph.Entity.Names.{
  Spelling, edit_ratio, is_salient, all_salient, is_short_form, mergeable_names,
}
use turbograph.Entity.Canonical.{
  canonicalize, append_unique, append_all, join_spaces, fold_variant, absorb, split_descs,
  note_descs, open_head, merge_entity, merge_entities, describe_merged, rewrite_relation,
  rewrite_relations, is_more_complete, find_head, assign_heads, sorted_names,
}
use turbograph.Entity.Merged.{total_mentions}
use turbograph.Entity.Kept.{canonicalize-IsValid}

-- one byte inserted, one replaced
levenshtein-IsLeast_example :
    (d : ℕ) × (levenshtein (1 ∷ 2 ∷ 3 ∷ []) (1 ∷ 9 ∷ 3 ∷ 4 ∷ []) ≡ some d)
    × Edits (1 ∷ 2 ∷ 3 ∷ []) (1 ∷ 9 ∷ 3 ∷ 4 ∷ []) d
    × ((n : ℕ) → Edits (1 ∷ 2 ∷ 3 ∷ []) (1 ∷ 9 ∷ 3 ∷ 4 ∷ []) n → d ≤ n)
levenshtein-IsLeast_example = levenshtein-IsLeast (1 ∷ 2 ∷ 3 ∷ []) (1 ∷ 9 ∷ 3 ∷ 4 ∷ [])

two_edits : levenshtein (1 ∷ 2 ∷ 3 ∷ []) (1 ∷ 9 ∷ 3 ∷ 4 ∷ []) ≡ some 2
unfolding levenshtein number_cells fill_rows fill_cells store_cell min3
two_edits = refl

-- the few names of the runs
abbrev spelling : Spelling
spelling = record {
  bytes = λ s.
      if str_eq s "ada lovelace"
      then 1 ∷ 2 ∷ 1 ∷ 3 ∷ 4 ∷ 5 ∷ 6 ∷ 7 ∷ 4 ∷ 1 ∷ 8 ∷ 7 ∷ []
      else if str_eq s "lovelace"
      then 4 ∷ 5 ∷ 6 ∷ 7 ∷ 4 ∷ 1 ∷ 8 ∷ 7 ∷ []
      else 9 ∷ 10 ∷ 11 ∷ 12 ∷ [];
  fields = λ s. if str_eq s "ada lovelace" then "ada" ∷ "lovelace" ∷ [] else s ∷ [];
}

abbrev letter : Extraction
letter = record {
  entities =
      record { name = "lovelace"; type = ""; description = "" }
      ∷ record { name = "ada lovelace"; type = "person"; description = "a writer" }
      ∷ [];
  relations =
      record { source = "lovelace"; target = "babbage"; description = "wrote to" }
      ∷ record { source = "lovelace"; target = "ada lovelace"; description = "" }
      ∷ [];
}

abbrev variants : Graph
variants = add flat new_graph "c1" letter

abbrev merged : Graph
merged = canonicalize flat spelling variants

-- one entity with both mentions is left of the two, and one relation of the two
merged_lem :
    (has "lovelace" merged.entities ≡ false)
    × (has "ada lovelace" merged.entities ≡ true)
    × (length merged.relations ≡ 1)
    × (total_mentions merged.entities ≡ total_mentions variants.entities)
unfolding put adjust bump norm ensure plausible_endpoint named_of clean cite describe add_entity
    add_entities mention_endpoint count_relation add_relation add_relations add lookup insert
    contains keys_where map_values sort_by canonicalize append_unique append_all join_spaces
    fold_variant absorb split_descs note_descs open_head merge_entity merge_entities describe_merged
    rewrite_relation rewrite_relations is_more_complete find_head assign_heads sorted_names
    edit_ratio is_salient all_salient is_short_form mergeable_names levenshtein number_cells
    fill_rows fill_cells store_cell min3 total_mentions
merged_lem = (refl, refl, refl, refl)

variants-IsValid : IsValid flat variants
variants-IsValid = (add-IsValid flat new_graph "c1" letter flat-IsOrder new_graph-IsValid).0

variants-IsMap : IsMap variants.relations
unfolding put adjust bump norm ensure plausible_endpoint named_of clean cite describe add_entity
    add_entities mention_endpoint count_relation add_relation add_relations add lookup insert
    contains
variants-IsMap = (refl, (refl, tt))

canonicalize-IsValid_example :
    IsValid flat merged
    × IsMap merged.relations
    × (total_mentions merged.entities ≡ total_mentions variants.entities)
canonicalize-IsValid_example =
    canonicalize-IsValid flat spelling variants flat-IsOrder variants-IsValid variants-IsMap
