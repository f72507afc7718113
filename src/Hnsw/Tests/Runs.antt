-- ===== src/Hnsw/Tests/Runs.antt =====
-- Runs on an index of points on a line.
use Prim.Native.String.{String}
use turbograph.Prelude.{ℕ, ◌≤◌, ◌≡◌, refl, Bool, true, not, List, [], ◌∷◌, some, length, arith, All}
use turbograph.Prelude.Keys.{string_key}
use turbograph.Heap.{pop, push, up, down, choose, test, swap}
use turbograph.Hnsw.Well.{has_level, IsLinked}
use turbograph.Hnsw.{
  friends_of, links_of, search_loop, visit_all, visit, meet, seen, mark, reset, grow, clear, admit,
  Hnsw, Candidate, greedy_descend, search_layer, add_vector, search, snapshot, restore_hnsw,
  dist_to_node,
}
use turbograph.Hnsw.Total.{search_layer-some}
use turbograph.Hnsw.Walk.{IsFound, greedy_descend-IsFound}
use turbograph.Hnsw.Grow.{IsWell, add_vector-IsWell}
use turbograph.Hnsw.Query.{IsHit, search-IsHit}
use turbograph.Hnsw.Restore.{restore_hnsw-snapshot}
use turbograph.Hnsw.Tests.Line.{
  line, line-IsStrict, by_distance, by_distance-SameItems, small, two, two-IsWell,
}

abbrev every : ℕ → Bool
every _ = true

two_links : (l i : ℕ) → All (λ f. has_level two.nodes f l ≡ true) (friends_of two.nodes i l)
unfolding IsLinked
two_links l i = (two-IsWell.linked i l).0

search_layer-some_example :
    (found : List (Candidate line)) × (search_layer two 12 every 8 0 1 ≡ some found)
search_layer-some_example = search_layer-some two 12 every 8 0 1 refl (two_links 0) refl

greedy_descend-IsFound_example :
    (found : ℕ) × (greedy_descend two 12 1 0 ≡ some found) × IsFound two 12 0 found
greedy_descend-IsFound_example =
    greedy_descend-IsFound two 12 line-IsStrict refl 1 0 (two_links 0) refl

found_two :
    search_layer two 12 every 8 0 1
    ≡ some (record { id = 1; dist = 28 } ∷ record { id = 0; dist = 2 } ∷ [])
unfolding search_layer dist_to_node links_of search_loop pop visit_all visit meet seen mark reset
    grow clear push up down choose admit test swap
found_two = refl

add_vector-IsWell_example :
    (g : Hnsw line) × (add_vector by_distance "thirty" 30 two ≡ some (g, 2))
    × IsWell g
    × (g.ids ≡ "ten" ∷ "forty" ∷ "thirty" ∷ [])
add_vector-IsWell_example =
    add_vector-IsWell line-IsStrict by_distance by_distance-SameItems "thirty" 30 two two-IsWell
      (omega arith)

abbrev not_ten : String → Bool
not_ten id = not (string_key.beq id "ten")

search-IsHit_example :
    (hits : List (String × ℕ)) × (search by_distance two 12 1 4 not_ten ≡ some hits)
    × (length hits ≤ 1)
    × All (IsHit two not_ten) hits
search-IsHit_example =
    search-IsHit line-IsStrict two two-IsWell by_distance by_distance-SameItems 12 1 4 not_ten
      (omega arith)

restore_hnsw-snapshot_example :
    (g : Hnsw line) × (restore_hnsw 1 small two.ids (10 ∷ 40 ∷ []) (snapshot two) ≡ some g)
    × (g.nodes ≡ two.nodes)
    × (g.entry ≡ two.entry)
    × (g.top ≡ two.top)
    × (g.ids ≡ two.ids)
restore_hnsw-snapshot_example =
    restore_hnsw-snapshot 1 small two (10 ∷ 40 ∷ []) two-IsWell refl refl
