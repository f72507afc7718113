-- ===== src/Hnsw/Marks.antt =====
-- visitedSet of index/hnsw_heap.go: a set that is cleared by counting up an epoch.
-- `array` is the array behind the slice, as long as its capacity, and `n` the length of the slice.
use turbograph.Prelude.{
  ℕ, ◌+◌, ◌%◌, ◌^◌, Bool, false, List, [], ◌++◌, none, some, if◌then◌else◌, length, get_elem?, set,
  drop, replicate, ltb, ◌==◌,
}

pub record VisitedSet : Type 0 where
  pub array : List ℕ
  pub n : ℕ
  pub epoch : ℕ

abbrev pub new_visited : VisitedSet
new_visited = record { array = []; n = 0; epoch = 0 }

-- `make([]uint32, n)`, where the array is too short
unfoldable pub grow : ℕ → VisitedSet → VisitedSet
grow n v =
    if ltb (length v.array) n
    then record { array = replicate n 0; n = n; epoch = 0 }
    else record v { n = n }

-- the loop that clears the slice after a wrap-around; the array behind it keeps what is past it
unfoldable pub clear : ℕ → List ℕ → List ℕ
clear n array = replicate n 0 ++ drop n array

unfoldable pub reset : ℕ → VisitedSet → VisitedSet
reset n v =
    let g = grow n v in
    let epoch = (g.epoch + 1) % 2 ^ 32 in
    if epoch == 0
    then record g { array = clear n g.array; epoch = 1 }
    else record g { epoch = epoch }

unfoldable pub mark : ℕ → VisitedSet → VisitedSet
mark i v = record v { array = set v.array i v.epoch }

unfoldable pub seen : ℕ → VisitedSet → Bool
seen i v = elim (get_elem? v.array i) [ none ↦ false | some m ↦ m == v.epoch ]
