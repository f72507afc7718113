-- ===== src/Entity/Distance.antt =====
-- levenshtein of entity/canonical.go: the edit distance of two texts of bytes, by two rows.
-- A read or a write out of range, which panics, is `none`.
use turbograph.Prelude.{
  ℕ, zero, suc, ◌+◌, ◌-◌, List, [], ◌∷◌, Option, none, some, if◌then◌else◌, ◌>>=◌, length,
  get_elem?, set, replicate, ltb, ◌==◌,
}

unfoldable pub min3 : ℕ → ℕ → ℕ → ℕ
min3 a b c = let first = if ltb b a then b else a in if ltb c first then c else first

unfoldable pub store_cell : List ℕ → ℕ → ℕ → Option (List ℕ)
store_cell row j v = if ltb j (length row) then some (set row j v) else none

abbrev pub cost : ℕ → ℕ → ℕ
cost x y = if x == y then 0 else 1

-- the loop that numbers the cells of the first row
unfoldable pub number_cells : ℕ → ℕ → List ℕ → Option (List ℕ)
number_cells zero j row = some row
number_cells (suc rounds) j row = store_cell row j j >>= number_cells rounds (suc j)

-- the inner loop, over the bytes of `b` from the one before cell `j` on
unfoldable pub fill_cells : ℕ → List ℕ → List ℕ → ℕ → List ℕ → Option (List ℕ)
fill_cells x prev [] j curr = some curr
fill_cells x prev (y ∷ ys) j curr = do
  left ← get_elem? curr (j - 1)
  above ← get_elem? prev j
  diagonal ← get_elem? prev (j - 1)
  curr' ← store_cell curr j (min3 (left + 1) (above + 1) (diagonal + cost x y))
  fill_cells x prev ys (suc j) curr'

-- the outer loop, over the bytes of `a` from the one before row `i` on; the rows swap
unfoldable pub fill_rows : List ℕ → List ℕ → ℕ → List ℕ → List ℕ → Option (List ℕ)
fill_rows b [] i prev curr = some prev
fill_rows b (x ∷ xs) i prev curr = do
  started ← store_cell curr 0 i
  filled ← fill_cells x prev b 1 started
  fill_rows b xs (suc i) filled prev

unfoldable pub levenshtein : List ℕ → List ℕ → Option ℕ
levenshtein a [] = some (length a)
levenshtein [] (y ∷ ys) = some (length (y ∷ ys))
levenshtein (x ∷ xs) (y ∷ ys) = do
  let width = length (y ∷ ys) + 1
  first ← number_cells width 0 (replicate width 0)
  last ← fill_rows (y ∷ ys) (x ∷ xs) 1 first (replicate width 0)
  get_elem? last (length (y ∷ ys))
