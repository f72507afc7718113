-- ===== src/Entity/Rows.antt =====
-- The two rows of levenshtein hold the recursive edit distances of the reversed texts.
use native.Mathlib.Numerals.{sub-one}
use turbograph.Prelude.{
  ℕ, zero, suc, ◌+◌, ◌≤◌, ◌<◌, ◌≡◌, refl, ◌∙◌, ap, sym, subst, List, [], ◌∷◌, some, arith, length,
  get_elem?, set, length-set, get_elem?-set, replicate, length-replicate,
}
use turbograph.Entity.Distance.{
  store_cell, number_cells, fill_cells, fill_rows, levenshtein, min3, cost,
}
use turbograph.Entity.Edits.{Edits, edit, edit-nil, onto, Edits-le, onto_nil-Edits, edit-onto-Edits}

-- A row holds the distances from the text `A` to `B` and to what is left of `B` at its end.
abbrev IsRow : List ℕ → List ℕ → List ℕ → Type 0
IsRow A [] row = get_elem? row 0 ≡ some (edit A [])
IsRow A (y ∷ B) row = (get_elem? row (suc (length B)) ≡ some (edit A (y ∷ B))) × IsRow A B row

IsRow-get_elem? : (A B row : List ℕ) → IsRow A B row → get_elem? row (length B) ≡ some (edit A B)
IsRow-get_elem? A [] row h = h
IsRow-get_elem? A (y ∷ B) row h = h.0

-- what a row holds of a longer text it holds of the shorter one
onto-IsRow : (A ys s row : List ℕ) → IsRow A (onto ys s) row → IsRow A s row
onto-IsRow A [] s row h = h
onto-IsRow A (y ∷ ys) s row h = (onto-IsRow A ys (y ∷ s) row h).1

length-onto : (ys s : List ℕ) → length (onto ys s) ≡ length ys + length s
length-onto [] s = omega arith
length-onto (y ∷ ys) s = omega (arith, length-onto ys (y ∷ s))

store_cell_lem : (row : List ℕ) (j v : ℕ) → j < length row → store_cell row j v ≡ some (set row j v)
unfolding store_cell
store_cell_lem row j v h = ground arith

-- a write behind the cells of a row leaves them alone
set-IsRow :
    (A B row : List ℕ) (j v : ℕ)
    → length B < j
    → j < length row
    → IsRow A B row
    → IsRow A B (set row j v)
set-IsRow A [] row j v h i r = ground (arith, get_elem?-set row j 0 v)
set-IsRow A (y ∷ B) row j v h i r = (
  ground (arith, get_elem?-set row j (suc (length B)) v),
  set-IsRow A B row j v (omega arith) i r.1,
)

-- the next cell
set_head-IsRow :
    (x : ℕ) (A : List ℕ) (y : ℕ) (seen curr : List ℕ)
    → suc (length seen) < length curr
    → IsRow (x ∷ A) seen curr
    → IsRow (x ∷ A) (y ∷ seen) (set curr (suc (length seen)) (edit (x ∷ A) (y ∷ seen)))
set_head-IsRow x A y seen curr h c =
    let k = suc (length seen) in
    let v : ℕ = edit (x ∷ A) (y ∷ seen) in
    (ground (arith, get_elem?-set curr k k v), set-IsRow (x ∷ A) seen curr k v (omega arith) h c)

record IsFilled (A B curr : List ℕ) (row : List ℕ) : Type 0 where
  cells : IsRow A B row
  size : length row ≡ length curr

fill_cells_step :
    (x y : ℕ) (ys prev curr : List ℕ) (k : ℕ) {l u d : ℕ}
    → get_elem? curr k ≡ some l
    → get_elem? prev (suc k) ≡ some u
    → get_elem? prev k ≡ some d
    → suc k < length curr
    → fill_cells x prev (y ∷ ys) (suc k) curr
      ≡ fill_cells x prev ys (suc (suc k)) (set curr (suc k) (min3 (l + 1) (u + 1) (d + cost x y)))
unfolding fill_cells
fill_cells_step x y ys prev curr k {l} {u} {d} hl hu hd h =
    simp (sub-one, hl, hu, hd, store_cell_lem curr (suc k) (min3 (l + 1) (u + 1) (d + cost x y)) h)

-- the inner loop fills the row
fill_cells-IsFilled :
    (x : ℕ) (A ys seen prev curr : List ℕ)
    → IsRow A (onto ys seen) prev
    → IsRow (x ∷ A) seen curr
    → length ys + length seen < length curr
    → (row : List ℕ) × (fill_cells x prev ys (suc (length seen)) curr ≡ some row)
      × IsFilled (x ∷ A) (onto ys seen) curr row
unfolding fill_cells edit
fill_cells-IsFilled x A [] seen prev curr p c size = (curr, refl, record { cells = c; size = refl })
fill_cells-IsFilled x A (y ∷ ys) seen prev curr p c size =
    let k : ℕ = length seen in
    let above = onto-IsRow A ys (y ∷ seen) prev p in
    let v : ℕ = edit (x ∷ A) (y ∷ seen) in
    let step =
      fill_cells_step x y ys prev curr k (IsRow-get_elem? (x ∷ A) seen curr c) above.0
        (IsRow-get_elem? A seen prev above.1) (omega arith) in
    let (row, run, f) =
      fill_cells-IsFilled x A ys (y ∷ seen) prev (set curr (suc k) v) p
        (set_head-IsRow x A y seen curr (omega arith) c)
        (omega (arith, length-set curr (suc k) v)) in
    (row, step ∙ run, record { cells = f.cells; size = f.size ∙ length-set curr (suc k) v })

started-IsRow :
    (x : ℕ) (A curr : List ℕ) → 0 < length curr → IsRow (x ∷ A) [] (set curr 0 (suc (length A)))
unfolding edit
started-IsRow x A curr h = ground (arith, get_elem?-set curr 0 0 (suc (length A)))

-- the outer loop
fill_rows-IsRow :
    (b xs A prev curr : List ℕ)
    → IsRow A (onto b []) prev
    → length prev ≡ suc (length b)
    → length curr ≡ suc (length b)
    → (row : List ℕ) × (fill_rows b xs (suc (length A)) prev curr ≡ some row)
      × IsRow (onto xs A) (onto b []) row
unfolding fill_rows
fill_rows-IsRow b [] A prev curr p hp hc = (prev, refl, p)
fill_rows-IsRow b (x ∷ xs) A prev curr p hp hc =
    let i = suc (length A) in
    let started = length-set curr 0 i in
    let (filled, run, f) =
      fill_cells-IsFilled x A b [] prev (set curr 0 i) p (started-IsRow x A curr (omega arith))
        (omega (arith, started)) in
    let (row, rest, h) =
      fill_rows-IsRow b xs (x ∷ A) filled prev f.cells (f.size ∙ started ∙ hc) hp in
    (row, rw (store_cell_lem curr 0 i (omega arith)) (rw run rest), h)

-- the loop over the first row
number_cells_lem :
    (n j : ℕ) (row : List ℕ)
    → j + n ≤ length row
    → ((k : ℕ) → k < j → get_elem? row k ≡ some k)
    → (r : List ℕ) × (number_cells n j row ≡ some r)
      × (length r ≡ length row)
      × ((k : ℕ) → k < j + n → get_elem? r k ≡ some k)
unfolding number_cells
number_cells_lem zero j row h c = (row, refl, refl, λ k q. c k (omega arith))
number_cells_lem (suc n) j row h c =
    let (r, run, size, cells) =
      number_cells_lem n (suc j) (set row j j) (omega (arith, length-set row j j))
        (λ k q. ground (arith, get_elem?-set row j k j, c k)) in
    (
      r,
      rw (store_cell_lem row j j (omega arith)) run,
      size ∙ length-set row j j,
      λ k q. cells k (omega arith),
    )

first-IsRow :
    (B row : List ℕ) → ((k : ℕ) → k < suc (length B) → get_elem? row k ≡ some k) → IsRow [] B row
unfolding edit
first-IsRow [] row h = h 0 (omega arith)
first-IsRow (y ∷ B) row h =
    (h (suc (length B)) (omega arith), first-IsRow B row (λ k q. h k (omega arith)))

-- the cell that is read at the end
last_cell :
    (A b row : List ℕ)
    → IsRow A (onto b []) row
    → get_elem? row (length b) ≡ some (edit A (onto b []))
last_cell A b row r =
    let size : length (onto b []) ≡ length b = omega (arith, length-onto b []) in
    subst (λ k. get_elem? row k ≡ some (edit A (onto b []))) size
      (IsRow-get_elem? A (onto b []) row r)

levenshtein_rows : (a b : List ℕ) → levenshtein a b ≡ some (edit (onto a []) (onto b []))
unfolding levenshtein edit
levenshtein_rows a [] = ap some (omega (arith, length-onto a []) ∙ sym (edit-nil (onto a [])))
levenshtein_rows [] (y ∷ ys) = ap some (omega (arith, length-onto (y ∷ ys) []))
levenshtein_rows (x ∷ xs) (y ∷ ys) =
    let b : List ℕ = y ∷ ys in
    let zeros : List ℕ = replicate (length b + 1) 0 in
    let size = length-replicate {A = ℕ} (length b + 1) 0 in
    let (first, started, width, cells) =
      number_cells_lem (length b + 1) 0 zeros (omega (arith, size)) (λ k q. absurd (omega arith)) in
    let wide : length (onto b []) ≡ length b = omega (arith, length-onto b []) in
    let (row, run, r) =
      fill_rows-IsRow b (x ∷ xs) [] first zeros
        (first-IsRow (onto b []) first (λ k q. cells k (omega (arith, wide))))
        (omega (arith, width, size)) (omega (arith, size)) in
    rw started (rw run (last_cell (onto (x ∷ xs) []) b row r))

-- levenshtein stays within its rows, and its result is the least number of edits: so many make the
-- first text into the second, and no fewer do.
pub levenshtein-IsLeast :
    (a b : List ℕ)
    → (d : ℕ) × (levenshtein a b ≡ some d) × Edits a b d × ((n : ℕ) → Edits a b n → d ≤ n)
levenshtein-IsLeast a b = (
  edit (onto a []) (onto b []),
  levenshtein_rows a b,
  edit-onto-Edits a b,
  λ n e. Edits-le (onto_nil-Edits e),
)
