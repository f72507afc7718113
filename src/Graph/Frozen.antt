-- ===== src/Graph/Frozen.antt =====
-- graph/graph.go: the compressed rows that Build makes.
use mathlib.Core.List.{append-nil, append_assoc}
use turbograph.Prelude.Keys.{nat_key}
use turbograph.Prelude.Assoc.{lookup, contains}
use turbograph.Prelude.{
  All, true, inl, inr, is_some, Option-cases, if◌then◌else◌, ℕ, zero, suc, ◌+◌, ◌-◌, ◌<◌, ◌≡◌, refl,
  sym, ap, ◌∙◌, subst, List, [], ◌∷◌, ◌++◌, map, none, some, length, get_elem?, take, drop, arith,
  length-append,
}
use turbograph.Graph.{
  Weights, Builder, Csr, row, zip_edges, pick, emit_row, emit_rows, build, neighbors, degree, ptr,
}

module _ {V : Type 0} where
  -- the rows one after the other
  abbrev flat : List (List (ℕ × V)) → List (ℕ × V)
  flat [] = []
  flat (r ∷ rs) = r ++ flat rs

  -- where the rows start, the first of them at `p`, and the end of the last
  abbrev offsets : ℕ → List (List (ℕ × V)) → List ℕ
  offsets p [] = p ∷ []
  offsets p (r ∷ rs) = p ∷ offsets (p + length r) rs

  abbrev row_at : List (List (ℕ × V)) → ℕ → List (ℕ × V)
  row_at rs i = elim (get_elem? rs i) [ none ↦ [] | some r ↦ r ]

  drop-append : (pre xs : List (ℕ × V)) → drop (length pre) (pre ++ xs) ≡ xs
  drop-append [] xs = refl
  drop-append (y ∷ pre) xs = drop-append pre xs

  take-append : (r xs : List (ℕ × V)) → take (length r) (r ++ xs) ≡ r
  take-append [] xs = refl
  take-append (y ∷ r) xs = ap (◌∷◌ y) (take-append r xs)

  offsets-head : (p : ℕ) (rs : List (List (ℕ × V))) → ptr (offsets p rs) 0 ≡ p
  offsets-head p [] = refl
  offsets-head p (r ∷ rs) = refl

  -- the part of the rows from the offset of the i-th is that row
  flat-row :
      (rs : List (List (ℕ × V))) (pre : List (ℕ × V)) (i : ℕ)
      → i < length rs
      → take
          (ptr (offsets (length pre) rs) (suc i) - ptr (offsets (length pre) rs) i)
          (drop (ptr (offsets (length pre) rs) i) (pre ++ flat rs))
        ≡ row_at rs i
  flat-row [] pre i inside = absurd (omega arith)
  flat-row (r ∷ rs) pre zero inside =
      ap (λ n. take (n - length pre) (drop (length pre) (pre ++ (r ++ flat rs))))
        (offsets-head (length pre + length r) rs)
      ∙ ap (take (length pre + length r - length pre)) (drop-append pre (r ++ flat rs))
      ∙ ap (λ n. take n (r ++ flat rs)) {x = length pre + length r - length pre} {y = length r}
          (omega arith)
      ∙ take-append r (flat rs)
  flat-row (r ∷ rs) pre (suc i) inside =
      subst
        (λ p.
          take (ptr (offsets p rs) (suc i) - ptr (offsets p rs) i)
            (drop (ptr (offsets p rs) i) (pre ++ (r ++ flat rs)))
          ≡ row_at rs i)
        (length-append pre r)
        (subst
          (λ xs.
            take
              (ptr (offsets (length (pre ++ r)) rs) (suc i)
                - ptr (offsets (length (pre ++ r)) rs) i)
              (drop (ptr (offsets (length (pre ++ r)) rs) i) xs)
            ≡ row_at rs i)
          (append_assoc pre r (flat rs)) (flat-row rs (pre ++ r) i (omega arith)))

  zip_edges-map : (es : List (ℕ × V)) → zip_edges (map (λ e. e.0) es) (map (λ e. e.1) es) ≡ es
  zip_edges-map [] = refl
  zip_edges-map (e ∷ es) = ap (◌∷◌ e) (zip_edges-map es)

-- what holds of each member of a list holds of all
All-contains {ℓ} :
    {P : ℕ → Type ℓ} (js : List ℕ) → ((j : ℕ) → contains js j ≡ true → P j) → All P js
unfolding contains
All-contains [] h = tt
All-contains (j ∷ js) h =
    (h j (ground arith), All-contains js (λ i there. h i (ground (arith, there))))

module _ {V : Type 0} where
  contains-columns :
      (r : List (ℕ × V)) (j : ℕ) → contains (map (λ e. e.0) r) j ≡ is_some (lookup j r)
  unfolding contains lookup
  contains-columns [] j = refl
  contains-columns ((i, w) ∷ r) j = ground (arith, contains-columns r j)

  pick-columns :
      (r : List (ℕ × V)) (js : List ℕ)
      → All (λ j. is_some (lookup j r) ≡ true) js
      → map (λ e. e.0) (pick r js) ≡ js
  pick-columns r [] h = refl
  pick-columns r (j ∷ js) h = elim (Option-cases (lookup j r)) [
    | inl missing ↦ absurd (ground (arith, missing, h.0))
    | inr (w, found) ↦ rw (found, map) (ap (◌∷◌ j) (pick-columns r js h.1))
  ]

  lookup-pick :
      (r : List (ℕ × V)) (js : List ℕ) (j : ℕ)
      → lookup j (pick r js) ≡ (if contains js j then lookup j r else none)
  unfolding contains lookup
  lookup-pick r [] j = refl
  lookup-pick r (i ∷ js) j = elim (Option-cases (lookup i r)) [
    | inl missing ↦ ground (arith, missing, lookup-pick r js j)
    | inr (w, found) ↦ ground (arith, found, lookup-pick r js j)
  ]

map-append {ℓ κ} :
    {A : Type ℓ} {B : Type κ} (f : A → B) (xs ys : List A) → map f (xs ++ ys) ≡ map f xs ++ map f ys
map-append f [] ys = refl
map-append f (x ∷ xs) ys = ap (◌∷◌ (f x)) (map-append f xs ys)

length-map {ℓ κ} :
    {A : Type ℓ} {B : Type κ} (f : A → B) (xs : List A) → length (map f xs) ≡ length xs
length-map f [] = refl
length-map f (x ∷ xs) = ap suc (length-map f xs)

module _ (ω : Weights) (sort : List ℕ → List ℕ) where
  abbrev emitted : List (List (ℕ × ω.Weight)) → List (List (ℕ × ω.Weight))
  emitted rs = map (emit_row sort) rs

  emit_rows-row_ptr :
      (rs : List (List (ℕ × ω.Weight))) (g : Csr ω)
      → (emit_rows sort rs g).row_ptr ≡ g.row_ptr ++ offsets (length g.cols) (emitted rs)
  unfolding emit_rows
  emit_rows-row_ptr [] g = refl
  emit_rows-row_ptr (r ∷ rs) g =
      let e = emit_row sort r in
      emit_rows-row_ptr rs _
      ∙ append_assoc g.row_ptr (length g.cols ∷ []) _
      ∙ ap (λ n. g.row_ptr ++ length g.cols ∷ offsets n (emitted rs))
          (length-append g.cols (map (λ x. x.0) e)
            ∙ ap (λ n. length g.cols + n) (length-map (λ x. x.0) e))

  emit_rows-cols :
      (rs : List (List (ℕ × ω.Weight))) (g : Csr ω)
      → (emit_rows sort rs g).cols ≡ g.cols ++ map (λ x. x.0) (flat (emitted rs))
  unfolding emit_rows
  emit_rows-cols [] g = sym (append-nil g.cols)
  emit_rows-cols (r ∷ rs) g =
      let e = emit_row sort r in
      emit_rows-cols rs _
      ∙ append_assoc g.cols (map (λ x. x.0) e) (map (λ x. x.0) (flat (emitted rs)))
      ∙ ap (λ xs. g.cols ++ xs) (sym (map-append (λ x. x.0) e (flat (emitted rs))))

  emit_rows-wts :
      (rs : List (List (ℕ × ω.Weight))) (g : Csr ω)
      → (emit_rows sort rs g).wts ≡ g.wts ++ map (λ x. x.1) (flat (emitted rs))
  unfolding emit_rows
  emit_rows-wts [] g = sym (append-nil g.wts)
  emit_rows-wts (r ∷ rs) g =
      let e = emit_row sort r in
      emit_rows-wts rs _
      ∙ append_assoc g.wts (map (λ x. x.1) e) (map (λ x. x.1) (flat (emitted rs)))
      ∙ ap (λ xs. g.wts ++ xs) (sym (map-append (λ x. x.1) e (flat (emitted rs))))

  neighbors-emit_row :
      (b : Builder ω) (i : ℕ)
      → i < length b.adj
      → neighbors (build sort b) i ≡ emit_row sort (row b i)
  unfolding build neighbors degree
  neighbors-emit_row b i inside =
      let g : Csr ω = record { n = b.n; row_ptr = []; cols = []; wts = [] } in
      let rs = emitted b.adj in
      let edges : zip_edges (emit_rows sort b.adj g).cols (emit_rows sort b.adj g).wts ≡ flat rs =
        ap (λ cs. zip_edges cs (emit_rows sort b.adj g).wts) (emit_rows-cols b.adj g)
        ∙ ap (zip_edges (map (λ x. x.0) (flat rs))) (emit_rows-wts b.adj g)
        ∙ zip_edges-map (flat rs) in
      ap
        (λ ps.
          take (ptr ps (suc i) - ptr ps i) (
            drop (ptr ps i) (zip_edges (emit_rows sort b.adj g).cols (emit_rows sort b.adj g).wts)))
        (emit_rows-row_ptr b.adj g)
      ∙ ap
          (λ es.
            take (ptr (offsets 0 rs) (suc i) - ptr (offsets 0 rs) i)
              (drop (ptr (offsets 0 rs) i) es))
          edges
      ∙ flat-row rs [] i (omega (arith, length-map (emit_row {V = ω.Weight} sort) b.adj))
      ∙ row_at-emitted b.adj i inside
    where
      row_at-emitted :
          (rs : List (List (ℕ × ω.Weight))) (i : ℕ)
          → i < length rs
          → row_at (emitted rs) i ≡ emit_row sort (row_at rs i)
      row_at-emitted [] i inside = absurd (omega arith)
      row_at-emitted (r ∷ rs) zero inside = refl
      row_at-emitted (r ∷ rs) (suc i) inside = row_at-emitted rs i (omega arith)

  -- sort.Ints: the sorted columns are the columns
  abbrev pub KeepsColumns : Type 0
  KeepsColumns = (js : List ℕ) (j : ℕ) → contains (sort js) j ≡ contains js j

  -- In the compressed rows that Build makes, the neighbors of a node of the builder are the
  -- columns of its row in the order of the sort, each with the weight that the builder has for it.
  -- The sort is assumed to keep the columns.
  pub neighbors-build :
      KeepsColumns
      → (b : Builder ω) (i : ℕ) → i < length b.adj
      → (map (λ e. e.0) (neighbors (build sort b) i) ≡ sort (map (λ e. e.0) (row b i)))
        × ((j : ℕ) → lookup j (neighbors (build sort b) i) ≡ lookup j (row b i))
  neighbors-build keeps b i inside =
      let r = row b i in
      let js = sort (map (λ e. e.0) r) in
      let known : (j : ℕ) → contains js j ≡ is_some (lookup j r) =
        λ j. keeps (map (λ e. e.0) r) j ∙ contains-columns r j in
      rw (neighbors-emit_row b i inside) (
        pick-columns r js (All-contains js (λ j here. sym (known j) ∙ here)),
        λ j. ground (arith, lookup-pick r js j, known j),
      )
