-- ===== src/Prelude/Assoc.antt =====
-- Go maps, as association lists. Laws are stated by `lookup`, so that no theorem depends on the
-- order of the entries.
use turbograph.Prelude.Keys.{Eq}
use mathlib.Core.Path.{◌≡◌, refl}
use mathlib.Core.Bool.{Bool, false, ◌||◌}
use mathlib.Core.Option.{Option, none, some}
use mathlib.Core.List.{List, [], ◌∷◌, ◌++◌}
use native.Mathlib.Omega.{arith}
use mathlib.Core.Option
use mathlib.Core.Path.{ap}
use mathlib.Core.Logic.{inl, inr}
use turbograph.Prelude.Tests.{Bool-cases, if◌then◌else◌, is_some}

module _ {ℓ κ} {K : Type ℓ} {V : Type κ} ⦃e : Eq K⦄ where
  -- `m[k]`, with `none` for a missing key
  unfoldable pub lookup : K → List (K × V) → Option V
  lookup k [] = none
  lookup k ((j, v) ∷ m) = if e.beq j k then some v else lookup k m

  -- `m[k] = v`
  unfoldable pub insert : K → V → List (K × V) → List (K × V)
  insert k v [] = (k, v) ∷ []
  insert k v ((j, w) ∷ m) = if e.beq j k then (k, v) ∷ m else (j, w) ∷ insert k v m

  -- `delete(m, k)`
  unfoldable pub delete : K → List (K × V) → List (K × V)
  delete k [] = []
  delete k ((j, w) ∷ m) = let rest = delete k m in if e.beq j k then rest else (j, w) ∷ rest

  -- `_, ok := m[k]`
  abbrev pub has : K → List (K × V) → Bool
  has k m = is_some (lookup k m)

  pub lookup-insert :
      (k j : K) (v : V) (m : List (K × V))
      → lookup j (insert k v m) ≡ (if e.beq k j then some v else lookup j m)
  unfolding lookup insert
  lookup-insert k j v [] = refl
  lookup-insert k j v ((i, w) ∷ m) =
      ground (arith, e.beq_iff k j, e.beq_iff i k, e.beq_iff i j, lookup-insert k j v m)

  pub lookup-delete :
      (k j : K) (m : List (K × V))
      → lookup j (delete k m) ≡ (if e.beq k j then none else lookup j m)
  unfolding lookup delete
  lookup-delete k j [] = ground arith
  lookup-delete k j ((i, w) ∷ m) =
      ground (arith, e.beq_iff k j, e.beq_iff i k, e.beq_iff i j, lookup-delete k j m)

abbrev pub holds {κ} : {V : Type κ} → (V → Bool) → Option V → Bool
holds p none = false
holds p (some v) = p v

module _ {ℓ} {K : Type ℓ} ⦃e : Eq K⦄ where
  -- membership in a Go set, or in the list of keys that a loop has collected
  unfoldable pub contains : List K → K → Bool
  contains [] k = false
  contains (x ∷ xs) k = e.beq x k || contains xs k

  pub contains-snoc :
      (xs : List K) (n k : K) → contains (xs ++ n ∷ []) k ≡ (contains xs k || e.beq n k)
  unfolding contains
  contains-snoc [] n k = ground arith
  contains-snoc (x ∷ xs) n k = ground (arith, contains-snoc xs n k)

module _ {ℓ κ} {K : Type ℓ} {V : Type κ} ⦃e : Eq K⦄ where
  -- No key stands twice: what a Go map guarantees.
  abbrev pub IsMap : List (K × V) → Type (ℓ ⊔ κ)
  IsMap [] = Unit
  IsMap ((k, v) ∷ m) = (lookup k m ≡ none) × IsMap m

  pub insert-IsMap : (k : K) (v : V) (m : List (K × V)) → IsMap m → IsMap (insert k v m)
  unfolding insert lookup
  insert-IsMap k v [] h = (refl, tt)
  insert-IsMap k v ((j, w) ∷ m) h = elim (Bool-cases (e.beq j k)) [
    | inl same ↦ rw same (rw ((e.beq_iff j k).0 same) at h.0, h.1)
    | inr other ↦ rw other (
      rw (lookup-insert k j v m) (ground (arith, e.beq_iff k j, e.beq_iff j k, h.0)),
      insert-IsMap k v m h.1,
    )
  ]

  -- `for k in ks { delete(m, k) }`
  unfoldable pub delete_all : List K → List (K × V) → List (K × V)
  delete_all [] m = m
  delete_all (k ∷ ks) m = delete_all ks (delete k m)

  -- the keys of the entries that pass a test, as a `for range` collects them
  unfoldable pub keys_where : (K → V → Bool) → List (K × V) → List K
  keys_where p [] = []
  keys_where p ((k, v) ∷ m) = let rest = keys_where p m in if p k v then k ∷ rest else rest

  pub lookup-delete_all :
      (ks : List K) (j : K) (m : List (K × V))
      → lookup j (delete_all ks m) ≡ (if contains ks j then none else lookup j m)
  unfolding delete_all contains
  lookup-delete_all [] j m = refl
  lookup-delete_all (k ∷ ks) j m =
      ground (arith, lookup-delete_all ks j (delete k m), lookup-delete k j m)

  pub contains-keys_where :
      (p : K → V → Bool) (j : K) (m : List (K × V))
      → IsMap m
      → contains (keys_where p m) j ≡ holds (p j) (lookup j m)
  unfolding contains keys_where lookup
  contains-keys_where p j [] h = refl
  contains-keys_where p j ((k, v) ∷ m) h = ground (arith, e.beq_iff k j, contains-keys_where p j m)

  -- a loop that changes every value
  unfoldable pub map_values {μ} : {W : Type μ} → (K → V → W) → List (K × V) → List (K × W)
  map_values f [] = []
  map_values f ((k, v) ∷ m) = (k, f k v) ∷ map_values f m

  -- a loop that deletes the entries whose key passes a test
  unfoldable pub delete_where : (K → Bool) → List (K × V) → List (K × V)
  delete_where p [] = []
  delete_where p ((k, v) ∷ m) = let rest = delete_where p m in if p k then rest else (k, v) ∷ rest

  pub lookup-map_values {μ} :
      {W : Type μ} (f : K → V → W) (j : K) (m : List (K × V))
      → lookup j (map_values f m) ≡ Option.map (f j) (lookup j m)
  unfolding lookup map_values
  lookup-map_values f j [] = refl
  lookup-map_values f j ((k, v) ∷ m) = elim (Bool-cases (e.beq k j)) [
    | inl same ↦ rw same (ap (λ i. some (f i v)) ((e.beq_iff k j).0 same))
    | inr other ↦ rw other (lookup-map_values f j m)
  ]

  pub lookup-delete_where :
      (p : K → Bool) (j : K) (m : List (K × V))
      → lookup j (delete_where p m) ≡ (if p j then none else lookup j m)
  unfolding lookup delete_where
  lookup-delete_where p j [] = ground arith
  lookup-delete_where p j ((k, v) ∷ m) = elim (Bool-cases (e.beq k j)) [
    | inl same ↦
        rw ((e.beq_iff k j).0 same) (ground (arith, e.beq_iff j j, lookup-delete_where p j m))
    | inr other ↦ ground (arith, lookup-delete_where p j m)
  ]

module _ {ℓ κ μ} {K : Type ℓ} {V : Type κ} {W : Type μ} ⦃e : Eq K⦄ where
  pub map_values-IsMap : (f : K → V → W) (m : List (K × V)) → IsMap m → IsMap (map_values f m)
  unfolding map_values
  map_values-IsMap f [] h = tt
  map_values-IsMap f ((k, v) ∷ m) h = (rw (lookup-map_values f k m, h.0), map_values-IsMap f m h.1)
