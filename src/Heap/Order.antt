-- ===== src/Heap/Order.antt =====
-- The order of a heap: no entry comes before the one above it.
use turbograph.Prelude.{ℕ, ◌<◌, ◌≡◌, ◌≢◌, Bool, true, false, not, List, length}
use turbograph.Heap.{parent}
use turbograph.Heap.Array.{nth, SameItems}

-- What the proofs ask of the tests: `before` is a strict weak order, as `<` is on floats that are
-- no NaN, and an entry stays above another that does not come before it.
pub record IsOrder {ℓ} {A : Type ℓ} (stays before : A → A → Bool) : Type ℓ where
  pub settled : (p c : A) → stays p c ≡ not (before c p)
  pub asym : (x y : A) → before x y ≡ true → before y x ≡ false
  pub negtrans : (x y w : A) → before y x ≡ false → before w y ≡ false → before w x ≡ false

module _ {ℓ} {A : Type ℓ} (before : A → A → Bool) (z : A) where
  -- the entry at `p` may stand above the one at `c`
  abbrev pub IsAbove : List A → ℕ → ℕ → Type 0
  IsAbove a p c = before (nth z a c) (nth z a p) ≡ false

  abbrev pub IsHeap : List A → Type 0
  IsHeap a = (c : ℕ) → 0 < c → c < length a → IsAbove a (parent c) c

  -- the entries past `i`, from the one above it to those below it, are in order
  abbrev pub IsBridged : List A → ℕ → Type 0
  IsBridged a i = (c : ℕ) → 0 < c → c < length a → parent c ≡ i → 0 < i → IsAbove a (parent i) c

  -- only the entry above `i` may be out of order with it
  pub record IsRising (a : List A) (i : ℕ) : Type 0 where
    pub inside : i < length a
    pub edges : (c : ℕ) → 0 < c → c < length a → c ≢ i → IsAbove a (parent c) c
    pub bridged : IsBridged a i

  -- only the entries below `i` may be out of order with it
  pub record IsSinking (a : List A) (i : ℕ) : Type 0 where
    pub edges : (c : ℕ) → 0 < c → c < length a → parent c ≢ i → IsAbove a (parent c) c
    pub bridged : IsBridged a i

  -- a heap of the entries of `a`
  pub record IsSorting (a b : List A) : Type ℓ where
    pub heap : IsHeap b
    pub items : SameItems b a
    pub size : length b ≡ length a
