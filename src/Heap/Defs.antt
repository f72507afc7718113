-- ===== src/Heap/Defs.antt =====
-- The loops of the heaps, over the tests `stays p c` (the entry above may stay above the one below)
-- and `before c p` (the entry below goes up). An index out of range does not occur; where Go would
-- stop the program the tests are false, and an exchange does nothing.
use turbograph.Prelude.{
  ℕ, zero, suc, ◌+◌, ◌-◌, ◌*◌, ◌/◌, Bool, false, not, ◌&&◌, List, [], ◌∷◌, ◌++◌, Option, none, some,
  if◌then◌else◌, length, take, get_elem?, set, ltb, ◌==◌,
}

abbrev pub parent : ℕ → ℕ
parent c = (c - 1) / 2

module _ {ℓ} {A : Type ℓ} where
  -- a test on `a[i]` and `a[j]`
  unfoldable pub test : (A → A → Bool) → List A → ℕ → ℕ → Bool
  test f a i j = elim (get_elem? a i) [
    | none ↦ false
    | some x ↦ elim (get_elem? a j) [ none ↦ false | some y ↦ f x y ]
  ]

  -- `a[i], a[j] = a[j], a[i]`
  unfoldable pub swap : List A → ℕ → ℕ → List A
  swap a i j = elim (get_elem? a i) [
    | none ↦ a
    | some x ↦ elim (get_elem? a j) [ none ↦ a | some y ↦ set (set a i y) j x ]
  ]

  module _ (stays : A → A → Bool) where
    -- the loop that lets the entry at `i` rise
    unfoldable pub up : ℕ → List A → ℕ → List A
    up zero a i = a
    up (suc k) a i =
        let rest = up k (swap a (parent i) i) (parent i) in
        if i == 0 then a else if test stays a (parent i) i then a else rest

    unfoldable pub push : A → List A → List A
    push x a = up (suc (length a)) (a ++ x ∷ []) (length a)

  module _ (before : A → A → Bool) where
    -- the entry among `i` and its children below `n` that comes first
    unfoldable pub choose : ℕ → List A → ℕ → ℕ
    choose n a i =
        let l = 2 * i + 1 in
        let r = 2 * i + 2 in
        let s = if ltb l n && test before a l i then l else i in
        if ltb r n && test before a r s then r else s

    -- the loop that lets the entry at `i` sink
    unfoldable pub down : ℕ → List A → ℕ → List A
    down zero a i = a
    down (suc k) a i =
        let c = choose (length a) a i in
        let rest = down k (swap a i c) c in if c == i then a else rest

    -- the root is replaced and sinks
    unfoldable pub replace_root : A → List A → List A
    replace_root x a = down (suc (length a)) (set a 0 x) 0

    -- the last entry takes the place of the root; `none` for an empty heap
    unfoldable pub pop : List A → Option (A × List A)
    pop [] = none
    pop (top ∷ xs) =
        let n = length xs in
        let a : List A = elim (get_elem? (top ∷ xs) n) [
          | none ↦ []
          | some last ↦ take n (set (top ∷ xs) 0 last)
        ] in
        some (top, down (suc n) a 0)

  -- push of a heap that keeps at most `cap` entries, the root being the first to go: `worse` of
  -- index/topheap.go and lexical/bm25.go
  unfoldable pub push_bounded : (A → A → Bool) → ℕ → A → List A → List A
  push_bounded worse cap x a =
      let stays : A → A → Bool = λ p c. not (worse c p) in
      let more = push stays x a in
      let better = replace_root worse x a in
      if ltb (length a) cap
      then more
      else elim (get_elem? a 0) [ none ↦ a | some root ↦ if worse root x then better else a ]

  -- the scan of a list of hits
  unfoldable pub push_all : (A → A → Bool) → ℕ → List A → List A → List A
  push_all worse cap [] a = a
  push_all worse cap (x ∷ xs) a = push_all worse cap xs (push_bounded worse cap x a)
