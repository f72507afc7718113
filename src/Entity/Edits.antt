-- ===== src/Entity/Edits.antt =====
-- The edit distance as an independent notion: the least number of edits between two texts.
use native.Mathlib.Numerals.{add-one}
use native.Mathlib.Nat.{zero-add}
use mathlib.Core.List.{append-nil}
use turbograph.Prelude.{
  ltb, ◌∙◌, if_cases, Bool-cases, inl, inr, ℕ, suc, ◌+◌, ◌≤◌, ◌≡◌, refl, subst, List, [], ◌∷◌, ◌++◌,
  arith, if◌then◌else◌, length, ◌==◌, ==_iff,
}
use turbograph.Entity.Distance.{min3, cost}

-- `n` insertions, deletions and replacements of a byte make the first text into the second
pub data Edits : List ℕ → List ℕ → ℕ → Type 0 where
  done : Edits [] [] 0
  remove : {a b : List ℕ} {n : ℕ} (x : ℕ) → Edits a b n → Edits (x ∷ a) b (suc n)
  add : {a b : List ℕ} {n : ℕ} (y : ℕ) → Edits a b n → Edits a (y ∷ b) (suc n)
  keep : {a b : List ℕ} {n : ℕ} (x : ℕ) → Edits a b n → Edits (x ∷ a) (x ∷ b) n
  replace : {a b : List ℕ} {n : ℕ} (x y : ℕ) → Edits a b n → Edits (x ∷ a) (y ∷ b) (suc n)

-- the recursive edit distance
unfoldable pub edit : List ℕ → List ℕ → ℕ
edit [] ys = length ys
edit (x ∷ xs) [] = suc (length xs)
edit (x ∷ xs) (y ∷ ys) = min3 (edit (x ∷ xs) ys + 1) (edit xs (y ∷ ys) + 1) (edit xs ys + cost x y)

-- the bytes in front of a text, the last first
abbrev pub onto : List ℕ → List ℕ → List ℕ
onto [] s = s
onto (y ∷ ys) s = onto ys (y ∷ s)

pub edit-nil : (a : List ℕ) → edit a [] ≡ length a
unfolding edit
edit-nil [] = refl
edit-nil (x ∷ a) = refl

adds : (b : List ℕ) → Edits [] b (length b)
adds [] = done
adds (y ∷ b) = add y (adds b)

removes : (a : List ℕ) → Edits a [] (length a)
removes [] = done
removes (x ∷ a) = remove x (removes a)

min3_cases {κ} : (P : ℕ → Type κ) (l u d : ℕ) → P l → P u → P d → P (min3 l u d)
unfolding min3
min3_cases P l u d pl pu pd =
    let first : ℕ = if ltb u l then u else l in
    if_cases P (ltb d first) (λ e. pd) (λ e. if_cases P (ltb u l) (λ f. pu) (λ f. pl))

add_zero : (n : ℕ) → n + 0 ≡ n
add_zero n = omega arith

add-suc : (n m : ℕ) → n + suc m ≡ suc n + m
add-suc n m = omega arith

paid : {a b : List ℕ} {n : ℕ} (x y : ℕ) → Edits a b n → Edits (x ∷ a) (y ∷ b) (n + cost x y)
paid {a} {b} {n} x y e = elim (Bool-cases (x == y)) [
  | inl same ↦ rw (same, add_zero n, ← (==_iff x y).0 same) (keep x e)
  | inr differ ↦ rw (differ, add-one) (replace x y e)
]

-- the distance is reached
pub edit-Edits : (a b : List ℕ) → Edits a b (edit a b)
unfolding edit
edit-Edits [] b = adds b
edit-Edits (x ∷ a) [] = removes (x ∷ a)
edit-Edits (x ∷ a) (y ∷ b) =
    min3_cases (Edits (x ∷ a) (y ∷ b)) _ _ _ (rw add-one (add y (edit-Edits (x ∷ a) b)))
      (rw add-one (remove x (edit-Edits a (y ∷ b)))) (paid x y (edit-Edits a b))

edit-remove : (x : ℕ) (a b : List ℕ) → edit (x ∷ a) b ≤ suc (edit a b)
unfolding edit min3
edit-remove x [] [] = omega arith
edit-remove x (z ∷ a) [] = omega arith
edit-remove x [] (y ∷ b) = ground (arith, edit-remove x [] b)
edit-remove x (z ∷ a) (y ∷ b) = ground arith

edit-add : (a : List ℕ) (y : ℕ) (b : List ℕ) → edit a (y ∷ b) ≤ suc (edit a b)
unfolding edit min3
edit-add [] y b = omega arith
edit-add (x ∷ a) y b = ground arith

edit-replace : (x y : ℕ) (a b : List ℕ) → edit (x ∷ a) (y ∷ b) ≤ edit a b + cost x y
unfolding edit min3
edit-replace x y a b = ground arith

-- no way of editing is shorter
pub Edits-le : {a b : List ℕ} {n : ℕ} → Edits a b n → edit a b ≤ n
unfolding edit
Edits-le done = omega arith
Edits-le (remove {a} {b} x e) = omega (arith, Edits-le e, edit-remove x a b)
Edits-le (add {a} {b} y e) = omega (arith, Edits-le e, edit-add a y b)
Edits-le (keep {a} {b} x e) = ground (arith, Edits-le e, edit-replace x x a b)
Edits-le (replace {a} {b} x y e) = ground (arith, Edits-le e, edit-replace x y a b)

-- editing two texts and then editing what stands behind them
onto-Edits :
    {a b : List ℕ} {n : ℕ} {c d : List ℕ} {m : ℕ}
    → Edits a b n
    → Edits c d m
    → Edits (onto a c) (onto b d) (n + m)
onto-Edits done f = rw (zero-add _) f
onto-Edits (remove {n = n} x e) f = subst (Edits _ _) (add-suc n _) (onto-Edits e (remove x f))
onto-Edits (add {n = n} y e) f = subst (Edits _ _) (add-suc n _) (onto-Edits e (add y f))
onto-Edits (keep x e) f = onto-Edits e (keep x f)
onto-Edits (replace {n = n} x y e) f =
    subst (Edits _ _) (add-suc n _) (onto-Edits e (replace x y f))

onto_involutive : (a s t : List ℕ) → onto (onto a s) t ≡ onto s (a ++ t)
onto_involutive [] s t = refl
onto_involutive (x ∷ a) s t = onto_involutive a (x ∷ s) t

onto_twice : (a : List ℕ) → onto (onto a []) [] ≡ a
onto_twice a = onto_involutive a [] [] ∙ append-nil a

pub onto_nil-Edits : {a b : List ℕ} {n : ℕ} → Edits a b n → Edits (onto a []) (onto b []) n
onto_nil-Edits {n = n} e = subst (Edits _ _) (add_zero n) (onto-Edits e done)

-- the reversed texts are edited as the texts are
pub edit-onto-Edits : (a b : List ℕ) → Edits a b (edit (onto a []) (onto b []))
edit-onto-Edits a b =
    let n = edit (onto a []) (onto b []) in
    subst (λ x. Edits x b n) (onto_twice a)
      (subst (λ y. Edits (onto (onto a []) []) y n) (onto_twice b)
        (onto_nil-Edits (edit-Edits (onto a []) (onto b []))))
