-- ===== src/Rag/Chunkers/Windows.antt =====
-- The windows of wordChunker in rag/chunkers.go.
use Prim.Native.String.{String}
use turbograph.Prelude.{
  ℕ, zero, suc, ◌≤◌, ◌<◌, ◌≡◌, refl, List, [], ◌∷◌, ◌++◌, length, take, drop, leb, arith, All,
  if_cases, length-take, length-drop, take-append-drop,
}
use turbograph.Rag.Chunkers.{stride, windows}

-- The text without the overlaps: of each window but the last the words before the next one.
abbrev pub rejoin : ℕ → List (List String) → List String
rejoin step [] = []
rejoin step (w ∷ []) = w
rejoin step (w ∷ x ∷ ws) = take step w ++ rejoin step (x ∷ ws)

-- an overlap below the target, and a stride of a word at least, within the window
abbrev pub IsBounded : ℕ × ℕ → Type 0
IsBounded b = (b.1 < b.0) × (0 < stride b.0 b.1) × (stride b.0 b.1 ≤ b.0)

take-take : (m n : ℕ) (xs : List String) → m ≤ n → take m (take n xs) ≡ take m xs
take-take zero n xs h = refl
take-take (suc m) zero xs h = absurd (omega arith)
take-take (suc m) (suc n) [] h = refl
take-take (suc m) (suc n) (x ∷ xs) h = rw (take-take m n xs (omega arith)) refl

take-all : (n : ℕ) (xs : List String) → length xs ≤ n → take n xs ≡ xs
take-all zero [] h = refl
take-all zero (x ∷ xs) h = absurd (omega arith)
take-all (suc n) [] h = refl
take-all (suc n) (x ∷ xs) h = rw (take-all n xs (omega arith)) refl

rejoin_step :
    (target step : ℕ) (words : List String) (rest : List (List String))
    → step ≤ target
    → rejoin step rest ≡ drop step words
    → 0 < length (drop step words)
    → rejoin step (take target words ∷ rest) ≡ words
rejoin_step target step words [] h joined left = absurd (ground (arith, joined))
rejoin_step target step words (x ∷ rest) h joined left =
    rw (take-take step target words h, joined) (take-append-drop step words)

-- With a stride of a word at least and of a window at most, and a turn for each word, every window
-- of wordChunker has a word and at most as many as the target, and without the overlaps the
-- windows are exactly the words of the document, in order.
pub windows_lem :
    (fuel target step : ℕ) (words : List String)
    → 0 < step
    → step ≤ target
    → length words ≤ fuel
    → (rejoin step (windows fuel target step words) ≡ words)
      × All (λ w. (0 < length w) × (length w ≤ target)) (windows fuel target step words)
unfolding windows
windows_lem zero target step [] hs ht hf = (refl, tt)
windows_lem zero target step (w ∷ ws) hs ht hf = absurd (omega arith)
windows_lem (suc fuel) target step [] hs ht hf = (refl, tt)
windows_lem (suc fuel) target step (w ∷ ws) hs ht hf =
    let rest = windows fuel target step (drop step (w ∷ ws)) in
    let P : List (List String) → Type 0 = λ out.
      (rejoin step (take target (w ∷ ws) ∷ out) ≡ w ∷ ws)
      × All (λ w. (0 < length w) × (length w ≤ target)) (take target (w ∷ ws) ∷ out) in
    let size : (0 < length (take target (w ∷ ws))) × (length (take target (w ∷ ws)) ≤ target) =
      (omega (arith, length-take target (w ∷ ws)), omega (arith, length-take target (w ∷ ws))) in
    if_cases P (leb (length (w ∷ ws)) target)
      (λ last. (take-all target (w ∷ ws) (ground arith), (size, tt)))
      (λ more.
        let (joined, sizes) =
          windows_lem fuel target step (drop step (w ∷ ws)) hs ht
            (omega (arith, length-drop step (w ∷ ws))) in
        let left : 0 < length (drop step (w ∷ ws)) = ground (arith, length-drop step (w ∷ ws)) in
        (rejoin_step target step (w ∷ ws) rest ht joined left, (size, sizes)))
