-- ===== src/Lexical/Postings.antt =====
-- The postings of lexical/bm25.go.
use Prim.Native.String.{String}
use text.Mathlib.TextEquality.{eq_iff}
use text.Mathlib.Text.{◌==◌ as str_eq}
use turbograph.Prelude.{
  subst, ℕ, suc, ◌+◌, ◌%◌, ◌≤◌, ◌<◌, ◌≡◌, refl, sym, ◌∙◌, inl, inr, true, false, List, [], ◌∷◌,
  ◌++◌, none, some, if◌then◌else◌, length, arith, Bool-cases, Option-cases, length-append,
}
use turbograph.Prelude.Assoc.{lookup, insert, contains, IsMap, lookup-insert, insert-IsMap}
use turbograph.Prelude.Keys.{string_key}
use turbograph.Lexical.{
  Unicode, Text, Index, Posting, word, tokenize, tally, count_up, count_of, postings_of, post, add,
}

-- how often a term stands in a list
abbrev pub occurrences : String → List String → ℕ
occurrences t [] = 0
occurrences t (x ∷ xs) = let rest = occurrences t xs in if str_eq x t then suc rest else rest

occurrences-none : (t : String) (xs : List String) → contains xs t ≡ false → occurrences t xs ≡ 0
unfolding contains
occurrences-none t [] h = refl
occurrences-none t (x ∷ xs) h = ground (arith, occurrences-none t xs)

lookup-tally :
    (t : String) (xs : List String) (m : List (String × ℕ))
    → lookup t (tally xs m)
      ≡ (if contains xs t then some ((count_of t m + occurrences t xs) % word) else lookup t m)
unfolding tally count_up contains
lookup-tally t [] m = refl
lookup-tally t (x ∷ xs) m = ground (
  arith,
  lookup-tally t xs (count_up x m),
  lookup-insert x t ((count_of x m + 1) % word) m,
  eq_iff x t,
  occurrences-none t xs,
)

tally-IsMap : (xs : List String) (m : List (String × ℕ)) → IsMap m → IsMap (tally xs m)
unfolding tally count_up
tally-IsMap [] m h = h
tally-IsMap (x ∷ xs) m h = tally-IsMap xs (count_up x m) (insert-IsMap x _ m h)

lookup-post :
    (ord : ℕ) (t : String) (tf : List (String × ℕ)) (ps : List (String × List Posting))
    → IsMap tf
    → lookup t (post ord tf ps) ≡ elim (lookup t tf) [
      | none ↦ lookup t ps
      | some n ↦ some (postings_of t ps ++ record { ord = ord; tf = n } ∷ [])
    ]
unfolding post lookup
lookup-post ord t [] ps h = refl
lookup-post ord t ((s, n) ∷ tf) ps h =
    let p : List Posting = postings_of s ps ++ record { ord = ord; tf = n } ∷ [] in
    ground
      (arith, lookup-post ord t tf (insert s p ps) h.1, lookup-insert s t p ps, eq_iff s t, h.0)

-- Add gives each term of the text one posting, behind those that the term has: the ordinal of the
-- document and how often the term stands in the text, both of 32 bits. Every other term keeps its
-- postings.
pub add-postings :
    (u : Unicode) (ix : Index) (id : String) (text : Text) (t : String)
    → lookup t (add u ix id text).postings ≡ (
        if contains (tokenize u text) t
        then some (
            postings_of t ix.postings
            ++ record { ord = length ix.ids % word; tf = occurrences t (tokenize u text) % word }
              ∷ [])
        else lookup t ix.postings)
unfolding add lookup
add-postings u ix id text t =
    rw
      (lookup-post (length ix.ids % word) t (tally (tokenize u text) []) ix.postings
        (tally-IsMap (tokenize u text) [] tt))
      (rw (lookup-tally t (tokenize u text) []) (ground arith))

-- Postings in strict order of their ordinals, from `low` on and below `high`.
abbrev pub IsAscending : ℕ → List Posting → ℕ → Type 0
IsAscending low [] high = low ≤ high
IsAscending low (p ∷ ps) high = (low ≤ p.ord) × IsAscending (suc p.ord) ps high

-- Every document has a length, and the postings of each term are in order and name documents of the
-- index.
pub record IsIndex (ix : Index) : Type 0 where
  pub lengths : length ix.doc_len ≡ length ix.ids
  pub order :
      (t : String) (l : List Posting)
      → lookup t ix.postings ≡ some l
      → IsAscending 0 l (length ix.ids)

IsAscending-suc :
    (low high : ℕ) (ps : List Posting) → IsAscending low ps high → IsAscending low ps (suc high)
IsAscending-suc low high [] h = omega arith
IsAscending-suc low high (p ∷ ps) h = (h.0, IsAscending-suc (suc p.ord) high ps h.1)

IsAscending-append :
    (low high tf : ℕ) (ps : List Posting)
    → IsAscending low ps high
    → IsAscending low (ps ++ record { ord = high; tf = tf } ∷ []) (suc high)
IsAscending-append low high tf [] h = (h, omega arith)
IsAscending-append low high tf (p ∷ ps) h = (h.0, IsAscending-append (suc p.ord) high tf ps h.1)

suc-length {ℓ} : {A : Type ℓ} (xs : List A) (a : A) → suc (length xs) ≡ length (xs ++ a ∷ [])
suc-length xs a = omega (arith, length-append xs (a ∷ []))

old_order :
    (ix : Index)
    → IsIndex ix
    → (t : String) → IsAscending 0 (postings_of t ix.postings) (length ix.ids)
old_order ix v t = elim (Option-cases (lookup t ix.postings)) [
  | inl missing ↦ rw (missing, IsAscending) (omega arith)
  | inr (l, found) ↦ rw (found, IsAscending) (v.order t l found)
]

-- the postings of a term of the text, where its ordinal does not wrap around
grown :
    (u : Unicode) (ix : Index) (id : String) (text : Text) (t : String) (l : List Posting)
    → length ix.ids < word
    → contains (tokenize u text) t ≡ true
    → lookup t (add u ix id text).postings ≡ some l
    → postings_of t ix.postings
        ++ record { ord = length ix.ids; tf = occurrences t (tokenize u text) % word } ∷ []
      ≡ l
grown u ix id text t l room there found =
    let same : length ix.ids % word ≡ length ix.ids = omega arith in
    ground (arith, add-postings u ix id text t)

-- Add keeps the index well formed while there are fewer than 2^32 documents: one length for each
-- document, and the postings of each term in the strict order of their ordinals.
pub add-IsIndex :
    (u : Unicode) (ix : Index) (id : String) (text : Text)
    → length ix.ids < word
    → IsIndex ix
    → IsIndex (add u ix id text)
unfolding add
add-IsIndex u ix id text room v = record {
  lengths =
      length-append ix.doc_len (length (tokenize u text) % word ∷ [])
      ∙ (omega (arith, v.lengths) ∙ sym (length-append ix.ids (id ∷ [])));
  order = λ t l found.
      subst (IsAscending 0 l) (suc-length ix.ids id)
        (elim (Bool-cases (contains (tokenize u text) t)) [
          | inl there ↦
              subst (λ x. IsAscending 0 x (suc (length ix.ids)))
                (grown u ix id text t l room there found)
                (IsAscending-append 0 (length ix.ids) _ (postings_of t ix.postings)
                  (old_order ix v t))
          | inr gone ↦
              IsAscending-suc 0 (length ix.ids) l
                (v.order t l (ground (arith, add-postings u ix id text t)))
        ]);
}
