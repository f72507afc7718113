-- ===== src/Lexical/Tests.antt =====
-- An index of two short texts over the letters a to z, given by their codes.
use Prim.Native.String.{String}
use turbograph.Prelude.{
  false, ℕ, ◌%◌, ◌≡◌, refl, ◌&&◌, List, [], ◌∷◌, ◌++◌, some, length, leb, ltb, ◌==◌, ◌+◌, ◌-◌, ◌/◌,
  none, any, arith, if◌then◌else◌,
}
use turbograph.Prelude.Assoc.{lookup, contains, has}
use turbograph.Prelude.Keys.{nat_key, string_key}
use turbograph.Lexical.{
  Index, Floats, Result, top_k, score_terms, worse, Unicode, Text, word, new_index, tokenize, add,
  add_batch, add_each, postings_of,
}
use turbograph.Heap.{push_all, push_bounded, push, up, replace_root, down, choose, test, swap}
use turbograph.Heap.Array.{SameItems}
use turbograph.Heap.Tests.Sorting.{sort_by, sort_by-SameItems}
use turbograph.Lexical.Fusion.{
  score_ranking, score_rankings, rrf, first_rank, fused_score, score_in, rrf_lem,
}
use turbograph.Lexical.TopK.{IsScoreOrder, top_k-SameItems}
use turbograph.Lexical.Matched.{posted, score_terms-has}
use turbograph.Lexical.Batch.{add_batch_lem}
use turbograph.Lexical.Postings.{IsIndex, occurrences, add-postings, add-IsIndex}

-- the string of a short list of codes
abbrev pub spell : List ℕ → String
spell (a ∷ b ∷ []) = if b == 98 then "ab" else "at"
spell (a ∷ b ∷ c ∷ cs) = "long"
spell (a ∷ []) = "short"
spell [] = ""

abbrev pub ascii : Unicode
ascii = record {
  is_letter = λ r. leb 97 r && leb r 122;
  is_digit = λ r. leb 48 r && leb r 57;
  lower = spell;
  bytes = λ s. 2;
}

-- "ab at ab"
abbrev text : Text
text = 97 ∷ 98 ∷ 32 ∷ 97 ∷ 116 ∷ 32 ∷ 97 ∷ 98 ∷ []

new_index-IsIndex : IsIndex new_index
unfolding lookup
new_index-IsIndex = record { lengths = refl; order = λ t l found. absurd (ground arith) }

add_batch_lem_example :
    add_batch ascii new_index ("d" ∷ "e" ∷ []) (text ∷ text ∷ [])
    ≡ add_each ascii new_index ("d" ∷ "e" ∷ []) (text ∷ text ∷ [])
add_batch_lem_example = add_batch_lem ascii new_index ("d" ∷ "e" ∷ []) (text ∷ text ∷ [])

add-postings_example : lookup "ab" (add ascii new_index "d" text).postings ≡ (
    if contains (tokenize ascii text) "ab"
    then some (
        postings_of "ab" new_index.postings
        ++ record {
          ord = length new_index.ids % word;
          tf = occurrences "ab" (tokenize ascii text) % word;
        }
          ∷ [])
    else lookup "ab" new_index.postings)
add-postings_example = add-postings ascii new_index "d" text "ab"

add-IsIndex_example : IsIndex (add ascii new_index "d" text)
add-IsIndex_example = add-IsIndex ascii new_index "d" text (omega arith) new_index-IsIndex

-- scores that are whole numbers: a term counts as often as it stands in the document
abbrev whole : Floats
whole = record {
  Wide = ℕ;
  Score = ℕ;
  zero = 0;
  plus = λ a b. a + b;
  mean = λ total n. total / n;
  idf_of = λ n df. n - df;
  term_score = λ avg idf tf len. tf;
  narrow = λ x. x;
  below = ltb;
  same = λ a b. a == b;
}

whole-IsScoreOrder : IsScoreOrder whole
whole-IsScoreOrder = record {
  same_iff = λ a b. ground arith;
  asym = λ a b h. ground arith;
  negtrans = λ a b c h k. ground arith;
}

abbrev by_score : List (Result whole) → List (Result whole)
by_score = sort_by (λ a b. ltb b.score a.score)

abbrev three_docs : Index
three_docs = record new_index { ids = "a" ∷ "b" ∷ "c" ∷ [] }

abbrev seen_first : List (ℕ × ℕ)
seen_first = (0, 5) ∷ (1, 9) ∷ (2, 5) ∷ []

abbrev seen_last : List (ℕ × ℕ)
seen_last = (2, 5) ∷ (0, 5) ∷ (1, 9) ∷ []

top_two :
    top_k by_score three_docs seen_last 2
    ≡ record { id = "b"; score = 9 } ∷ record { id = "a"; score = 5 } ∷ []
unfolding top_k push_all push_bounded push up replace_root down choose test swap worse
top_two = refl

top_k-SameItems_example :
    SameItems (top_k by_score three_docs seen_first 2) (top_k by_score three_docs seen_last 2)
unfolding lookup
top_k-SameItems_example =
    top_k-SameItems whole-IsScoreOrder by_score (sort_by-SameItems (λ a b. ltb b.score a.score))
      three_docs seen_first seen_last 2 (refl, (refl, (refl, tt))) (λ p. omega arith)

abbrev posted_once : Index
posted_once = record new_index {
  ids = "a" ∷ "b" ∷ [];
  postings = ("ab", record { ord = 1; tf = 2 } ∷ []) ∷ [];
}

score_terms-has_example :
    has 1 (
      score_terms {φ = whole} posted_once
        (record { avg_len = 1; idf = [] })
        none
        ("ab" ∷ "ab" ∷ "xy" ∷ [])
        [])
    ≡ any (λ t. posted 1 (postings_of t posted_once.postings)) ("ab" ∷ "ab" ∷ "xy" ∷ [])
score_terms-has_example =
    score_terms-has posted_once (record { avg_len = 1; idf = [] }) 1 ("ab" ∷ "ab" ∷ "xy" ∷ [])

-- the second list has the first document twice: only its first rank counts
abbrev two_rankings : List (List (Result whole))
two_rankings =
    (record { id = "a"; score = 7 } ∷ record { id = "b"; score = 5 } ∷ [])
    ∷ (record { id = "b"; score = 9 }
        ∷ record { id = "a"; score = 2 }
        ∷ record { id = "b"; score = 1 }
        ∷ [])
    ∷ []

rrf_lem_example :
    score_in whole (λ n. n) (λ x y. false) "b" (rrf whole (λ n. n) (λ x y. false) 0 two_rankings)
    ≡ some 121
unfolding score_in rrf score_rankings score_ranking first_rank fused_score
rrf_lem_example = rrf_lem whole (λ n. n) (λ x y. false) 0 two_rankings "b"
