-- ===== src/Lexical/Rank.antt =====
-- lexical/bm25.go: the statistics of the terms, and the search.
use Prim.Native.String.{String}
use turbograph.Prelude.{
  ℕ, Bool, false, not, ◌||◌, List, [], ◌∷◌, map, Option, none, some, if◌then◌else◌, length,
  get_elem?, ltb, leb, ◌==◌,
}
use turbograph.Prelude.Keys.{nat_key, string_key}
use turbograph.Prelude.Assoc.{lookup, insert}
use turbograph.Heap.{push, replace_root, push_all}
use turbograph.Lexical.Defs.{Unicode, Text, Index, Posting, tokenize, postings_of}

-- The arithmetic of the scores: float64 with the mean length of a document, the IDF of a term and
-- its contribution to the score of a document, and float32 with `<` and `==`.
pub record Floats : Type 1 where
  pub Wide : Type 0
  pub Score : Type 0
  pub zero : Wide
  pub plus : Wide → Wide → Wide
  pub mean : ℕ → ℕ → Wide
  pub idf_of : ℕ → ℕ → Wide
  pub term_score : Wide → Wide → ℕ → ℕ → Wide
  pub narrow : Wide → Score
  pub below : Score → Score → Bool
  pub same : Score → Score → Bool

-- scored, where `ord` stands for the ordinal
pub record Scored (φ : Floats) : Type 0 where
  pub ord : ℕ
  pub score : φ.Score

-- what finalize computes
pub record Statistics (φ : Floats) : Type 0 where
  pub avg_len : φ.Wide
  pub idf : List (String × φ.Wide)

-- Result
pub record Result (φ : Floats) : Type 0 where
  pub id : String
  pub score : φ.Score

abbrev pub length_at : Index → ℕ → ℕ
length_at ix ord = elim (get_elem? ix.doc_len ord) [ none ↦ 0 | some n ↦ n ]

abbrev pub repeats : String → Option String → Bool
repeats t prev = elim prev [ none ↦ false | some p ↦ string_key.beq t p ]

module _ (φ : Floats) where
  abbrev pub score_of : ℕ → List (ℕ × φ.Wide) → φ.Wide
  score_of ord scores = elim (lookup ord scores) [ none ↦ φ.zero | some x ↦ x ]

  abbrev pub idf_at : String → List (String × φ.Wide) → φ.Wide
  idf_at t idf = elim (lookup t idf) [ none ↦ φ.zero | some x ↦ x ]

  module _ (ix : Index) (avg : φ.Wide) where
    -- the loop over the postings of a term
    unfoldable pub score_postings : φ.Wide → List Posting → List (ℕ × φ.Wide) → List (ℕ × φ.Wide)
    score_postings idf [] scores = scores
    score_postings idf (p ∷ ps) scores = score_postings idf ps (
        insert p.ord
          (φ.plus (score_of p.ord scores) (φ.term_score avg idf p.tf (length_at ix p.ord))) scores)

module _ {φ : Floats} where
  unfoldable pub worse : Scored φ → Scored φ → Bool
  worse a b = if not (φ.same a.score b.score) then φ.below a.score b.score else ltb b.ord a.ord

  -- push and replaceMin of minHeap
  abbrev pub push_scored : Scored φ → List (Scored φ) → List (Scored φ)
  push_scored = push (λ p c. not (worse c p))

  abbrev pub replace_min : Scored φ → List (Scored φ) → List (Scored φ)
  replace_min = replace_root worse

  -- an index without documents has no terms
  unfoldable pub finalize : Index → Statistics φ
  finalize ix = if length ix.ids == 0 then record { avg_len = φ.zero; idf = [] } else record {
    avg_len = φ.mean ix.total_len (length ix.ids);
    idf = map (λ p. (p.0, φ.idf_of (length ix.ids) (length p.1))) ix.postings;
  }

  -- the loop over the sorted terms of the query
  unfoldable pub score_terms :
      Index → Statistics φ → Option String → List String → List (ℕ × φ.Wide) → List (ℕ × φ.Wide)
  score_terms ix st prev [] scores = scores
  score_terms ix st prev (t ∷ ts) scores =
      let more =
        score_postings φ ix st.avg_len (idf_at φ t st.idf) (postings_of t ix.postings) scores in
      score_terms ix st (some t) ts (if repeats t prev then scores else more)

  abbrev pub result_at : Index → Scored φ → Result φ
  result_at ix s = record {
    id = elim (get_elem? ix.ids s.ord) [ none ↦ "" | some id ↦ id ];
    score = s.score;
  }

  abbrev pub narrowed : ℕ × φ.Wide → Scored φ
  narrowed p = record { ord = p.0; score = φ.narrow p.1 }

  module _ (sort_results : List (Result φ) → List (Result φ)) where
    -- The scores are visited in the order of the list.
    unfoldable pub top_k : Index → List (ℕ × φ.Wide) → ℕ → List (Result φ)
    top_k ix scores k =
        let hits = map narrowed scores in
        if leb (length scores) k
        then sort_results (map (result_at ix) hits)
        else sort_results (map (result_at ix) (push_all worse k hits []))

    -- Search, where the statistics are computed anew; `sort_strings` is sort.Strings
    unfoldable pub search :
        (List String → List String) → Unicode → Index → Text → ℕ → List (Result φ)
    search sort_strings u ix query k =
        let terms = sort_strings (tokenize u query) in
        let scores = score_terms ix (finalize ix) none terms [] in
        if k == 0 || length ix.ids == 0
        then []
        else if length terms == 0
        then []
        else if length scores == 0
        then []
        else top_k ix scores k
