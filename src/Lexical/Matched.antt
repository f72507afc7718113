-- ===== src/Lexical/Matched.antt =====
-- The loop of Search in lexical/bm25.go over the terms of the query.
use Prim.Native.String.{String}
use turbograph.Prelude.{
  ℕ, ◌≡◌, sym, ap, ◌∙◌, subst, Bool, true, ◌||◌, List, [], ◌∷◌, Option, none, some, if◌then◌else◌,
  any, ◌==◌, arith, if_cases, is_some,
}
use mathlib.Core.Option.{some_inj}
use turbograph.Prelude.Keys.{nat_key, string_key}
use turbograph.Prelude.Assoc.{lookup, insert, lookup-insert, has}
use turbograph.Lexical.{
  Index, Posting, Floats, Statistics, score_postings, score_terms, score_of, idf_at, length_at,
  postings_of, repeats,
}

-- whether a document has one of the postings
abbrev pub posted : ℕ → List Posting → Bool
posted ord = any (λ (p : Posting). p.ord == ord)

has_posting :
    {V : Type 0} {o : Option V} (b : Bool) (w : V) (old : Option V) (rest : Bool)
    → o ≡ (if b then some w else old)
    → (is_some o || rest) ≡ (is_some old || (b || rest))
has_posting b w old rest e = ap (λ x. is_some x || rest) e ∙ ground arith

repeats-some : (t : String) (prev : Option String) → repeats t prev ≡ true → prev ≡ some t
repeats-some t none e = absurd (ground arith)
repeats-some t (some p) e = ap some (sym ((string_key.beq_iff t p).0 e))

module _ {φ : Floats} (ix : Index) (st : Statistics φ) (ord : ℕ) where
  score_postings-has :
      (idf : φ.Wide) (ps : List Posting) (scores : List (ℕ × φ.Wide))
      → has ord (score_postings φ ix st.avg_len idf ps scores) ≡ (has ord scores || posted ord ps)
  unfolding score_postings
  score_postings-has idf [] scores = ground arith
  score_postings-has idf (p ∷ ps) scores =
      let w : φ.Wide =
        φ.plus (score_of φ p.ord scores) (φ.term_score st.avg_len idf p.tf (length_at ix p.ord)) in
      score_postings-has idf ps (insert p.ord w scores)
      ∙ has_posting (p.ord == ord) w (lookup ord scores) (posted ord ps)
          (lookup-insert p.ord ord w scores)

  -- a term that the loop skips has been scored
  IsScored : Option String → List (ℕ × φ.Wide) → Type 0
  IsScored prev scores =
      (t : String)
      → prev ≡ some t
      → posted ord (postings_of t ix.postings) ≡ true
      → has ord scores ≡ true

  score_terms-has-from :
      (prev : Option String) (ts : List String) (scores : List (ℕ × φ.Wide))
      → IsScored prev scores
      → has ord (score_terms ix st prev ts scores)
        ≡ (has ord scores || any (λ t. posted ord (postings_of t ix.postings)) ts)
  unfolding score_terms IsScored
  score_terms-has-from prev [] scores scored = ground arith
  score_terms-has-from prev (t ∷ ts) scores scored =
      let here = posted ord (postings_of t ix.postings) in
      let more =
        score_postings φ ix st.avg_len (idf_at φ t st.idf) (postings_of t ix.postings) scores in
      let added : has ord more ≡ (has ord scores || here) =
        score_postings-has (idf_at φ t st.idf) (postings_of t ix.postings) scores in
      if_cases
        (λ next.
          has ord (score_terms ix st (some t) ts next)
          ≡ (has ord scores || (here || any (λ u. posted ord (postings_of u ix.postings)) ts)))
        (repeats t prev)
        (λ again.
          let known : here ≡ true → has ord scores ≡ true = scored t (repeats-some t prev again) in
          ground (
            arith,
            score_terms-has-from (some t) ts scores (λ u e.
                subst (λ w. posted ord (postings_of w ix.postings) ≡ true → has ord scores ≡ true)
                  (some_inj.0 e) known),
            known,
          ))
        (λ new. ground (
          arith,
          score_terms-has-from (some t) ts more (λ u e.
              subst (λ w. posted ord (postings_of w ix.postings) ≡ true → has ord more ≡ true)
                (some_inj.0 e) (λ yes_here. ground (arith, added, yes_here))),
          added,
        ))

  -- The loop of a search over the terms of the query scores a document exactly if it has a posting
  -- of one of them, also where it skips a term that stands twice.
  pub score_terms-has :
      (ts : List String)
      → has ord (score_terms ix st none ts [])
        ≡ any (λ t. posted ord (postings_of t ix.postings)) ts
  unfolding IsScored lookup
  score_terms-has ts = score_terms-has-from none ts [] (λ t e. absurd (ground arith))
