-- ===== src/Lexical/Batch.antt =====
-- AddBatch and Add of lexical/bm25.go.
use Prim.Native.String.{String}
use turbograph.Prelude.{
  ℕ, suc, ◌+◌, ◌%◌, min, ◌≡◌, refl, sym, ◌∙◌, inl, inr, false, ◌||◌, List, [], ◌∷◌, ◌++◌, map,
  Option, none, some, length, take, ltb, ◌==◌, arith, Bool-cases, length-append,
}
use turbograph.Prelude.Assoc.{contains}
use turbograph.Prelude.Keys.{string_key}
use turbograph.Lexical.{
  Unicode, Text, Index, Prepped, word, tokenize, tokenize_func, emit_token, end_field, collect,
  tally, count_up, add, count_token, prepare, merge, add_batch, add_each, stopwords, min_token_len,
}

min_zero : (n : ℕ) → min 0 n ≡ 0
min_zero n = omega arith

min_zero' : (n : ℕ) → min n 0 ≡ 0
min_zero' n = omega arith

min-suc : (m n : ℕ) → min (suc m) (suc n) ≡ suc (min m n)
min-suc m n = omega arith

suc_positive : (n : ℕ) → (suc n == 0) ≡ false
suc_positive n = ground arith

tally-append :
    (xs ys : List String) (m : List (String × ℕ)) → tally (xs ++ ys) m ≡ tally ys (tally xs m)
unfolding tally
tally-append [] ys m = refl
tally-append (x ∷ xs) ys m = tally-append xs ys (count_up x m)

-- what a worker has counted after some tokens
abbrev counted : List String → Prepped
counted toks = record { toks = length toks; tf = tally toks [] }

counted-collect :
    (tok : String) (toks : List String)
    → counted (collect tok toks) ≡ count_token tok (counted toks)
unfolding tally
counted-collect tok toks = rw (tally-append toks (tok ∷ []) [], length-append toks (tok ∷ [])) refl

module _ (u : Unicode) where
  emit_token-counted :
      (field : Text) (toks : List String)
      → emit_token u count_token field (counted toks) ≡ counted (emit_token u collect field toks)
  unfolding emit_token
  emit_token-counted field toks =
      let tok = u.lower field in
      elim (Bool-cases (ltb (u.bytes tok) min_token_len)) [
        | inl short ↦ rw short refl
        | inr long ↦ elim (Bool-cases (contains stopwords tok)) [
          | inl stop ↦ rw (long, stop) refl
          | inr go ↦ rw (long, go) (sym (counted-collect tok toks))
        ]
      ]

  end_field-counted :
      (cur : Option Text) (toks : List String)
      → end_field u count_token cur (counted toks) ≡ counted (end_field u collect cur toks)
  end_field-counted none toks = refl
  end_field-counted (some field) toks = emit_token-counted field toks

  tokenize_func-counted :
      (cur : Option Text) (rs : Text) (toks : List String)
      → tokenize_func u count_token cur rs (counted toks)
        ≡ counted (tokenize_func u collect cur rs toks)
  unfolding tokenize_func
  tokenize_func-counted none [] toks = refl
  tokenize_func-counted (some field) [] toks = emit_token-counted field toks
  tokenize_func-counted cur (r ∷ rs) toks = elim (Bool-cases (u.is_letter r || u.is_digit r)) [
    | inl letter ↦ rw (letter, tokenize_func) (tokenize_func-counted _ rs toks)
    | inr gap ↦
        rw (gap, tokenize_func, end_field-counted cur toks) (tokenize_func-counted none rs _)
  ]

  prepare_lem : (text : Text) → prepare u text ≡ counted (tokenize u text)
  unfolding prepare tokenize tally
  prepare_lem text = tokenize_func-counted none text []

  ord_wraps : (base i n : ℕ) → n ≡ base + i → (base % word + i % word) % word ≡ n % word
  ord_wraps base i n h = omega arith

  merge_lem :
      (base i : ℕ) (ids : List String) (texts : List Text) (ix : Index)
      → length ix.ids ≡ base + i
      → ix.finalized ≡ false
      → merge (base % word) i ids (map (prepare u) texts) ix ≡ add_each u ix ids texts
  unfolding merge add_each add
  merge_lem base i [] texts ix h f = refl
  merge_lem base i (id ∷ ids) [] ix h f = refl
  merge_lem base i (id ∷ ids) (text ∷ texts) ix h f =
      let ord : (base % word + i % word) % word ≡ length ix.ids % word =
        ord_wraps base i (length ix.ids) h in
      rw (prepare_lem text, ord, f)
        (merge_lem base (suc i) ids texts (add u ix id text)
          (length-append ix.ids (id ∷ []) ∙ omega arith) refl)

  add_each-take :
      (ids : List String) (texts : List Text) (ix : Index)
      → add_each u ix
          (take (min (length ids) (length texts)) ids)
          (take (min (length ids) (length texts)) texts)
        ≡ add_each u ix ids texts
  unfolding add_each
  add_each-take [] texts ix = rw (min_zero (length texts)) refl
  add_each-take (id ∷ ids) [] ix = rw (min_zero' (length (id ∷ ids))) refl
  add_each-take (id ∷ ids) (text ∷ texts) ix =
      rw (min-suc (length ids) (length texts)) (add_each-take ids texts (add u ix id text))

  -- AddBatch, whose workers count the tokens as they are scanned, makes the index that Add makes
  -- of the same documents in order, ordinals that wrap around included.
  pub add_batch_lem :
      (ix : Index) (ids : List String) (texts : List Text)
      → add_batch u ix ids texts ≡ add_each u ix ids texts
  unfolding add_batch add_each add
  add_batch_lem ix [] texts = rw (min_zero (length texts)) refl
  add_batch_lem ix (id ∷ ids) [] = rw (min_zero' (length (id ∷ ids))) refl
  add_batch_lem ix (id ∷ ids) (text ∷ texts) =
      rw (min-suc (length ids) (length texts), suc_positive (min (length ids) (length texts)))
        (merge_lem (length ix.ids) 0 (id ∷ _) (text ∷ _) (record ix { finalized = false })
            (omega arith) refl
          ∙ add_each-take ids texts (add u ix id text))
