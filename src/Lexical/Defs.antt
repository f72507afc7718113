-- ===== src/Lexical/Defs.antt =====
-- lexical/tokenize.go and the state of lexical/bm25.go, without the scores, which are floats.
-- A text is the list of its runes. Package unicode, package strings, and the string of some runes
-- are the parameter `Unicode`. The entries of a map are visited in the order of the list.
use Prim.Native.String.{String}
use turbograph.Prelude.{
  ℕ, suc, ◌+◌, ◌%◌, ◌^◌, min, Bool, true, false, ◌||◌, List, [], ◌∷◌, ◌++◌, map, Option, none, some,
  if◌then◌else◌, length, take, ltb, ◌==◌,
}
use turbograph.Prelude.Keys.{string_key}
use turbograph.Prelude.Assoc.{lookup, insert, contains}

pub record Unicode : Type 0 where
  pub is_letter : ℕ → Bool
  pub is_digit : ℕ → Bool
  pub lower : List ℕ → String
  pub bytes : String → ℕ

abbrev pub Text : Type 0
Text = List ℕ

-- uint32
abbrev pub word : ℕ
word = 2 ^ 32

-- minTokenLen
abbrev pub min_token_len : ℕ
min_token_len = 2

abbrev pub stopwords : List String
stopwords =
    "a" ∷ "an" ∷ "and" ∷ "are" ∷ "as" ∷ "at" ∷ "be" ∷ "by" ∷ "for" ∷ "from" ∷ "has" ∷ "he" ∷ "in"
    ∷ "is" ∷ "it" ∷ "its" ∷ "of" ∷ "on" ∷ "or" ∷ "that" ∷ "the" ∷ "to" ∷ "was" ∷ "were" ∷ "will"
    ∷ "with" ∷ "this" ∷ "these" ∷ "those" ∷ "but" ∷ "not" ∷ "they" ∷ "their" ∷ []

pub record Posting : Type 0 where
  pub ord : ℕ
  pub tf : ℕ

pub record Index : Type 0 where
  pub ids : List String
  pub doc_len : List ℕ
  pub postings : List (String × List Posting)
  pub total_len : ℕ
  pub finalized : Bool

abbrev pub new_index : Index
new_index = record { ids = []; doc_len = []; postings = []; total_len = 0; finalized = false }

-- `fn` of tokenizeFunc with the state of its caller
module _ (u : Unicode) {S : Type 0} (fn : String → S → S) where
  unfoldable pub emit_token : Text → S → S
  emit_token field s =
      let tok = u.lower field in
      if ltb (u.bytes tok) min_token_len then s else if contains stopwords tok then s else fn tok s

  abbrev pub end_field : Option Text → S → S
  end_field none s = s
  end_field (some field) s = emit_token field s

  abbrev pub extend : Option Text → ℕ → Text
  extend none r = r ∷ []
  extend (some field) r = field ++ r ∷ []

  -- the loop of tokenizeFunc: `cur` is the text from `start` on, if a field has been started
  unfoldable pub tokenize_func : Option Text → Text → S → S
  tokenize_func cur [] s = end_field cur s
  tokenize_func cur (r ∷ rs) s = elim (u.is_letter r || u.is_digit r) [
    | true ↦ tokenize_func (some (extend cur r)) rs s
    | false ↦ tokenize_func none rs (end_field cur s)
  ]

abbrev pub collect : String → List String → List String
collect tok out = out ++ tok ∷ []

unfoldable pub tokenize : Unicode → Text → List String
tokenize u text = tokenize_func u collect none text []

abbrev pub count_of : String → List (String × ℕ) → ℕ
count_of t m = elim (lookup t m) [ none ↦ 0 | some n ↦ n ]

-- `tf[t]++`
unfoldable pub count_up : String → List (String × ℕ) → List (String × ℕ)
count_up t m = insert t ((count_of t m + 1) % word) m

-- the loop over the tokens in Add
unfoldable pub tally : List String → List (String × ℕ) → List (String × ℕ)
tally [] m = m
tally (t ∷ ts) m = tally ts (count_up t m)

abbrev pub postings_of : String → List (String × List Posting) → List Posting
postings_of t ps = elim (lookup t ps) [ none ↦ [] | some l ↦ l ]

-- the loop that appends a posting for each term of a document
unfoldable pub post :
    ℕ → List (String × ℕ) → List (String × List Posting) → List (String × List Posting)
post ord [] ps = ps
post ord ((t, n) ∷ tf) ps =
    post ord tf (insert t (postings_of t ps ++ record { ord = ord; tf = n } ∷ []) ps)

unfoldable pub add : Unicode → Index → String → Text → Index
add u ix id text =
    let toks = tokenize u text in
    record {
      ids = ix.ids ++ id ∷ [];
      doc_len = ix.doc_len ++ length toks % word ∷ [];
      postings = post (length ix.ids % word) (tally toks []) ix.postings;
      total_len = (ix.total_len + length toks) % 2 ^ 64;
      finalized = false;
    }

-- a document that a worker of AddBatch has counted
pub record Prepped : Type 0 where
  pub toks : ℕ
  pub tf : List (String × ℕ)

abbrev pub count_token : String → Prepped → Prepped
count_token tok d = record { toks = d.toks + 1; tf = count_up tok d.tf }

-- the body of a worker's loop
unfoldable pub prepare : Unicode → Text → Prepped
prepare u text = tokenize_func u count_token none text (record { toks = 0; tf = [] })

-- the loop that merges the documents, from the i-th on
unfoldable pub merge : ℕ → ℕ → List String → List Prepped → Index → Index
merge base i (id ∷ ids) (d ∷ ds) ix = merge base (suc i) ids ds (record ix {
  ids = ix.ids ++ id ∷ [];
  doc_len = ix.doc_len ++ d.toks % word ∷ [];
  total_len = (ix.total_len + d.toks) % 2 ^ 64;
  postings = post ((base + i % word) % word) d.tf ix.postings;
})
merge base i _ _ ix = ix

-- the workers count each document once, whichever of them does
unfoldable pub add_batch : Unicode → Index → List String → List Text → Index
add_batch u ix ids texts =
    let n = min (length ids) (length texts) in
    let docs = map (prepare u) (take n texts) in
    if n == 0
    then ix
    else merge (length ix.ids % word) 0 (take n ids) docs (record ix { finalized = false })

-- the loop of Build
unfoldable pub add_each : Unicode → Index → List String → List Text → Index
add_each u ix (id ∷ ids) (text ∷ texts) = add_each u (add u ix id text) ids texts
add_each u ix _ _ = ix
