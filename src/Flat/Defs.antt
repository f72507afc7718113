-- ===== src/Flat/Defs.antt =====
-- index/index.go: the flat index. The rows of a flat buffer are a list of vectors.
use Prim.Native.String.{String}
use turbograph.Prelude.{
  ℕ, zero, suc, ◌+◌, ◌-◌, ◌*◌, ◌/◌, Bool, true, false, ◌&&◌, List, [], ◌∷◌, ◌++◌, map, none, some,
  if◌then◌else◌, length, get_elem?, take, drop, min, ltb, ◌==◌,
}
use turbograph.Heap.{push_all}

pub data Metric : Type 0 where
  cosine : Metric
  inner_product : Metric
  l2 : Metric

-- The quantizer with its scores, the norm of a vector, and the exact score of a stored vector: what
-- the index computes in floating point, and the test `<` on scores.
pub record Codes : Type 1 where
  pub Vec : Type 0
  pub Code : Type 0
  pub Query : Type 0
  pub Norm : Type 0
  pub Score : Type 0
  pub encode : Vec → Code
  pub prepare_query : Vec → Query
  pub score : Metric → Query → Code → Score
  pub vnorm : Vec → Norm
  pub exact : Metric → Vec → Norm → Vec → Norm → Score
  pub less : Score → Score → Bool

pub record FlatIndex (φ : Codes) : Type 0 where
  pub metric : Metric
  pub codes : List φ.Code
  pub ids : List String
  pub keep_vecs : Bool
  pub vdim : ℕ
  pub vecs : List φ.Vec
  pub vnorms : List φ.Norm

pub record Hit (φ : Codes) : Type 0 where
  pub ord : ℕ
  pub score : φ.Score

abbrev pub higher_is_better : Metric → Bool
higher_is_better l2 = false
higher_is_better _ = true

module _ {φ : Codes} where
  abbrev pub new_flat : Metric → FlatIndex φ
  new_flat m = record {
    metric = m;
    codes = [];
    ids = [];
    keep_vecs = false;
    vdim = 0;
    vecs = [];
    vnorms = [];
  }

  abbrev pub new_with_vectors : Metric → ℕ → FlatIndex φ
  new_with_vectors m dim = record (new_flat m) { keep_vecs = true; vdim = dim }

  unfoldable pub flat_len : FlatIndex φ → ℕ
  flat_len ix = length ix.codes

  unfoldable pub flat_add : String → φ.Vec → FlatIndex φ → FlatIndex φ × ℕ
  flat_add id vec ix = (
    record ix {
      codes = ix.codes ++ φ.encode vec ∷ [];
      ids = ix.ids ++ id ∷ [];
      vecs = if ix.keep_vecs then ix.vecs ++ vec ∷ [] else ix.vecs;
      vnorms = if ix.keep_vecs then ix.vnorms ++ φ.vnorm vec ∷ [] else ix.vnorms;
    },
    length ix.codes,
  )

  -- the workers encode each row once, whichever of them does
  unfoldable pub flat_add_batch : List String → List φ.Vec → FlatIndex φ → FlatIndex φ × ℕ
  flat_add_batch ids rows ix = (
    record ix {
      codes = ix.codes ++ map φ.encode (take (length ids) rows);
      ids = ix.ids ++ ids;
      vecs = if ix.keep_vecs then ix.vecs ++ take (length ids) rows else ix.vecs;
      vnorms =
          if ix.keep_vecs then ix.vnorms ++ map φ.vnorm (take (length ids) rows) else ix.vnorms;
    },
    length ix.codes,
  )

  -- worse of the top heap
  unfoldable pub top_worse : Metric → Hit φ → Hit φ → Bool
  top_worse m a b = if higher_is_better m then φ.less a.score b.score else φ.less b.score a.score

  -- the hits of the codes from the ordinal `i` on
  abbrev pub hits_from : Metric → φ.Query → ℕ → List φ.Code → List (Hit φ)
  hits_from m q i [] = []
  hits_from m q i (c ∷ cs) = record { ord = i; score = φ.score m q c } ∷ hits_from m q (suc i) cs

  -- the hits of the worker that scans the codes from `lo` up to `hi`
  abbrev pub hits_between : FlatIndex φ → φ.Query → ℕ → ℕ → List (Hit φ)
  hits_between ix q lo hi = hits_from ix.metric q lo (take (hi - lo) (drop lo ix.codes))

  -- what the workers keep, put together; `w` workers are left, the next of which starts at `lo`
  unfoldable pub scan_parts : FlatIndex φ → φ.Query → ℕ → ℕ → ℕ → ℕ → List (Hit φ)
  scan_parts ix q keep chunk zero lo = []
  scan_parts ix q keep chunk (suc w) lo =
      let hi = min (lo + chunk) (length ix.codes) in
      let part = push_all (top_worse ix.metric) keep (hits_between ix q lo hi) [] in
      let rest = scan_parts ix q keep chunk w (lo + chunk) in if ltb lo hi then part ++ rest else []

  -- exactScore of a hit; Go stops the program where there is no such row
  abbrev pub rescore : FlatIndex φ → φ.Vec → Hit φ → Hit φ
  rescore ix query h = elim (get_elem? ix.vecs h.ord) [
    | none ↦ h
    | some v ↦ elim (get_elem? ix.vnorms h.ord) [
      | none ↦ h
      | some n ↦ record h { score = φ.exact ix.metric query (φ.vnorm query) v n }
    ]
  ]

  abbrev pub id_of : FlatIndex φ → Hit φ → String
  id_of ix h = elim (get_elem? ix.ids h.ord) [ none ↦ "" | some id ↦ id ]

  -- `sort` is sortHits, and `procs` the number of processors
  module _ (sort : Metric → List (Hit φ) → List (Hit φ)) (procs : ℕ) where
    unfoldable pub scan : FlatIndex φ → φ.Query → ℕ → List (Hit φ)
    scan ix q keep =
        let n = length ix.codes in
        let workers = if ltb n procs then n else procs in
        let chunk = (n + workers - 1) / workers in
        take keep (sort ix.metric (scan_parts ix q keep chunk workers 0))

    -- Search, for a `k` that is not negative; a hit is its id with its score
    unfoldable pub flat_search : FlatIndex φ → φ.Vec → ℕ → ℕ → List (String × φ.Score)
    flat_search ix query k overscan =
        let n = length ix.codes in
        let top = if ltb n k then n else k in
        let pool = if ltb 1 overscan then min (top * overscan) n else top in
        let found = scan ix (φ.prepare_query query) pool in
        let ranked =
          if ix.keep_vecs && ltb 1 overscan
          then sort ix.metric (map (rescore ix query) found)
          else found in
        if top == 0 then [] else map (λ h. (id_of ix h, h.score)) (take top ranked)
