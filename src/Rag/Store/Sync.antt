-- ===== src/Rag/Store/Sync.antt =====
-- The indexes of rag/store.go against the arrays they are derived from.
use Prim.Native.String.{String}
use mathlib.Core.Option
use mathlib.Core.List.{append-nil, append_assoc}
use turbograph.Prelude.{
  suc, ◌≡◌, refl, sym, ap, ◌∙◌, ◌⊎◌, inl, inr, Bool, true, false, not, ◌||◌, List, [], ◌∷◌, ◌++◌,
  map, none, some, length, ◌==◌, leb, is_some, arith, if_cases, Option-cases,
}
use turbograph.Rag.Chunk.{Chunk, index_text}
use turbograph.Rag.Store.{
  Sorts, Store, Services, IndexLaws, chunk_ids, ids_of, init_indexes, add_all, rebuild_lexical,
  rebuild_indexes, views, share_vectors, build_search, settle, restored, restore_hnsw_locked,
  ensure_search, rebuild_graph, extend_graph, reindex,
}

-- Both indexes hold the chunks of the arrays, by their ids, in order.
abbrev pub IsIndexed : {τ : Sorts} → Services τ → Store τ → Type 0
IsIndexed o s =
    (Option.map (λ x. ids_of (o.vectors x)) s.hnsw ≡ some (chunk_ids s.chunks))
    × (o.indexed s.bm25 ≡ chunk_ids s.chunks)

-- The indexes hold the chunks, or the store knows that they do not: they are deferred, they are
-- marked for a rebuild, or nothing has been stored yet.
abbrev pub InSync : {τ : Sorts} → Services τ → Store τ → Type 0
InSync o s =
    (s.defer_index ≡ true)
    ⊎ ((s.needs_rebuild ≡ true) ⊎ (((s.hnsw ≡ none) × (s.chunks ≡ [])) ⊎ IsIndexed o s))

-- One embedding for each chunk.
abbrev pub IsAligned : {τ : Sorts} → Store τ → Type 0
IsAligned s = length s.embeds ≡ length s.chunks

-- the indexes hold the chunks, or there is nothing to hold
abbrev pub IsCurrent : {τ : Sorts} → Services τ → Store τ → Type 0
IsCurrent o s = ((s.hnsw ≡ none) × (s.chunks ≡ [])) ⊎ IsIndexed o s

length-chunk_ids : (cs : List Chunk) → length (chunk_ids cs) ≡ length (map index_text cs)
length-chunk_ids [] = refl
length-chunk_ids (c ∷ cs) = ap suc (length-chunk_ids cs)

length-map {ℓ κ} :
    {A : Type ℓ} {B : Type κ} (f : A → B) (xs : List A) → length (map f xs) ≡ length xs
length-map f [] = refl
length-map f (x ∷ xs) = ap suc (length-map f xs)

module _ {τ : Sorts} (o : Services τ) (laws : IndexLaws o) where
  add_all-ids :
      (x : τ.Hnsw) (cs : List Chunk) (vs : List τ.Vec)
      → length vs ≡ length cs
      → ids_of (o.vectors (add_all o x cs vs)) ≡ ids_of (o.vectors x) ++ chunk_ids cs
  unfolding add_all
  add_all-ids x [] vs h = sym (append-nil _)
  add_all-ids x (c ∷ cs) [] h = absurd (omega arith)
  add_all-ids x (c ∷ cs) (v ∷ vs) h =
      add_all-ids (o.hnsw_add x c.id v) cs vs (omega arith)
      ∙ rw (laws.vectors-add x c.id v) (append_assoc _ (c.id ∷ []) (chunk_ids cs))

  rebuild_lexical-indexed :
      (s : Store τ) → o.indexed (rebuild_lexical o s).bm25 ≡ chunk_ids s.chunks
  unfolding rebuild_lexical
  rebuild_lexical-indexed s =
      laws.indexed-add_batch o.new_bm25 (chunk_ids s.chunks) (map index_text s.chunks)
        (length-chunk_ids s.chunks)
      ∙ rw laws.indexed-new refl

  -- A rebuild makes both indexes from the arrays.
  pub rebuild_indexes-IsIndexed : (s : Store τ) → IsAligned s → IsIndexed o (rebuild_indexes o s)
  unfolding rebuild_indexes rebuild_lexical init_indexes
  rebuild_indexes-IsIndexed s h = (
    ap some (add_all-ids (o.new_hnsw s.dim) s.chunks s.embeds h ∙ rw (laws.vectors-new s.dim) refl),
    rebuild_lexical-indexed s,
  )

  pub share_vectors-IsAligned : (s : Store τ) → IsAligned s → IsAligned (share_vectors o s)
  unfolding share_vectors views
  share_vectors-IsAligned s h = elim (Option-cases s.hnsw) [
    | inl missing ↦ rw (missing, views) h
    | inr (x, found) ↦
        rw (found, views) (ground (arith, length-map (λ (p : String × τ.Vec). p.1) (o.vectors x)))
  ]

  restored-ids :
      (s : Store τ) (x : τ.Hnsw) → restored o s ≡ some x → ids_of (o.vectors x) ≡ chunk_ids s.chunks
  unfolding restored
  restored-ids s x h = elim (Option-cases s.saved_hnsw) [
    | inl missing ↦ absurd (ground arith)
    | inr (g, found) ↦ ground (
      arith,
      laws.vectors-adopt s.dim (chunk_ids s.chunks) s.flat g x,
      laws.vectors-restore s.dim (chunk_ids s.chunks) s.embeds g x,
    )
  ]

  abbrev Built : Store τ → Store τ → Type 0
  Built s b = IsIndexed o b × IsAligned b × (b.defer_index ≡ s.defer_index)

  restored-hnsw :
      (s : Store τ)
      → is_some (restored o s) ≡ true
      → Option.map
          (λ x. ids_of (o.vectors x))
          (elim (restored o s) [ none ↦ s.hnsw | some x ↦ some x ])
        ≡ some (chunk_ids s.chunks)
  restored-hnsw s e = elim (Option-cases (restored o s)) [
    | inl missing ↦ absurd (ground arith)
    | inr (x, found) ↦ rw found (ap some (restored-ids s x found))
  ]

  -- the indexes are restored from disk or built from the arrays
  build_search-Built : (s : Store τ) → IsAligned s → Built s (build_search o s)
  unfolding build_search restore_hnsw_locked rebuild_lexical rebuild_indexes init_indexes
  build_search-Built s a =
      let r : Store τ × Bool = restore_hnsw_locked o s in
      if_cases (Built s) r.1 {x = rebuild_lexical o r.0} {y = rebuild_indexes o r.0}
        (λ e. ((restored-hnsw s e, rebuild_lexical-indexed r.0), a, refl))
        (λ e. (rebuild_indexes-IsIndexed r.0 a, a, refl))

  settle-IsIndexed : (s : Store τ) → IsIndexed o s → IsIndexed o (settle o s)
  unfolding settle share_vectors
  settle-IsIndexed s h = h

  settle-IsAligned : (s : Store τ) → IsAligned s → IsAligned (settle o s)
  unfolding settle
  settle-IsAligned s a = share_vectors-IsAligned (record s { needs_rebuild = false }) a

  settle-defer : (s : Store τ) → (settle o s).defer_index ≡ s.defer_index
  unfolding settle share_vectors
  settle-defer s = refl

  -- A store that is asked to search is not deferred any more. What was deferred is then indexed,
  -- whatever was read from disk.
  pub ensure_search-InSync :
      (s : Store τ)
      → IsAligned s
      → InSync o s
      → InSync o (ensure_search o s)
        × ((ensure_search o s).defer_index ≡ false)
        × IsAligned (ensure_search o s)
  unfolding ensure_search
  ensure_search-InSync s a h =
      if_cases (λ b. InSync o b × (b.defer_index ≡ false) × IsAligned b) (not s.defer_index)
        (λ built. (h, ground arith, a))
        (λ deferred.
          let b = build_search o (record s { defer_index = false }) in
          let (whole, aligned, same) = build_search-Built (record s { defer_index = false }) a in
          (
            inr (inr (inr (settle-IsIndexed b whole))),
            settle-defer b ∙ same,
            settle-IsAligned b aligned,
          ))

  extend_graph-InSync :
      (s : Store τ)
      → IsCurrent o s
      → IsAligned s
      → IsCurrent o (extend_graph o s) × IsAligned (extend_graph o s)
  unfolding extend_graph rebuild_graph
  extend_graph-InSync s h a =
      let P : Store τ → Type 0 = λ b. IsCurrent o b × IsAligned b in
      if_cases P s.defer_graph (λ _. (h, a))
        (λ _.
          if_cases P (leb (length s.chunks) s.indexed_up_to)
            (λ _.
              if_cases P (not (is_some s.graph_nodes) || s.indexed_up_to == 0) (λ _. (h, a))
                (λ _. (h, a)))
            (λ _. (h, a)))

  -- Reindexing makes the indexes of a store that is not deferred hold its chunks.
  pub reindex-IsCurrent :
      (s : Store τ)
      → IsAligned s
      → InSync o s
      → s.defer_index ≡ false
      → IsCurrent o (reindex o s) × IsAligned (reindex o s)
  unfolding reindex share_vectors rebuild_indexes rebuild_lexical init_indexes
  reindex-IsCurrent s a h built =
      let P : Store τ → Type 0 = λ b. IsCurrent o b × IsAligned b in
      if_cases P s.defer_index (λ deferred. absurd (ground arith))
        (λ _.
          if_cases P s.needs_rebuild
            (λ stale.
              let b = rebuild_indexes o s in
              extend_graph-InSync
                (record (share_vectors o b) { needs_rebuild = false; indexed_up_to = 0 })
                (inr (rebuild_indexes-IsIndexed s a)) (share_vectors-IsAligned b a))
            (λ fresh. extend_graph-InSync s (current h fresh) a))
    where
      current : InSync o s → s.needs_rebuild ≡ false → IsCurrent o s
      current (inl deferred) fresh = absurd (ground arith)
      current (inr (inl stale)) fresh = absurd (ground arith)
      current (inr (inr c)) fresh = c
