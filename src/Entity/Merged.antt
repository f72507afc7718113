-- ===== src/Entity/Merged.antt =====
-- The loop of Canonicalize that merges the entities: no mention is lost and none is counted twice.
use Prim.Native.String.{String}
use text.Mathlib.Text.{◌==◌ as str_eq}
use text.Mathlib.TextEquality.{eq_iff}
use turbograph.Prelude.{
  ℕ, ◌+◌, ◌≡◌, refl, ◌∙◌, inl, inr, true, false, List, [], ◌∷◌, ◌++◌, Option, none, some, arith,
  if◌then◌else◌, Bool-cases, All,
}
use turbograph.Prelude.Keys.{string_key}
use turbograph.Prelude.Assoc.{
  contains-snoc, lookup, insert, has, contains, IsMap, lookup-insert, insert-IsMap,
}
use turbograph.Prelude.Sorting.{sum_by}
use turbograph.Entity.{TextOps, Entity, is_blank}
use turbograph.Entity.Canonical.{
  Merging, entity_at, parent_of, descs_of, append_all, fold_variant, split_descs, note_descs,
  open_head, merge_entity, merge_entities,
}
use turbograph.Entity.Heads.{IsGrouped, eq_refl}

abbrev pub mentions_of : Option Entity → ℕ
mentions_of none = 0
mentions_of (some e) = e.mentions

-- how often the entities of a map have been mentioned, all together
unfoldable pub total_mentions : List (String × Entity) → ℕ
total_mentions [] = 0
total_mentions ((_, e) ∷ m) = e.mentions + total_mentions m

pub total_mentions-insert :
    (c : String) (e : Entity) (m : List (String × Entity))
    → total_mentions (insert c e m) + mentions_of (lookup c m) ≡ total_mentions m + e.mentions
unfolding total_mentions lookup insert
total_mentions-insert c e [] = omega arith
total_mentions-insert c e ((k, w) ∷ m) = elim (Bool-cases (str_eq k c)) [
  | inl same ↦ rw same (omega arith)
  | inr other ↦ rw other (omega (arith, total_mentions-insert c e m))
]

-- a node of the graph that is made
pub record IsHead (seen : List (String × List String)) (c : String) (e : Entity) : Type 0 where
  pub named : e.name ≡ c
  pub visible : is_blank c ≡ false
  pub told : has c seen ≡ true

pub record IsMerging (heads : List String) (s : Merging) : Type 0 where
  pub map : IsMap s.merged
  pub domain : (c : String) → has c s.merged ≡ contains heads c
  pub nodes : (c : String) (e : Entity) → lookup c s.merged ≡ some e → IsHead s.desc_seen c e

-- what the names of the graph have in common
abbrev pub IsName : List (String × Entity) → String → Type 0
IsName entities n = ((entity_at n entities).name ≡ n) × (is_blank n ≡ false)

module _ (t : TextOps) where
  has-note_descs :
      (c k : String) (ds : List String) (seen : List (String × List String))
      → has k seen ≡ true
      → has k (note_descs t c ds seen) ≡ true
  unfolding note_descs
  has-note_descs c k [] seen h = h
  has-note_descs c k (d ∷ ds) seen h =
      has-note_descs c k ds
        (if contains (descs_of c seen) d then seen else insert c (d ∷ descs_of c seen) seen)
        (ground (arith, lookup-insert c k (d ∷ descs_of c seen) seen))

  module _ (heads : List String) (s : Merging) (v : IsMerging heads s) (c : String) where
    -- a new head
    open_head-IsMerging :
        (entities : List (String × Entity))
        → (entity_at c entities).name ≡ c
        → is_blank c ≡ false
        → contains heads c ≡ false
        → IsMerging (heads ++ c ∷ []) (open_head t entities c s)
          × (lookup c (open_head t entities c s).merged ≡ some (entity_at c entities))
          × (total_mentions (open_head t entities c s).merged
              ≡ total_mentions s.merged + (entity_at c entities).mentions)
    unfolding open_head
    open_head-IsMerging entities named visible out =
        let e = entity_at c entities in
        let absent : has c s.merged ≡ false = v.domain c ∙ out in
        rw absent (
          record {
            map = insert-IsMap c e s.merged v.map;
            domain = λ k.
                ground (arith, lookup-insert c k e s.merged, contains-snoc heads c k, v.domain k);
            nodes = λ k f h. ground (
              arith,
              eq_iff c k,
              lookup-insert c k e s.merged,
              lookup-insert c k [] s.desc_seen,
              v.nodes k f,
            );
          },
          ground (arith, eq_refl c, lookup-insert c c e s.merged),
          ground (arith, total_mentions-insert c e s.merged),
        )

    -- a write to a head that is there
    write-IsMerging :
        (ds : List String) {m : Entity} (m' : Entity)
        → lookup c s.merged ≡ some m
        → m'.name ≡ m.name
        → IsMerging heads
            (record { merged = insert c m' s.merged; desc_seen = note_descs t c ds s.desc_seen })
          × (total_mentions (insert c m' s.merged) + m.mentions
              ≡ total_mentions s.merged + m'.mentions)
    write-IsMerging ds {m} m' there named = (
      record {
        map = insert-IsMap c m' s.merged v.map;
        domain = λ k. ground (arith, eq_iff c k, lookup-insert c k m' s.merged, v.domain k);
        nodes = λ k f h. ground (
          arith,
          eq_iff c k,
          lookup-insert c k m' s.merged,
          has-note_descs c k ds s.desc_seen,
          v.nodes k f,
          v.nodes c m,
        );
      },
      ground (arith, total_mentions-insert c m' s.merged),
    )

  entity_at_lem :
      (c : String) (m : List (String × Entity)) → has c m ≡ true → lookup c m ≡ some (entity_at c m)
  entity_at_lem c m h = ground arith

  module _ (entities : List (String × Entity)) (parent : List (String × String)) (n : String)
      (s : Merging) where
    -- the fold and the write, after the head has been copied
    merge_entity-IsMerging :
        (heads : List String)
        → IsMerging heads (open_head t entities (parent_of n parent) s)
        → has (parent_of n parent) (open_head t entities (parent_of n parent) s).merged ≡ true
        → IsMerging heads (merge_entity t entities parent n s)
          × (total_mentions (merge_entity t entities parent n s).merged
              ≡ total_mentions (open_head t entities (parent_of n parent) s).merged
                + (if str_eq n (parent_of n parent) then 0 else (entity_at n entities).mentions))
    unfolding merge_entity fold_variant
    merge_entity-IsMerging heads v there =
        let c = parent_of n parent in
        let s' = open_head t entities c s in
        let e = entity_at n entities in
        let m = entity_at c s'.merged in
        let folded = if str_eq n c then m else fold_variant e m in
        let m' : Entity = record folded { chunks = append_all folded.chunks e.chunks } in
        let (w, sum) =
          write-IsMerging heads s' v c (split_descs t e.description) m'
            (entity_at_lem c s'.merged there) (ground arith) in
        (w, ground arith)

    merge_entity_head :
        (heads : List String)
        → IsMerging heads s
        → parent_of n parent ≡ n
        → (entity_at n entities).name ≡ n
        → is_blank n ≡ false
        → contains heads n ≡ false
        → IsMerging (heads ++ n ∷ []) (merge_entity t entities parent n s)
          × (total_mentions (merge_entity t entities parent n s).merged
              ≡ total_mentions s.merged + (entity_at n entities).mentions)
    merge_entity_head heads v alone named visible out =
        let (v', there, sum) = open_head-IsMerging heads s v n entities named visible out in
        let (w, total) =
          merge_entity-IsMerging (heads ++ n ∷ []) (rw alone v') (rw (alone, there) refl) in
        (w, total ∙ rw (alone, eq_refl n) (omega (arith, sum)))

    merge_entity_variant :
        (heads : List String)
        → IsMerging heads s
        → contains heads (parent_of n parent) ≡ true
        → str_eq n (parent_of n parent) ≡ false
        → IsMerging heads (merge_entity t entities parent n s)
          × (total_mentions (merge_entity t entities parent n s).merged
              ≡ total_mentions s.merged + (entity_at n entities).mentions)
    merge_entity_variant heads v known other =
        let there : has (parent_of n parent) s.merged ≡ true =
          v.domain (parent_of n parent) ∙ known in
        let same : open_head t entities (parent_of n parent) s ≡ s =
          unfold open_head in rw there refl in
        let (w, total) = merge_entity-IsMerging heads (rw same v) (rw same there) in
        (w, total ∙ rw (same, other) refl)

  pub merge_entities-IsMerging :
      (entities : List (String × Entity)) (parent : List (String × String)) (ns heads : List String)
      (s : Merging)
      → All (IsName entities) ns
      → IsGrouped parent heads ns
      → IsMerging heads s
      → (hs : List String) × IsMerging hs (merge_entities t entities parent ns s)
        × ((c : String) → contains heads c ≡ true → contains hs c ≡ true)
        × All (λ n. contains hs (parent_of n parent) ≡ true) ns
        × (total_mentions (merge_entities t entities parent ns s).merged
            ≡ total_mentions s.merged + sum_by (λ n. (entity_at n entities).mentions) ns)
  unfolding merge_entities
  merge_entities-IsMerging entities parent [] heads s names g v =
      (heads, v, λ c h. h, tt, omega arith)
  merge_entities-IsMerging entities parent (n ∷ ns) heads s names (inl (own, out, g)) v =
      let alone : parent_of n parent ≡ n = rw (own, parent_of) refl in
      let (v', total) =
        merge_entity_head entities parent n s heads v alone names.0.0 names.0.1 out in
      let (hs, w, grown, all, sum) =
        merge_entities-IsMerging entities parent ns (heads ++ n ∷ []) _ names.1 g v' in
      (
        hs,
        w,
        λ c h. grown c (ground (arith, contains-snoc heads n c)),
        (rw alone (grown n (ground (arith, contains-snoc heads n n, eq_refl n))), all),
        omega (arith, sum, total),
      )
  merge_entities-IsMerging entities parent (n ∷ ns) heads s names (inr (c, has_c, there, other, g))
        v =
      let known : parent_of n parent ≡ c = rw (has_c, parent_of) refl in
      let (v', total) =
        merge_entity_variant entities parent n s heads v (rw known there) (rw known other) in
      let (hs, w, grown, all, sum) =
        merge_entities-IsMerging entities parent ns heads _ names.1 g v' in
      (hs, w, grown, (rw known (grown c there), all), omega (arith, sum, total))
