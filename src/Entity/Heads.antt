-- ===== src/Entity/Heads.antt =====
-- The map `parent` of Canonicalize: each name is a head, or a variant of a head that comes before.
use Prim.Native.String.{String}
use text.Mathlib.Text.{◌==◌ as str_eq}
use text.Mathlib.TextEquality.{eq_iff}
use turbograph.Prelude.{
  ℕ, ◌+◌, ◌≤◌, ◌≡◌, refl, ap, sym, subst, ◌∙◌, inl, inr, ◌⊎◌, true, false, List, [], ◌∷◌, ◌++◌,
  some, arith, if◌then◌else◌, ltb, Bool-cases,
}
use turbograph.Prelude.Keys.{string_key}
use turbograph.Prelude.Assoc.{lookup, insert, contains, lookup-insert}
use turbograph.Prelude.Sorting.{sum_by}
use turbograph.Entity.{is_blank}
use turbograph.Entity.Names.{Spelling, mergeable_names}
use turbograph.Entity.Canonical.{find_head, assign_heads}

pub eq_refl : (s : String) → str_eq s s ≡ true
eq_refl s = (eq_iff s s).1 refl

-- how often a key stands in a list
abbrev pub occurrences : String → List String → ℕ
occurrences k = sum_by (λ x. if str_eq x k then 1 else 0)

pub contains-occurrences :
    (k : String) (xs : List String) → contains xs k ≡ ltb 0 (occurrences k xs)
unfolding contains
contains-occurrences k [] = ground arith
contains-occurrences k (x ∷ xs) = ground (arith, contains-occurrences k xs)

pub occurrences-snoc :
    (xs : List String) (n k : String)
    → occurrences k (xs ++ n ∷ []) ≡ occurrences k xs + (if str_eq n k then 1 else 0)
occurrences-snoc [] n k = omega arith
occurrences-snoc (x ∷ xs) n k = omega (arith, occurrences-snoc xs n k)

-- What the loop over the names leaves of the names `ns`, where `heads` are the heads so far.
abbrev pub IsGrouped : List (String × String) → List String → List String → Type 0
IsGrouped parent heads [] = Unit
IsGrouped parent heads (n ∷ ns) =
    ((lookup n parent ≡ some n)
      × (contains heads n ≡ false)
      × IsGrouped parent (heads ++ n ∷ []) ns)
    ⊎ ((c : String) × (lookup n parent ≡ some c)
        × (contains heads c ≡ true)
        × (str_eq n c ≡ false)
        × IsGrouped parent heads ns)

apart :
    (n c : String) (heads : List String)
    → contains heads n ≡ false
    → contains heads c ≡ true
    → str_eq n c ≡ false
apart n c heads out there = elim (Bool-cases (str_eq n c)) [
  | inl same ↦ absurd (cc (ap (contains heads) ((eq_iff n c).0 same)))
  | inr differ ↦ differ
]

module _ (sp : Spelling) where
  find_head_lem :
      (n : String) (heads : List String)
      → is_blank (find_head sp n heads) ≡ false
      → contains heads (find_head sp n heads) ≡ true
  unfolding find_head contains
  find_head_lem n [] h = ground arith
  find_head_lem n (x ∷ heads) h = elim (Bool-cases (mergeable_names sp n x)) [
    | inl here ↦ rw (here, eq_refl x)
    | inr later ↦ rw (later, find_head_lem n heads (rw (later, find_head) at h)) (ground arith)
  ]

  module _ (n : String) (ns heads : List String) (parent : List (String × String)) where
    assign_alone :
        is_blank (find_head sp n heads) ≡ true
        → assign_heads sp (n ∷ ns) heads parent
          ≡ assign_heads sp ns (heads ++ n ∷ []) (insert n n parent)
    unfolding assign_heads
    assign_alone h = rw h refl

    assign_variant :
        is_blank (find_head sp n heads) ≡ false
        → assign_heads sp (n ∷ ns) heads parent
          ≡ assign_heads sp ns heads (insert n (find_head sp n heads) parent)
    unfolding assign_heads
    assign_variant h = rw h refl

  -- the parent of a name that is not among the rest is settled
  lookup-assign_heads :
      (k : String) (ns heads : List String) (parent : List (String × String))
      → contains ns k ≡ false
      → lookup k (assign_heads sp ns heads parent) ≡ lookup k parent
  unfolding contains
  lookup-assign_heads k [] heads parent h = unfold assign_heads in refl
  lookup-assign_heads k (n ∷ ns) heads parent h =
      elim (Bool-cases (is_blank (find_head sp n heads))) [
        | inl alone ↦ rw (assign_alone n ns heads parent alone) (
            lookup-assign_heads k ns (heads ++ n ∷ []) (insert n n parent) (ground arith)
            ∙ lookup-insert n k n parent
            ∙ ground arith)
        | inr variant ↦ rw (assign_variant n ns heads parent variant) (
            lookup-assign_heads k ns heads (insert n (find_head sp n heads) parent) (ground arith)
            ∙ lookup-insert n k (find_head sp n heads) parent
            ∙ ground arith)
      ]

  lookup-insert_self :
      (n c : String) (parent : List (String × String)) → lookup n (insert n c parent) ≡ some c
  lookup-insert_self n c parent = lookup-insert n n c parent ∙ ground (arith, eq_refl n)

  pub assign_heads-IsGrouped :
      (ns heads : List String) (parent : List (String × String))
      → ((k : String) → occurrences k ns + occurrences k heads ≤ 1)
      → IsGrouped (assign_heads sp ns heads parent) heads ns
  assign_heads-IsGrouped [] heads parent h = tt
  assign_heads-IsGrouped (n ∷ ns) heads parent h =
      let last : contains ns n ≡ false =
        ground (arith, eq_refl n, contains-occurrences n ns, h n) in
      let first : contains heads n ≡ false =
        ground (arith, eq_refl n, contains-occurrences n heads, h n) in
      let c = find_head sp n heads in
      let grouped = λ (par : List (String × String)). IsGrouped par heads (n ∷ ns) in
      elim (Bool-cases (is_blank c)) [
        | inl alone ↦ subst grouped (sym (assign_alone n ns heads parent alone)) (
            inl (
              lookup-assign_heads n ns (heads ++ n ∷ []) (insert n n parent) last
                  ∙ lookup-insert_self n n parent,
              first,
              assign_heads-IsGrouped ns (heads ++ n ∷ []) (insert n n parent)
                  (λ k. omega (arith, h k, occurrences-snoc heads n k)),
            ))
        | inr variant ↦
            let there = find_head_lem n heads variant in
            subst grouped (sym (assign_variant n ns heads parent variant)) (
              inr (
                c,
                lookup-assign_heads n ns heads (insert n c parent) last
                    ∙ lookup-insert_self n c parent,
                there,
                apart n c heads first there,
                assign_heads-IsGrouped ns heads (insert n c parent) (λ k. omega (arith, h k)),
              ))
      ]
