-- ===== src/Graph/Compact.antt =====
-- compact of graph/community.go.
use mathlib.Core.List.{append-nil, append_assoc}
use turbograph.Prelude.{
  Bool-cases, ℕ, suc, ◌<◌, ◌≡◌, ◌↔◌, refl, sym, ◌∙◌, inl, inr, true, ◌||◌, ◌&&◌, List, [], ◌∷◌,
  ◌++◌, none, some, length, get_elem?, ltb, ◌==◌, arith, Option-cases, length-append, length-set,
  is_some, subst, get_elem?-set, get_elem?-snoc, get_elem?-lt,
}
use turbograph.Prelude.Keys.{nat_key}
use turbograph.Prelude.Assoc.{lookup, contains, holds, lookup-insert}
use turbograph.Graph.{Compacting, add_member, assign, compact_from, compact, label, members_of}

abbrev group : List (List ℕ) → ℕ → List ℕ
group ms c = elim (get_elem? ms c) [ none ↦ [] | some m ↦ m ]

-- What the loop of compact has done for the nodes whose labels are `done`.
record IsCompacting (done : List ℕ) (s : Compacting) : Type 0 where
  size : length s.out ≡ length done
  range : (lab c : ℕ) → lookup lab s.remap ≡ some c → c < length s.members
  one :
      (lab other c : ℕ) → lookup lab s.remap ≡ some c → lookup other s.remap ≡ some c → lab ≡ other
  known : (i lab : ℕ) → get_elem? done i ≡ some lab → is_some (lookup lab s.remap) ≡ true
  listed : (i c : ℕ) → contains (group s.members c) i ≡ holds (λ k. k == c) (get_elem? s.out i)
  used : (c : ℕ) → c < length s.members → (i : ℕ) × (get_elem? s.out i ≡ some c)
  named : (i lab : ℕ) → get_elem? done i ≡ some lab → get_elem? s.out i ≡ lookup lab s.remap

length-add_member : (c node : ℕ) (ms : List (List ℕ)) → length (add_member c node ms) ≡ length ms
unfolding add_member
length-add_member c node ms = elim (Option-cases (get_elem? ms c)) [
  | inl missing ↦ ground arith
  | inr (m, found) ↦ ground (arith, length-set ms c (m ++ node ∷ []))
]

contains-snoc : (xs : List ℕ) (x y : ℕ) → contains (xs ++ x ∷ []) y ≡ (contains xs y || x == y)
unfolding contains
contains-snoc [] x y = ground arith
contains-snoc (z ∷ xs) x y = ground (arith, contains-snoc xs x y)

group-add_member :
    (c d node i : ℕ) (ms : List (List ℕ))
    → c < length ms
    → contains (group (add_member c node ms) d) i
      ≡ (contains (group ms d) i || ((c == d) && (node == i)))
unfolding add_member contains
group-add_member c d node i ms h = elim (Option-cases (get_elem? ms c)) [
  | inl missing ↦ absurd (ground (arith, get_elem?-lt ms c))
  | inr (m, found) ↦ ground (arith, get_elem?-set ms c d (m ++ node ∷ []) h, contains-snoc m node i)
]

-- a node has the number
abbrev HasMember : ℕ → List ℕ → Type 0
HasMember c out = (i : ℕ) × (get_elem? out i ≡ some c)

-- a node with a number keeps it when one more node gets a number
still : (s : Compacting) (c d : ℕ) → HasMember d s.out → HasMember d (s.out ++ c ∷ [])
still s c d (i, found) = (i, ground (arith, found, get_elem?-snoc s.out c i, get_elem?-lt s.out i))

out-assign :
    (node lab : ℕ) (s : Compacting) (c : ℕ)
    → lookup lab s.remap ≡ some c
    → (assign node lab s).out ≡ s.out ++ c ∷ []
unfolding assign
out-assign node lab s c old = cc

assign-IsCompacting :
    (done : List ℕ) (lab : ℕ) (s : Compacting)
    → IsCompacting done s
    → IsCompacting (done ++ lab ∷ []) (assign (length done) lab s)
unfolding assign
assign-IsCompacting done lab s v = elim (Option-cases (lookup lab s.remap)) [
  | inl new ↦
      let c = length s.members in
      let grown : (assign (length done) lab s).out ≡ s.out ++ c ∷ [] = cc in
      record {
        size = ground (arith, v.size, length-append s.out (c ∷ []), length-append done (lab ∷ []));
        range = λ l k h. ground (
          arith,
          v.range l k,
          lookup-insert lab l c s.remap,
          length-add_member c (length done) (s.members ++ [] ∷ []),
          length-append s.members ([] ∷ []),
        );
        one = λ l m k h g. ground (
          arith,
          v.one l m k,
          lookup-insert lab l c s.remap,
          lookup-insert lab m c s.remap,
          v.range l k,
          v.range m k,
        );
        listed = λ i d. ground (
          arith,
          group-add_member c d (length done) i (s.members ++ [] ∷ [])
              (ground (arith, length-append s.members ([] ∷ []))),
          get_elem?-snoc s.members [] d,
          get_elem?-snoc s.out c i,
          v.listed i d,
          v.size,
          get_elem?-lt s.out i,
          get_elem?-lt s.members d,
        );
        used = λ d h. subst (HasMember d) (sym grown) (elim (Bool-cases (d == c)) [
          | inl last ↦ (length s.out, ground (arith, get_elem?-snoc s.out c (length s.out), last))
          | inr old ↦ still s c d (
              v.used d (
                ground (
                  arith,
                  old,
                  h,
                  length-add_member c (length done) (s.members ++ [] ∷ []),
                  length-append s.members ([] ∷ []),
                )))
        ]);
        known = λ i l h.
            ground (arith, get_elem?-snoc done lab i, lookup-insert lab l c s.remap, v.known i l);
        named = λ i l h. ground (
          arith,
          get_elem?-snoc done lab i,
          get_elem?-snoc s.out c i,
          lookup-insert lab l c s.remap,
          v.known i l,
          v.named i l,
          v.size,
          get_elem?-lt done i,
        );
      }
  | inr (c, old) ↦ record {
    size = ground (arith, v.size, length-append s.out (c ∷ []), length-append done (lab ∷ []));
    range = λ l k h. ground (arith, v.range l k, length-add_member c (length done) s.members);
    one = λ l m k h g. ground (arith, v.one l m k);
    listed = λ i d. ground (
      arith,
      group-add_member c d (length done) i s.members (v.range lab c old),
      get_elem?-snoc s.out c i,
      v.listed i d,
      v.size,
      get_elem?-lt s.out i,
    );
    used = λ d h.
        subst (HasMember d) (sym (out-assign (length done) lab s c old))
          (still s c d (v.used d (ground (arith, h, length-add_member c (length done) s.members))));
    known = λ i l h. ground (arith, get_elem?-snoc done lab i, v.known i l);
    named = λ i l h. ground (
      arith,
      get_elem?-snoc done lab i,
      get_elem?-snoc s.out c i,
      v.named i l,
      v.size,
      get_elem?-lt done i,
    );
  }
]

compact_from-IsCompacting :
    (done labs : List ℕ) (s : Compacting)
    → IsCompacting done s
    → IsCompacting (done ++ labs) (compact_from (length done) labs s)
unfolding compact_from
compact_from-IsCompacting done [] s v = subst (λ d. IsCompacting d s) (sym (append-nil done)) v
compact_from-IsCompacting done (lab ∷ labs) s v =
    let next = assign (length done) lab s in
    subst (λ d. IsCompacting d (compact_from (suc (length done)) labs next))
      (append_assoc done (lab ∷ []) labs)
      (subst (λ n. IsCompacting ((done ++ lab ∷ []) ++ labs) (compact_from n labs next))
        (length-append done (lab ∷ []) ∙ omega arith)
        (compact_from-IsCompacting (done ++ lab ∷ []) labs next (assign-IsCompacting done lab s v)))

start-IsCompacting : IsCompacting [] (record { remap = []; out = []; members = [] })
unfolding lookup contains
start-IsCompacting = record {
  size = refl;
  range = λ l c h. ground arith;
  one = λ l m c h g. ground arith;
  known = λ i l h. ground arith;
  listed = λ i c. refl;
  named = λ i l h. ground arith;
  used = λ c h. absurd (omega arith);
}

-- Two nodes have the same number exactly if they have the same label.
compact_same :
    (labs : List ℕ) (i j a b : ℕ)
    → get_elem? labs i ≡ some a
    → get_elem? labs j ≡ some b
    → (label (compact labs) i ≡ label (compact labs) j) ↔ (a ≡ b)
unfolding compact label
compact_same labs i j a b hi hj =
    let s = compact_from 0 labs (record { remap = []; out = []; members = [] }) in
    let v : IsCompacting labs s = compact_from-IsCompacting [] labs _ start-IsCompacting in
    elim (Option-cases (lookup a s.remap)) [
      | inl missing ↦ absurd (ground (arith, v.known i a hi))
      | inr (c, found) ↦ ground (arith, v.named i a hi, v.named j b hj, v.known j b hj, v.one a b c)
    ]

-- compact numbers the communities from 0 without gaps: exactly the nodes have a number, two nodes
-- have the same one exactly if they have the same label, the numbers of the nodes are exactly
-- those below the number of communities, and the members of a community are exactly the nodes with
-- its number.
pub compact_exact :
    (labs : List ℕ)
    → ((i : ℕ) → is_some (label (compact labs) i) ≡ ltb i (length labs))
      × ((i j a b : ℕ)
          → get_elem? labs i ≡ some a
          → get_elem? labs j ≡ some b
          → (label (compact labs) i ≡ label (compact labs) j) ↔ (a ≡ b))
      × ((i c : ℕ) → label (compact labs) i ≡ some c → c < (compact labs).num)
      × ((c : ℕ) → c < (compact labs).num → (i : ℕ) × (label (compact labs) i ≡ some c))
      × ((i c : ℕ)
          → contains (members_of (compact labs) c) i ≡ holds (λ k. k == c) (label (compact labs) i))
unfolding compact label members_of
compact_exact labs =
    let s = compact_from 0 labs (record { remap = []; out = []; members = [] }) in
    let v : IsCompacting labs s = compact_from-IsCompacting [] labs _ start-IsCompacting in
    (
      λ i. ground (arith, get_elem?-lt s.out i, v.size),
      compact_same labs,
      λ i c h. below i c v h,
      v.used,
      λ i c. ground (arith, v.listed i c, get_elem?-lt s.members c),
    )
  where
    below :
        {s : Compacting} (i c : ℕ)
        → IsCompacting labs s
        → get_elem? s.out i ≡ some c
        → c < length s.members
    below {s} i c v h = elim (Option-cases (get_elem? labs i)) [
      | inl missing ↦ absurd (ground (arith, get_elem?-lt s.out i, get_elem?-lt labs i, v.size))
      | inr (lab, found) ↦ v.range lab c (sym (v.named i lab found) ∙ h)
    ]
