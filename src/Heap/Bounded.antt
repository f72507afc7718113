-- ===== src/Heap/Bounded.antt =====
-- The heaps that keep the best hits of a scan (index/topheap.go, topK of lexical/bm25.go).
use mathlib.Core.List.{append-nil, append_assoc}
use turbograph.Prelude.{
  subst, ℕ, suc, ◌+◌, ◌<◌, ◌≡◌, refl, sym, Bool, true, false, not, List, [], ◌∷◌, ◌++◌, Option,
  none, some, length, get_elem?, min, arith, ltb, if◌then◌else◌, if_cases, length-append,
  length-set, get_elem?-lt, All, All-map,
}
use turbograph.Heap.{push, replace_root, push_bounded, push_all}
use turbograph.Heap.Array.{nth, count, SameItems, count-append, count-set}
use turbograph.Heap.Order.{IsOrder, IsHeap}
use turbograph.Heap.Ops.{push-IsSorting, replace_root-IsSorting, root_first}

module _ {ℓ} {A : Type ℓ} (worse : A → A → Bool) where
  -- the test of `push`: the entry above stays unless the one below is worse
  abbrev pub keeps : A → A → Bool
  keeps p c = not (worse c p)

  -- No entry of `kept` is worse than the hit.
  abbrev pub IsBeaten : List A → A → Type 0
  IsBeaten kept x = count (λ y. worse y x) kept ≡ 0

  -- `kept` holds as many of the hits as fit, and none that is worse than one that it lacks.
  pub record IsBest (size : ℕ) (hits kept dropped : List A) : Type ℓ where
    pub items : SameItems (kept ++ dropped) hits
    pub length_kept : length kept ≡ min size (length hits)
    pub beaten : All (IsBeaten kept) dropped

  module _ (order : IsOrder keeps worse) (z : A) where
    none_pass :
        (q : A → Bool) (a : List A)
        → ((i : ℕ) → i < length a → q (nth z a i) ≡ false)
        → count q a ≡ 0
    none_pass q [] h = refl
    none_pass q (x ∷ a) h = ground (arith, h 0, none_pass q a (λ i p. h (suc i) (omega arith)))

    root_fails : (q : A → Bool) (a : List A) → count q a ≡ 0 → 0 < length a → q (nth z a 0) ≡ false
    root_fails q [] h p = absurd (omega arith)
    root_fails q (x ∷ a) h p = ground arith

    record IsScanning (size : ℕ) (hits kept dropped : List A) : Type ℓ where
      heap : IsHeap worse z kept
      best : IsBest size hits kept dropped
      full : 0 < length dropped → length kept ≡ size

    push_step :
        (size : ℕ) (x : A) (hits kept dropped : List A)
        → IsScanning size hits kept dropped
        → length kept < size
        → IsScanning size (hits ++ x ∷ []) (push keeps x kept) dropped
    push_step size x hits kept [] v room =
        let s = push-IsSorting keeps worse order z x kept v.heap in
        record {
          heap = s.heap;
          best = record {
            items = λ p. omega (
              arith,
              s.items p,
              v.best.items p,
              count-append p (push keeps x kept) [],
              count-append p kept [],
              count-append p kept (x ∷ []),
              count-append p hits (x ∷ []),
            );
            length_kept = omega (
              arith,
              s.size,
              length-append kept (x ∷ []),
              length-append hits (x ∷ []),
              v.best.length_kept,
            );
            beaten = tt;
          };
          full = λ p. absurd (omega arith);
        }
    push_step size x hits kept (d ∷ dropped) v room = absurd (omega (arith, v.full (omega arith)))

    -- a hit that is dropped, or the root that it pushes out
    replace_step :
        (size : ℕ) (x root : A) (hits kept dropped : List A)
        → IsScanning size hits kept dropped
        → length kept ≡ size
        → get_elem? kept 0 ≡ some root
        → worse root x ≡ true
        → IsScanning size (hits ++ x ∷ []) (replace_root worse x kept) (root ∷ dropped)
    replace_step size x root hits kept dropped v fits found below =
        let pos : 0 < length kept = ground (arith, get_elem?-lt kept 0) in
        let s = replace_root-IsSorting keeps worse order z x kept pos v.heap in
        let up : worse x root ≡ false = order.asym root x below in
        let rootz : nth z kept 0 ≡ root = ground arith in
        let trade : (q : A → Bool)
            → count q (replace_root worse x kept) + (if q root then 1 else 0)
              ≡ count q kept + (if q x then 1 else 0) =
          λ q. omega (arith, s.items q, count-set q kept 0 root x found) in
        record {
          heap = s.heap;
          best = record {
            items = λ p. omega (
              arith,
              trade p,
              v.best.items p,
              count-append p (replace_root worse x kept) (root ∷ dropped),
              count-append p kept dropped,
              count-append p hits (x ∷ []),
            );
            length_kept = omega (
              arith,
              s.size,
              length-set kept 0 x,
              length-append hits (x ∷ []),
              v.best.length_kept,
            );
            beaten = (
              ground (
                arith,
                trade (λ y. worse y root),
                none_pass (λ y. worse y root) kept
                    (λ i p. ground (arith, rootz, root_first keeps worse order z kept i v.heap p)),
              ),
              All-map dropped
                  (λ d b. ground (
                    arith,
                    b,
                    trade (λ y. worse y d),
                    root_fails (λ y. worse y d) kept b pos,
                    order.negtrans d root x,
                  ))
                  v.best.beaten,
            );
          };
          full = λ p. omega (arith, s.size, length-set kept 0 x);
        }

    drop_step :
        (size : ℕ) (x : A) (hits kept dropped : List A)
        → IsScanning size hits kept dropped
        → length kept ≡ size
        → IsBeaten kept x
        → IsScanning size (hits ++ x ∷ []) kept (x ∷ dropped)
    drop_step size x hits kept dropped v fits beaten = record {
      heap = v.heap;
      best = record {
        items = λ p. omega (
          arith,
          v.best.items p,
          count-append p kept (x ∷ dropped),
          count-append p kept dropped,
          count-append p hits (x ∷ []),
        );
        length_kept = omega (arith, v.best.length_kept, length-append hits (x ∷ []));
        beaten = (beaten, v.best.beaten);
      };
      full = λ p. fits;
    }

    -- what one hit adds to the dropped ones
    push_bounded_step :
        (size : ℕ) (x : A) (hits kept dropped : List A)
        → IsScanning size hits kept dropped
        → (d : List A) × IsScanning size (hits ++ x ∷ []) (push_bounded worse size x kept) d
    unfolding push_bounded
    push_bounded_step size x hits kept dropped v =
        if_cases (λ k. (d : List A) × IsScanning size (hits ++ x ∷ []) k d) (ltb (length kept) size)
          (λ room. (dropped, push_step size x hits kept dropped v (ground arith)))
          (λ full.
            let fits : length kept ≡ size = ground (arith, v.best.length_kept) in
            with_root fits (get_elem? kept 0) refl)
      where
        with_root :
            length kept ≡ size
            → (r : Option A) → get_elem? kept 0 ≡ r
            → (d : List A) × IsScanning size
                (hits ++ x ∷ [])
                (elim r [
                  | none ↦ kept
                  | some root ↦ if worse root x then replace_root worse x kept else kept
                ])
                d
        with_root fits none missing = (
          x ∷ dropped,
          drop_step size x hits kept dropped v fits (
              none_pass (λ y. worse y x) kept
                (λ i p. absurd (ground (arith, get_elem?-lt kept 0)))),
        )
        with_root fits (some root) found =
            if_cases (λ k. (d : List A) × IsScanning size (hits ++ x ∷ []) k d) (worse root x)
              (λ below.
                (root ∷ dropped, replace_step size x root hits kept dropped v fits found below))
              (λ other. (
                x ∷ dropped,
                drop_step size x hits kept dropped v fits (
                    none_pass (λ y. worse y x) kept
                      (λ i p.
                        let rootz : nth z kept 0 ≡ root = ground arith in
                        ground (
                          arith,
                          root_first keeps worse order z kept i v.heap p,
                          order.negtrans x root (nth z kept i),
                        ))),
              ))

    push_all_steps :
        (size : ℕ) (xs hits kept dropped : List A)
        → IsScanning size hits kept dropped
        → (d : List A) × IsScanning size (hits ++ xs) (push_all worse size xs kept) d
    unfolding push_all
    push_all_steps size [] hits kept dropped v =
        (dropped, subst (λ h. IsScanning size h kept dropped) (sym (append-nil hits)) v)
    push_all_steps size (x ∷ xs) hits kept dropped v =
        let (d, w) = push_bounded_step size x hits kept dropped v in
        let (e, u) = push_all_steps size xs (hits ++ x ∷ []) (push_bounded worse size x kept) d w in
        (
          e,
          subst (λ h. IsScanning size h (push_all worse size xs (push_bounded worse size x kept)) e)
              (append_assoc hits (x ∷ []) xs) u,
        )

    -- A bounded heap that is given all hits keeps as many of them as fit, and no kept hit is worse
    -- than one that it lacks; the kept and the dropped hits together are the hits. Assumed: the
    -- test is a strict weak order.
    pub push_all-IsBest :
        (size : ℕ) (hits : List A) → (d : List A) × IsBest size hits (push_all worse size hits []) d
    push_all-IsBest size hits =
        let (d, s) = push_all_steps size hits [] [] [] (record {
          heap = λ c p q. absurd (omega arith);
          best = record { items = λ p. refl; length_kept = omega arith; beaten = tt };
          full = λ p. absurd (omega arith);
        }) in
        (d, s.best)
