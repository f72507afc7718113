-- ===== src/Rag/Chunkers/Visible.antt =====
-- Empty pieces and packFragments of rag/chunkers.go.
use Prim.Native.String.{String}
use text.Mathlib.Text.{◌==◌ as str_eq}
use turbograph.Prelude.{
  ℕ, ◌+◌, ◌≡◌, true, ◌&&◌, List, [], ◌∷◌, ltb, ◌==◌, arith, All, All-append, if_cases,
}
use turbograph.Rag.Chunkers.{
  Strings, Piece, plain, word_count, is_visible, flush_pack, Packing, start_piece, pack_one,
  pack_all, pack_fragments,
}

abbrev pub AreVisible : List Piece → Type 0
AreVisible = All (λ p. is_visible p ≡ true)

module _ (o : Strings) where
  flush_pack-AreVisible :
      (cur : List String) (words : ℕ) (out : List Piece)
      → AreVisible out
      → AreVisible (flush_pack o cur words out)
  unfolding flush_pack
  flush_pack-AreVisible cur words out h =
      let t = o.trim (o.join cur " ") in
      if_cases AreVisible (words == 0) (λ _. h)
        λ _.
          if_cases AreVisible (str_eq t "") (λ _. h)
            λ full. All-append (λ p. is_visible p ≡ true) out (plain t ∷ []) h (ground arith, tt)

  pack_one-AreVisible :
      (target overlap : ℕ) (f : String) (s : Packing)
      → AreVisible s.out
      → AreVisible (pack_one o target overlap f s).out
  unfolding pack_one start_piece
  pack_one-AreVisible target overlap f s h =
      if_cases (λ (t : Packing). AreVisible t.out)
        (ltb 0 s.words && ltb target (s.words + word_count o f))
        (λ _. flush_pack-AreVisible s.cur s.words s.out h) (λ _. h)

  pack_all-AreVisible :
      (target overlap : ℕ) (fs : List String) (s : Packing)
      → AreVisible s.out
      → AreVisible (pack_all o target overlap fs s)
  unfolding pack_all
  pack_all-AreVisible target overlap [] s h = flush_pack-AreVisible s.cur s.words s.out h
  pack_all-AreVisible target overlap (f ∷ fs) s h =
      pack_all-AreVisible target overlap fs (pack_one o target overlap f s)
        (pack_one-AreVisible target overlap f s h)

  -- packFragments, which the recursive, sentence and markdown strategies end in, makes no empty
  -- piece, whatever the fragments are.
  pub pack_fragments-AreVisible :
      (frags : List String) (target overlap : ℕ)
      → AreVisible (pack_fragments o frags target overlap)
  unfolding pack_fragments
  pack_fragments-AreVisible frags target overlap = pack_all-AreVisible target overlap frags _ tt
