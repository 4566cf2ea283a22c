-- ===== src/Container/Span/Writes.antt =====
-- Spans that are cut, and writes through them.
use v1util.Common.{
  ℕ, zero, suc, ◌+◌, ◌-◌, ◌^◌, ◌<◌, ◌≤◌, ◌≡◌, ◌==◌, refl, ap, ap₂, set, ltb, length, if◌then◌else◌,
  Bool, ◌&&◌, sym, ◌∙◌, some, none, Option, List, [], ◌∷◌, ◌>>=◌, leb, v1_assert, true, false,
  Option-cases, arith, inl, inr,
}
use v1util.Common.Word.{add64}
use v1util.Container.ArrayView.{
  ArrayView, from_pointers, cells, contents, Slice, subview, firsts, skips, lasts, shrinks,
  subviews, cut, cut_all, spec_cut_all,
}
use v1util.Container.ArrayView.Slices.{cut_all-contents, length-cells}
use native.Mathlib.Decide.{dec_lt}
use v1util.Container.Span.{
  Span, span_of_pointers, first, skip, last, shrink, subspan, view, store, at, cut_span,
  cut_span_all,
}

abbrev seen : Option Span → Option ArrayView
seen o = o >>= λ s. some (view s)

asserted :
    (b : Bool) (s : Span)
    → seen (v1_assert b >>= λ _. some s) ≡ (v1_assert b >>= λ _. some (view s))
asserted false s = refl
asserted true s = refl

guarded :
    (b : Bool) (i_begin i_end : ℕ)
    → seen (v1_assert b >>= λ _. span_of_pointers i_begin i_end)
      ≡ (v1_assert b >>= λ _. from_pointers i_begin i_end)
unfolding span_of_pointers from_pointers view
guarded false i_begin i_end = refl
guarded true i_begin i_end = asserted (leb i_begin i_end) (record { begin = i_begin; end = i_end })

cut_span-view : (c : Slice) (s : Span) → seen (cut_span c s) ≡ cut c (view s)
unfolding cut_span cut view v1util.Container.Span.size v1util.Container.ArrayView.size
    v1util.Container.Span.first v1util.Container.ArrayView.first v1util.Container.Span.skip
    v1util.Container.ArrayView.skip v1util.Container.Span.last v1util.Container.ArrayView.last
    v1util.Container.Span.shrink v1util.Container.ArrayView.shrink subspan subview
cut_span-view (firsts n) s = guarded (leb n (s.end - s.begin)) s.begin (s.begin + n)
cut_span-view (skips n) s = guarded (leb n (s.end - s.begin)) (s.begin + n) s.end
cut_span-view (lasts n) s =
    guarded (leb n (s.end - s.begin)) (s.begin + (s.end - s.begin) - n) s.end
cut_span-view (shrinks n) s = guarded (leb n (s.end - s.begin)) s.begin (s.end - n)
cut_span-view (subviews start n) s =
    guarded
      (leb start (s.end - s.begin)
        && leb n (s.end - s.begin)
        && leb (add64 start n) (s.end - s.begin))
      (s.begin + start) (s.begin + start + n)

cut_span_all-view : (cs : List Slice) (s : Span) → seen (cut_span_all cs s) ≡ cut_all cs (view s)
unfolding cut_span_all cut_all
cut_span_all-view [] s = refl
cut_span_all-view (c ∷ cs) s = elim (Option-cases (cut_span c s)) [
  | inl e ↦ let e' : cut c (view s) ≡ none = sym (cut_span-view c s) ∙ ap seen e in rw (e, e')
  | inr (s', e) ↦
      let e' : cut c (view s) ≡ some (view s') = sym (cut_span-view c s) ∙ ap seen e in
      rw (e, e') (cut_span_all-view cs s')
]

module _ {A : Type 0} (memory : ℕ → A) where
  seen-contents :
      (o : Option Span)
      → (seen o >>= λ v. some (contents memory v)) ≡ (o >>= λ s. some (contents memory (view s)))
  seen-contents none = refl
  seen-contents (some s) = refl

  -- For a span of fewer than 2 ^ 63 elements and any chain of `first`, `skip`, `last`, `shrink` and
  -- `subspan`: what the resulting span shows is what the same cuts leave of the sequence, and an
  -- assertion fires exactly where a cut asks for more elements than there are.
  pub cut_span_all-contents :
      (cs : List Slice) (s : Span)
      → s.begin ≤ s.end
      → s.end - s.begin < 2 ^ 63
      → (cut_span_all cs s >>= λ s'. some (contents memory (view s')))
        ≡ spec_cut_all cs (contents memory (view s))
  unfolding view
  cut_span_all-contents cs s h small =
      sym (seen-contents (cut_span_all cs s))
      ∙ ap (λ o. o >>= λ v. some (contents memory v)) (cut_span_all-view cs s)
      ∙ cut_all-contents memory cs (view s) h small

  -- A write before the cells leaves them.
  store-above : (a b n : ℕ) (x : A) → a < b → cells (store a x memory) b n ≡ cells memory b n
  unfolding store
  store-above a b zero x h = refl
  store-above a b (suc n) x h =
      let e : (b == a) ≡ false = ground arith in
      ap₂ (◌∷◌) (rw e) (store-above a (b + 1) n x (omega arith))

  store-cells :
      (a i n : ℕ) (x : A) → i < n → cells (store (a + i) x memory) a n ≡ set (cells memory a n) i x
  unfolding store
  store-cells a i zero x h = absurd (omega arith)
  store-cells a zero (suc n) x h =
      let e : (a == a + 0) ≡ true = ground arith in
      ap₂ (◌∷◌) (rw e) (store-above (a + 0) (a + 1) n x (omega arith))
  store-cells a (suc i) (suc n) x h =
      let e : (a == a + suc i) ≡ false = ground arith in
      let shift : a + suc i ≡ a + 1 + i = omega arith in
      ap₂ (◌∷◌) (rw e) (
        ap (λ k. cells (store k x memory) (a + 1) n) shift
        ∙ store-cells (a + 1) i n x (omega arith))

  -- `operator[]` refers to an element exactly where its index is below the size, and a write through the
  -- reference replaces that element in what the span shows, and no other.
  pub at-store :
      (s : Span) (offset : ℕ) (x : A)
      → s.begin ≤ s.end
      → (at offset s >>= λ a. some (contents (store a x memory) (view s))) ≡ (
          if ltb offset (length (contents memory (view s)))
          then some (set (contents memory (view s)) offset x)
          else none)
  unfolding at view
  at-store s offset x h = elim (dec_lt offset (s.end - s.begin)) [
    | yes k ↦
        let e : ltb (s.begin + offset) s.end ≡ true = ground arith in
        let e' : ltb offset (s.end - s.begin) ≡ true = ground arith in
        rw (e, length-cells memory s.begin (s.end - s.begin), e')
          (ap some (store-cells s.begin offset (s.end - s.begin) x k))
    | no k ↦
        let e : ltb (s.begin + offset) s.end ≡ false = ground arith in
        let e' : ltb offset (s.end - s.begin) ≡ false = ground arith in
        rw (e, length-cells memory s.begin (s.end - s.begin), e')
  ]
