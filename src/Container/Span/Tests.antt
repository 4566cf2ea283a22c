-- ===== src/Container/Span/Tests.antt =====
-- Spans of a memory that holds at each address the address itself.
use v1util.Common.{
  ℕ, ◌≡◌, refl, some, none, List, [], ◌∷◌, set, length, ltb, if◌then◌else◌, ◌>>=◌, arith,
}
use v1util.Container.ArrayView.{
  contents, Slice, firsts, skips, lasts, shrinks, subviews, spec_cut_all,
}
use v1util.Container.Span.{Span, view, at, store, cut_span_all}
use v1util.Container.Span.Writes.{cut_span_all-contents, at-store}

abbrev memory : ℕ → ℕ
memory a = a

abbrev span : Span
span = record { begin = 100; end = 110 }

abbrev cuts : List Slice
cuts = skips 2 ∷ shrinks 1 ∷ subviews 1 5 ∷ lasts 3 ∷ firsts 2 ∷ []

at-run : (at 9 span ≡ some 109) × (at 10 span ≡ none)
unfolding at
at-run = (refl, refl)

cut_span_all-contents_example :
    (cut_span_all cuts span >>= λ s. some (contents memory (view s)))
    ≡ spec_cut_all cuts (contents memory (view span))
cut_span_all-contents_example = cut_span_all-contents memory cuts span (omega arith) (omega arith)

at-store_run : (at 9 span >>= λ a. some (contents (store a 7 memory) (view span))) ≡ (
    if ltb 9 (length (contents memory (view span)))
    then some (set (contents memory (view span)) 9 7)
    else none)
at-store_run = at-store memory span 9 7 (omega arith)
