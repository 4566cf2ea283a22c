-- ===== src/Container/ArrayView/Tests.antt =====
-- Views of a memory that holds at each address the address itself.
use v1util.Common.{ℕ, ◌≡◌, refl, some, none, List, [], ◌∷◌, ◌>>=◌, arith}
use v1util.Common.Word.{add64}
use v1util.Container.ArrayView.{
  ArrayView, from_pointers, size, first, skip, last, shrink, subview, contents, Slice, firsts,
  skips, lasts, shrinks, subviews, cut, cut_all, spec_cut_all,
}
use v1util.Container.ArrayView.Slices.{cut_all-contents}

abbrev memory : ℕ → ℕ
memory a = a

abbrev view : ArrayView
view = record { begin = 100; end = 110 }

abbrev cuts : List Slice
cuts = skips 2 ∷ shrinks 1 ∷ subviews 1 5 ∷ lasts 3 ∷ firsts 2 ∷ []

cut_all-run : (cut_all cuts view >>= λ v. some (contents memory v)) ≡ some (105 ∷ 106 ∷ [])
unfolding cut_all cut first skip last shrink subview size from_pointers add64
cut_all-run = refl

too_long-run : subview 4 7 view ≡ none
unfolding subview size from_pointers add64
too_long-run = refl

cut_all-contents_example :
    (cut_all cuts view >>= λ v. some (contents memory v)) ≡ spec_cut_all cuts (contents memory view)
cut_all-contents_example = cut_all-contents memory cuts view (omega arith) (omega arith)
