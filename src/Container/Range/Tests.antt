-- ===== src/Container/Range/Tests.antt =====
-- Ranges of a memory that holds at each address the address itself.
use v1util.Common.{
  ℕ, ◌+◌, ◌*◌, ◌==◌, ◌≡◌, refl, leb, ltb, min, if◌then◌else◌, true, false, some, none, [], ◌∷◌,
  take, drop, inr, ◌>>=◌, arith,
}
use v1util.Container.ArrayView.{cells}
use v1util.Container.Range.{
  ItRange, size, first, last, subrange, promoted, copy, copy_scaled, fill, elements_in, all_of,
  any_of, none_of, count_if, contains, index_of, index_of_first, equal, empty, accumulate, front,
  back,
}
use v1util.Container.Range.Subranges.{subranges-contents}
use v1util.Container.Range.Copies.{copy-contents, copy-overrun, fill-contents}
use v1util.Container.Range.Searches.{searches-contents}

abbrev memory : ℕ → ℕ
memory a = a

abbrev small : ItRange
small = record { begin = 10; end = 13 }

abbrev large : ItRange
large = record { begin = 20; end = 25 }

-- A range of three elements refuses its first two, and its last one shows all but one.
subrange_runs :
    (first 2 small ≡ none)
    × (first 1 small ≡ some (record { begin = 10; end = 11 }))
    × (last 1 small ≡ some (record { begin = 11; end = 13 }))
    × (subrange 1 1 small ≡ none)
unfolding first last subrange size v1util.Common.Word.add64
subrange_runs = (refl, refl, refl, refl)

test_runs :
    (count_if large (ltb 21) memory ≡ 3)
    × (index_of_first large (ltb 21) memory ≡ 2)
    × (index_of_first large (ltb 30) memory ≡ 5)
    × (equal ◌==◌ small large memory ≡ false)
    × (empty small ≡ false)
    × (accumulate ◌+◌ small 1 memory ≡ 34)
    × (front memory small ≡ 10)
    × (back memory small ≡ 12)
unfolding accumulate front back v1util.Container.Range.accumulate_from count_if index_of_first equal
    empty v1util.Container.Range.count_from v1util.Container.Range.find_if
    v1util.Container.Range.equal_from
test_runs = (refl, refl, refl, refl, refl, refl, refl, refl)

subranges-contents_example :
    (v1util.Container.Range.Subranges.shown memory (first 1 small)
      ≡ (if leb 1 (min 1 3) then some (take 1 (10 ∷ 11 ∷ 12 ∷ [])) else none))
    × (v1util.Container.Range.Subranges.shown memory (last 1 small)
        ≡ (if leb 1 (min 1 3) then some (drop 1 (10 ∷ 11 ∷ 12 ∷ [])) else none))
    × (v1util.Container.Range.Subranges.shown memory (subrange 0 1 small)
        ≡ (if leb (0 + 1) (min 1 3) then some (take 1 (drop 0 (10 ∷ 11 ∷ 12 ∷ []))) else none))
subranges-contents_example = subranges-contents memory small 0 1 (omega arith)

copy-contents_example :
    (v1util.Container.Range.Copies.seen large 25 (copy elements_in elements_in small large memory)
      ≡ some (10 ∷ 11 ∷ 12 ∷ 23 ∷ 24 ∷ [], 25))
    × (v1util.Container.Range.Copies.seen large 25
          (copy_scaled elements_in elements_in ◌*◌ small large 2 memory)
        ≡ some (20 ∷ 22 ∷ 24 ∷ 23 ∷ 24 ∷ [], 25))
copy-contents_example =
    copy-contents small large memory 25 (omega arith) (inr (omega arith)) (inr (omega arith)) ◌*◌ 2

copy_run :
    (copy (λ r. promoted (size r)) (λ r. promoted (size r)) large small memory >>= λ m.
    some (cells m 10 5))
    ≡ some (20 ∷ 21 ∷ 22 ∷ 23 ∷ 24 ∷ [])
unfolding copy size v1util.Container.Range.transfer v1util.Container.Span.store
copy_run = refl

searches-contents_run :
    (all_of large (ltb 21) memory ≡ false)
    × (any_of large (ltb 21) memory ≡ true)
    × (none_of large (ltb 21) memory ≡ false)
    × (count_if large (ltb 21) memory ≡ 3)
    × (contains ◌==◌ large 23 memory ≡ true)
    × (index_of_first large (ltb 21) memory ≡ 2)
    × (index_of ◌==◌ large 23 memory ≡ 3)
searches-contents_run = searches-contents large memory (omega arith) (ltb 21) ◌==◌ 23
