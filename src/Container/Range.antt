-- ===== src/Container/Range.antt =====
-- `ItRange` and the algorithms of container/range.hpp, for iterators that are pointers into memory: an
-- iterator is an address, and memory has an element at every address. The algorithms work on ranges, views,
-- spans and containers, which differ in what their `size()` returns: it is an argument.
mod Subranges
mod Copies
mod Searches
mod Tests
use v1util.Common.{
  ℕ, zero, suc, ◌+◌, ◌-◌, ◌==◌, ltb, leb, if◌then◌else◌, Bool, true, false, not, ◌&&◌, Option, none,
  some, ◌>>=◌, ◌>>◌, v1_assert,
}
use v1util.Common.Word.{add64}
use v1util.Container.Span.{store}

-- `mBegin` and `mEnd`
pub record ItRange : Type 0 where
  pub begin : ℕ
  pub end : ℕ

unfoldable empty : ItRange → Bool
empty r = r.begin == r.end

-- `bool size() const`: the difference of the iterators, converted to a bool.
unfoldable size : ItRange → Bool
size r = not (r.end == r.begin)

-- A bool that is compared with a number.
abbrev promoted : Bool → ℕ
promoted b = if b then 1 else 0

unfoldable first : ℕ → ItRange → Option ItRange
first count r = do
  v1_assert (leb count (promoted (size r)))
  some (record { begin = r.begin; end = r.begin + count })

unfoldable last : ℕ → ItRange → Option ItRange
last count r = do
  v1_assert (leb count (promoted (size r)))
  some (record { begin = r.begin + count; end = r.end })

unfoldable subrange : ℕ → ℕ → ItRange → Option ItRange
subrange start count r = do
  let num_entries = promoted (size r)
  v1_assert (leb start num_entries && leb count num_entries && leb (add64 start count) num_entries)
  let new_start = r.begin + start
  some (record { begin = new_start; end = new_start + count })

-- `std::find_if` from an iterator on, over a number of elements.
unfoldable find_if : {A : Type 0} → (A → Bool) → (ℕ → A) → ℕ → ℕ → ℕ
find_if pred memory i zero = i
find_if pred memory i (suc n) = if pred (memory i) then i else find_if pred memory (i + 1) n

-- `std::equal` for two pairs of iterators.
unfoldable equal_from : {A : Type 0} → (A → A → Bool) → (ℕ → A) → ℕ → ℕ → ℕ → ℕ → Bool
equal_from same memory a zero b zero = true
equal_from same memory a zero b (suc m) = false
equal_from same memory a (suc n) b zero = false
equal_from same memory a (suc n) b (suc m) =
    if same (memory a) (memory b) then equal_from same memory (a + 1) n (b + 1) m else false

-- The loop of `contains`.
unfoldable contains_from : {A : Type 0} → (A → A → Bool) → A → (ℕ → A) → ℕ → ℕ → Bool
contains_from same needle memory i zero = false
contains_from same needle memory i (suc n) =
    if same (memory i) needle then true else contains_from same needle memory (i + 1) n

-- `std::count_if`
unfoldable count_from : {A : Type 0} → (A → Bool) → (ℕ → A) → ℕ → ℕ → ℕ
count_from pred memory i zero = 0
count_from pred memory i (suc n) =
    let rest = count_from pred memory (i + 1) n in if pred (memory i) then suc rest else rest

-- `std::accumulate`, with the `+` of the elements.
unfoldable accumulate_from : {A : Type 0} → (A → A → A) → (ℕ → A) → ℕ → ℕ → A → A
accumulate_from plus memory i zero init = init
accumulate_from plus memory i (suc n) init =
    accumulate_from plus memory (i + 1) n (plus init (memory i))

-- The loop of `copy` and `copyScaled`, with what is done to an element.
unfoldable transfer : {A : Type 0} → (A → A) → ℕ → ℕ → ℕ → (ℕ → A) → ℕ → A
transfer f zero i_in i_out memory = memory
transfer f (suc n) i_in i_out memory =
    transfer f n (i_in + 1) (i_out + 1) (store i_out (f (memory i_in)) memory)

-- The loop of `fill`.
unfoldable fill_loop : {A : Type 0} → A → ℕ → ℕ → (ℕ → A) → ℕ → A
fill_loop value i zero memory = memory
fill_loop value i (suc n) memory = fill_loop value (i + 1) n (store i value memory)

abbrev elements_in : ItRange → ℕ
elements_in r = r.end - r.begin

module _ {A : Type 0} where
  unfoldable front : (ℕ → A) → ItRange → A
  front memory r = memory r.begin

  unfoldable back : (ℕ → A) → ItRange → A
  back memory r = memory (r.end - 1)

  unfoldable accumulate : (A → A → A) → ItRange → A → (ℕ → A) → A
  accumulate plus r init memory = accumulate_from plus memory r.begin (elements_in r) init

  -- With the `==` of the elements.
  unfoldable contains : (A → A → Bool) → ItRange → A → (ℕ → A) → Bool
  contains same haystack needle memory =
      contains_from same needle memory haystack.begin (elements_in haystack)

  unfoldable index_of : (A → A → Bool) → ItRange → A → (ℕ → A) → ℕ
  index_of same haystack needle memory =
      find_if (λ x. same x needle) memory haystack.begin (elements_in haystack) - haystack.begin

  unfoldable index_of_first : ItRange → (A → Bool) → (ℕ → A) → ℕ
  index_of_first haystack pred memory =
      find_if pred memory haystack.begin (elements_in haystack) - haystack.begin

  unfoldable all_of : ItRange → (A → Bool) → (ℕ → A) → Bool
  all_of r pred memory = find_if (λ x. not (pred x)) memory r.begin (elements_in r) == r.end

  unfoldable any_of : ItRange → (A → Bool) → (ℕ → A) → Bool
  any_of r pred memory = not (find_if pred memory r.begin (elements_in r) == r.end)

  unfoldable none_of : ItRange → (A → Bool) → (ℕ → A) → Bool
  none_of r pred memory = find_if pred memory r.begin (elements_in r) == r.end

  unfoldable count_if : ItRange → (A → Bool) → (ℕ → A) → ℕ
  count_if r pred memory = count_from pred memory r.begin (elements_in r)

  unfoldable equal : (A → A → Bool) → ItRange → ItRange → (ℕ → A) → Bool
  equal same range_a range_b memory =
      equal_from same memory range_a.begin (elements_in range_a) range_b.begin (elements_in range_b)

  unfoldable fill : ItRange → A → (ℕ → A) → ℕ → A
  fill out value memory = fill_loop value out.begin (elements_in out) memory

  -- `in_size` and `out_size` are the `size()` of the two types of range.
  module _ (in_size out_size : ItRange → ℕ) where
    -- With the `*` of the elements.
    unfoldable copy_scaled : (A → A → A) → ItRange → ItRange → A → (ℕ → A) → Option (ℕ → A)
    copy_scaled multiply from out scale memory = do
      v1_assert (leb (in_size from) (out_size out))
      some (transfer (λ x. multiply x scale) (elements_in from) from.begin out.begin memory)

    unfoldable copy : ItRange → ItRange → (ℕ → A) → Option (ℕ → A)
    copy from out memory = do
      v1_assert (leb (in_size from) (out_size out))
      some (transfer (λ x. x) (elements_in from) from.begin out.begin memory)
