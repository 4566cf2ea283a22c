-- ===== src/Container/ArrayView.antt =====
-- `ArrayView` of container/array_view.hpp: two pointers into memory, and the views that are cut from one.
-- A pointer is an address, 0 is the null pointer, and memory has an element at every address. Sizes are
-- below 2 ^ 64.
pub mod Slices
pub mod Tests
use v1util.Common.{
  ℕ, zero, suc, ◌+◌, ◌-◌, ◌==◌, ltb, leb, if◌then◌else◌, Bool, not, ◌&&◌, ◌||◌, Option, none, some,
  List, [], ◌∷◌, take, drop, length, ◌>>=◌, ◌>>◌, v1_assert,
}
use v1util.Common.Word.{add64}

-- `mpBegin` and `mpEnd`
pub record ArrayView : Type 0 where
  pub begin : ℕ
  pub end : ℕ

abbrev pub null_view : ArrayView
null_view = record { begin = 0; end = 0 }

-- `ArrayView(pBuf, numElements)`
unfoldable pub from_buffer : ℕ → ℕ → ArrayView
from_buffer buf num_elements = record { begin = buf; end = buf + num_elements }

-- `ArrayView(iBegin, iEnd)` for pointers.
unfoldable pub from_pointers : ℕ → ℕ → Option ArrayView
from_pointers i_begin i_end = do
  v1_assert (leb i_begin i_end)
  some (record { begin = i_begin; end = i_end })

-- `ArrayView(ArrayView&& src)`: the new view, and `src` afterwards.
unfoldable pub from_moved : ArrayView → ArrayView × ArrayView
from_moved src = (src, null_view)

unfoldable pub size : ArrayView → ℕ
size v = v.end - v.begin

unfoldable pub empty : ArrayView → Bool
empty v = v.end == v.begin

unfoldable pub first : ℕ → ArrayView → Option ArrayView
first count v = do v1_assert (leb count (size v)); from_pointers v.begin (v.begin + count)

unfoldable pub skip : ℕ → ArrayView → Option ArrayView
skip count v = do v1_assert (leb count (size v)); from_pointers (v.begin + count) v.end

unfoldable pub last : ℕ → ArrayView → Option ArrayView
last count v = do
  let num_elements = size v
  v1_assert (leb count num_elements)
  from_pointers (v.begin + num_elements - count) v.end

unfoldable pub shrink : ℕ → ArrayView → Option ArrayView
shrink count v = do v1_assert (leb count (size v)); from_pointers v.begin (v.end - count)

unfoldable pub subview : ℕ → ℕ → ArrayView → Option ArrayView
subview start count v = do
  let num_entries = size v
  v1_assert (leb start num_entries && leb count num_entries && leb (add64 start count) num_entries)
  from_pointers (v.begin + start) (v.begin + start + count)

unfoldable pub equal : ArrayView → ArrayView → Bool
equal v other = v.begin == other.begin && v.end == other.end

unfoldable pub less : ArrayView → ArrayView → Bool
less v other = ltb v.begin other.begin || (v.begin == other.begin && ltb v.end other.end)

module _ {A : Type 0} (memory : ℕ → A) where
  unfoldable pub front : ArrayView → Option A
  front v = do v1_assert (not (v.begin == 0)); some (memory v.begin)

  unfoldable pub back : ArrayView → Option A
  back v = do v1_assert (not (v.begin == 0)); some (memory (v.end - 1))

  -- `operator[]`
  unfoldable pub at : ℕ → ArrayView → Option A
  at offset v = do let entry = v.begin + offset; v1_assert (ltb entry v.end); some (memory entry)

  -- What a view shows.
  abbrev pub cells : ℕ → ℕ → List A
  cells a zero = []
  cells a (suc n) = memory a ∷ cells (a + 1) n

  abbrev pub contents : ArrayView → List A
  contents v = cells v.begin (v.end - v.begin)

-- The ways to cut a view, on views and on sequences.
pub data Slice : Type 0 where
  firsts skips lasts shrinks : ℕ → Slice
  subviews : ℕ → ℕ → Slice

unfoldable pub cut : Slice → ArrayView → Option ArrayView
cut (firsts n) v = first n v
cut (skips n) v = skip n v
cut (lasts n) v = last n v
cut (shrinks n) v = shrink n v
cut (subviews start n) v = subview start n v

unfoldable pub cut_all : List Slice → ArrayView → Option ArrayView
cut_all [] v = some v
cut_all (c ∷ cs) v = cut c v >>= λ v'. cut_all cs v'

module _ {A : Type 0} where
  abbrev pub fitting : ℕ → List A → List A → Option (List A)
  fitting n xs ys = if leb n (length xs) then some ys else none

  unfoldable pub spec_cut : Slice → List A → Option (List A)
  spec_cut (firsts n) xs = fitting n xs (take n xs)
  spec_cut (skips n) xs = fitting n xs (drop n xs)
  spec_cut (lasts n) xs = fitting n xs (drop (length xs - n) xs)
  spec_cut (shrinks n) xs = fitting n xs (take (length xs - n) xs)
  spec_cut (subviews start n) xs = fitting (start + n) xs (take n (drop start xs))

  unfoldable pub spec_cut_all : List Slice → List A → Option (List A)
  spec_cut_all [] xs = some xs
  spec_cut_all (c ∷ cs) xs = spec_cut c xs >>= λ ys. spec_cut_all cs ys
