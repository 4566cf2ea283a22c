-- ===== src/Container/Span.antt =====
-- `Span` of container/span.hpp: two pointers into memory whose elements may be written. A pointer is an
-- address, 0 is the null pointer, and a reference to an element is its address.
mod Writes
mod Tests
use v1util.Common.{
  ℕ, ◌+◌, ◌-◌, ◌==◌, ltb, leb, if◌then◌else◌, Bool, not, ◌&&◌, ◌||◌, Option, none, some, List, [],
  ◌∷◌, ◌>>=◌, ◌>>◌, v1_assert,
}
use v1util.Common.Word.{add64}
use v1util.Container.ArrayView.{ArrayView, Slice, firsts, skips, lasts, shrinks, subviews}

-- `mpBegin` and `mpEnd`
pub record Span : Type 0 where
  pub begin : ℕ
  pub end : ℕ

-- `Span(pBuf, numElements)`
unfoldable span_of_buffer : ℕ → ℕ → Span
span_of_buffer buf num_elements = record { begin = buf; end = buf + num_elements }

-- `Span(iBegin, iEnd)` for pointers.
unfoldable span_of_pointers : ℕ → ℕ → Option Span
span_of_pointers i_begin i_end = do
  v1_assert (leb i_begin i_end)
  some (record { begin = i_begin; end = i_end })

-- `Span(Span&& src)`: the new span, and `src` afterwards.
unfoldable span_of_moved : Span → Span × Span
span_of_moved src = (src, record { begin = 0; end = 0 })

unfoldable size : Span → ℕ
size s = s.end - s.begin

unfoldable empty : Span → Bool
empty s = s.end == s.begin

unfoldable first : ℕ → Span → Option Span
first count s = do v1_assert (leb count (size s)); span_of_pointers s.begin (s.begin + count)

unfoldable skip : ℕ → Span → Option Span
skip count s = do v1_assert (leb count (size s)); span_of_pointers (s.begin + count) s.end

unfoldable last : ℕ → Span → Option Span
last count s = do
  let num_elements = size s
  v1_assert (leb count num_elements)
  span_of_pointers (s.begin + num_elements - count) s.end

unfoldable shrink : ℕ → Span → Option Span
shrink count s = do v1_assert (leb count (size s)); span_of_pointers s.begin (s.end - count)

unfoldable subspan : ℕ → ℕ → Span → Option Span
subspan start count s = do
  let num_entries = size s
  v1_assert (leb start num_entries && leb count num_entries && leb (add64 start count) num_entries)
  span_of_pointers (s.begin + start) (s.begin + start + count)

-- The conversion to a view.
unfoldable view : Span → ArrayView
view s = record { begin = s.begin; end = s.end }

unfoldable equal : Span → Span → Bool
equal s other = s.begin == other.begin && s.end == other.end

unfoldable less : Span → Span → Bool
less s other = ltb s.begin other.begin || (s.begin == other.begin && ltb s.end other.end)

unfoldable front : Span → Option ℕ
front s = do v1_assert (not (s.begin == 0)); some s.begin

unfoldable back : Span → Option ℕ
back s = do v1_assert (not (s.begin == 0)); some (s.end - 1)

-- `operator[]`
unfoldable at : ℕ → Span → Option ℕ
at offset s = do let entry = s.begin + offset; v1_assert (ltb entry s.end); some entry

-- A write through a reference.
unfoldable pub store : {A : Type 0} → ℕ → A → (ℕ → A) → ℕ → A
store a x memory b = if b == a then x else memory b

-- The ways to cut a span, named as for views.
unfoldable cut_span : Slice → Span → Option Span
cut_span (firsts n) s = first n s
cut_span (skips n) s = skip n s
cut_span (lasts n) s = last n s
cut_span (shrinks n) s = shrink n s
cut_span (subviews start n) s = subspan start n s

unfoldable cut_span_all : List Slice → Span → Option Span
cut_span_all [] s = some s
cut_span_all (c ∷ cs) s = cut_span c s >>= λ s'. cut_span_all cs s'
