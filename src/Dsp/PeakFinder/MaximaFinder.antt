-- ===== src/Dsp/PeakFinder/MaximaFinder.antt =====
-- `SlidingWindowLocalMaximaFinder` of dsp/peakfinder.hpp, over any deque that keeps the laws of
-- `FixedSizeDeque`.
pub mod Skyline
pub mod Correct
pub mod Tests
use v1util.Common.{
  ℕ, ◌+◌, ltb, leb, if◌then◌else◌, Option, some, List, [], ◌∷◌, ◌>>=◌, ◌>>◌, v1_assert,
}
use v1util.Common.Word.{add64, sub64}
use v1util.Container.Deque.{Deque}
use v1util.Container.Deque.Loops.{pop_back_while, pop_front_while}

-- `MaximumCandidate`
pub record Candidate : Type 0 where
  pub sample_pos : ℕ
  pub value : ℕ

pub record Finder (q : Deque Candidate) : Type 0 where
  pub window_size : ℕ
  pub initial_elements_read : ℕ
  pub current_sample_pos : ℕ
  pub candidates : q.Carrier

-- `std::numeric_limits<Value>::min()`
abbrev pub min_value : ℕ
min_value = 0

module _ (q : Deque Candidate) where
  unfoldable pub make : ℕ → Option (Finder q)
  make window_size = do
    v1_assert (ltb 0 window_size)
    some (record {
      window_size = window_size;
      initial_elements_read = 0;
      current_sample_pos = 0;
      candidates = q.with_capacity window_size;
    })

  -- The first `if` of `add`: the value to return, and the state without outdated candidates. The
  -- fuel of a loop is one more than the deque's size.
  unfoldable pub retire : Finder q → Option (ℕ × Finder q)
  retire f =
      if leb f.window_size f.initial_elements_read
      then (do
        oldest ← q.front f.candidates
        kept ←
            pop_front_while q (λ c. leb f.window_size (sub64 f.current_sample_pos c.sample_pos))
              (q.size f.candidates + 1) f.candidates
        some (oldest.value, record f { candidates = kept }))
      else some (min_value, record f { initial_elements_read = add64 f.initial_elements_read 1 })

  unfoldable pub add : ℕ → Finder q → Option (ℕ × Finder q)
  add value f = do
    (retval, g) ← retire f
    kept ← pop_back_while q (λ c. leb c.value value) (q.size g.candidates + 1) g.candidates
    extended ← q.push_back (record { sample_pos = g.current_sample_pos; value = value }) kept
    some (
      retval,
      record g { candidates = extended; current_sample_pos = add64 g.current_sample_pos 1 },
    )

  unfoldable pub finalize : Finder q → Option ℕ
  finalize f =
      if q.empty f.candidates
      then some min_value
      else (do oldest ← q.front f.candidates; some oldest.value)

  -- A client that feeds a sequence of samples and collects what `add` returns.
  unfoldable pub add_all : List ℕ → Finder q → Option (List ℕ × Finder q)
  add_all [] f = some ([], f)
  add_all (v ∷ vs) f = do
    (retval, f') ← add v f
    (retvals, f'') ← add_all vs f'
    some (retval ∷ retvals, f'')
