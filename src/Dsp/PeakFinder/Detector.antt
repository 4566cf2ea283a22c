-- ===== src/Dsp/PeakFinder/Detector.antt =====
-- `StreamingPeakDetector` of dsp/peakfinder.hpp. The calls of `peakHandler` are the list of the raw peaks
-- that it is called with, in their order; `none` is an assertion that fires.
pub mod Blocks
pub mod Runs
pub mod Reports
pub mod Tests
use v1util.Common.{
  ℕ, ◌+◌, ◌-◌, ◌/◌, ◌==◌, ltb, leb, if◌then◌else◌, Bool, not, ◌&&◌, ◌||◌, Option, none, some, List,
  [], ◌∷◌, ◌++◌, max, is_nil, ◌>>=◌, ◌>>◌, v1_assert,
}
use v1util.Common.Word.{word, add64, sub64}

-- `kPeak`, `kRising`, `kFalling`
pub data PeakType : Type 0 where
  peak rising falling : PeakType

-- `PeakFinderRawPeak`, with the fields of `PeakFinderValueAtPos`.
pub record RawPeak : Type 0 where
  pub stream_pos : ℕ
  pub value : ℕ
  pub type : PeakType

pub record Detector : Type 0 where
  pub too_big_plateau_size : ℕ
  pub last_value : ℕ
  pub current_plateau_size : ℕ

-- `kFirstSamplePlateauSizeMarker`
abbrev pub first_sample_marker : ℕ
first_sample_marker = word - 1

-- `max_value` is `std::numeric_limits<Value>::max()`.
unfoldable pub make_detector : ℕ → ℕ → Option Detector
make_detector max_value max_plateau_size = do
  v1_assert (ltb 0 max_plateau_size)
  some (record {
    too_big_plateau_size = max max_plateau_size (add64 max_plateau_size 1);
    last_value = max_value;
    current_plateau_size = first_sample_marker;
  })

-- The variables of the loop of `process`.
pub record Scan : Type 0 where
  pub last_value : ℕ
  pub plateau_size : ℕ
  pub stream_pos : ℕ

module _ (too_big threshold : ℕ) where
  -- `lastValue > sample`: the end of a plateau, a peak, or a falling slope.
  unfoldable pub on_falling : Scan → List RawPeak
  on_falling s =
      let right_half = s.plateau_size / 2 in
      let end : List RawPeak =
        record { stream_pos = sub64 s.stream_pos 1; value = s.last_value; type = falling } ∷ [] in
      if ltb 0 s.plateau_size && ltb s.plateau_size too_big && leb threshold s.last_value
      then record {
        stream_pos = sub64 (sub64 s.stream_pos right_half) 1;
        value = s.last_value;
        type = peak;
      }
        ∷ (if ltb 0 right_half then end else [])
      else if not (s.plateau_size == first_sample_marker) && leb threshold s.last_value
      then end
      else []

  -- The raw peaks of one sample, and the plateau size after it.
  unfoldable pub on_sample : ℕ → Scan → List RawPeak × ℕ
  on_sample sample s =
      if ltb s.last_value sample
      then (
        (if leb threshold sample
            then record { stream_pos = s.stream_pos; value = sample; type = rising } ∷ []
            else []),
        1,
      )
      else if s.last_value == sample
      then (
        [],
        (if ltb 0 s.plateau_size && ltb s.plateau_size too_big
            then add64 s.plateau_size 1
            else s.plateau_size),
      )
      else (on_falling s, 0)

  unfoldable pub scan_step : ℕ → Scan → Option (List RawPeak × Scan)
  scan_step sample s = do
    v1_assert (leb s.plateau_size too_big || s.plateau_size == first_sample_marker)
    let (peaks, size) = on_sample sample s
    some (
      peaks,
      record { last_value = sample; plateau_size = size; stream_pos = add64 s.stream_pos 1 },
    )

  -- `for(Value sample : data)`
  unfoldable pub scan : List ℕ → Scan → Option (List RawPeak × Scan)
  scan [] s = some ([], s)
  scan (x ∷ xs) s = do
    (peaks, s') ← scan_step x s
    (more, s'') ← scan xs s'
    some (peaks ++ more, s'')

unfoldable pub process : List ℕ → ℕ → ℕ → Detector → Option (List RawPeak × Detector)
process samples stream_pos_at_start threshold d = do
  v1_assert (ltb 0 d.too_big_plateau_size)
  if is_nil samples then some ([], d) else (do
    (peaks, s) ← scan d.too_big_plateau_size threshold samples (record {
      last_value = d.last_value;
      plateau_size = d.current_plateau_size;
      stream_pos = stream_pos_at_start;
    })
    some (peaks, record d { last_value = s.last_value; current_plateau_size = s.plateau_size }))

unfoldable pub current_plateau_size : Detector → ℕ
current_plateau_size d =
    if leb d.too_big_plateau_size d.current_plateau_size then 0 else d.current_plateau_size

-- `std::numeric_limits<Value>::min()` is 0.
unfoldable pub current_plateau_value : Detector → ℕ
current_plateau_value d = if ltb 0 (current_plateau_size d) then d.last_value else 0
