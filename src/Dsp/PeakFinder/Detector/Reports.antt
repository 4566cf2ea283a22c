-- ===== src/Dsp/PeakFinder/Detector/Reports.antt =====
-- What `StreamingPeakDetector::process` reports for a whole stream, from the first sample on.
use v1util.Common.{
  ℕ, suc, ◌+◌, ◌%◌, ◌<◌, ◌≤◌, ◌≡◌, ◌≢◌, ap, ◌∙◌, true, ltb, leb, max, some, List, [], ◌∷◌,
  append-nil, length, length-append, length-replicate, replicate, if◌then◌else◌, arith, lt→ltb,
}
use v1util.Common.Word.{word, add64}
use v1util.Dsp.PeakFinder.Detector.{
  Detector, first_sample_marker, make_detector, scan, process, current_plateau_size,
}
use v1util.Dsp.PeakFinder.Detector.Blocks.{scan-append, process-scan, leave}
use v1util.Dsp.PeakFinder.Detector.Runs.{
  Run, samples_of, Phase, start, up, down, Plateau, next, last, Alternating, all_reports, reports,
  counter, at, Fits, same_samples, new_sample,
}

pub length-samples_of :
    (r : Run) (rs : List Run) → length (samples_of (r ∷ rs)) ≡ suc r.more + length (samples_of rs)
length-samples_of r rs =
    length-append (replicate (suc r.more) r.value) (samples_of rs)
    ∙ ap (λ z. z + length (samples_of rs)) (length-replicate (suc r.more) r.value)

module _ (max_size threshold : ℕ) where
  pub Fits-below :
      (pos v : ℕ) (phase : Phase) (n : ℕ)
      → 0 < n
      → n ≤ pos
      → Fits max_size threshold pos (record { phase = phase; value = v; size = n })
  Fits-below pos v start n a b = tt
  Fits-below pos v up n a b = (a, b)
  Fits-below pos v down n a b = (a, b)

  scan-run :
      (pos : ℕ) (p : Plateau) (r : Run)
      → Fits max_size threshold pos p
      → max_size + 2 < word
      → pos + suc r.more < word
      → p.value ≢ r.value
      → scan (max_size + 1) threshold (replicate (suc r.more) r.value) (at max_size threshold pos p)
        ≡ some (
          reports max_size threshold pos p r,
          at max_size threshold (pos + suc r.more) (next p r),
        )
  unfolding scan
  scan-run pos p r f fits b ne =
      let e : pos + suc r.more ≡ pos + 1 + r.more = omega arith in
      let e₂ : 1 + r.more ≡ suc r.more = omega arith in
      rw (e, new_sample max_size threshold pos p r.value f fits (omega arith) ne)
        (rw (
          same_samples max_size threshold r.more (pos + 1) r.value (next p r).phase 1
              (Fits-below (pos + 1) r.value (next p r).phase 1 (omega arith) (omega arith)) fits
              (omega arith),
          e₂,
          append-nil,
        ))

  pub scan-reports :
      (rs : List Run) (pos : ℕ) (p : Plateau)
      → Fits max_size threshold pos p
      → max_size + 2 < word
      → pos + length (samples_of rs) < word
      → Alternating p.value rs
      → scan (max_size + 1) threshold (samples_of rs) (at max_size threshold pos p)
        ≡ some (
          all_reports max_size threshold pos p rs,
          at max_size threshold (pos + length (samples_of rs)) (last p rs),
        )
  unfolding scan
  scan-reports [] pos p f fits b alt = let e : pos + 0 ≡ pos = omega arith in rw (e)
  scan-reports (r ∷ rs) pos p f fits b alt =
      let e : length (samples_of (r ∷ rs)) ≡ suc r.more + length (samples_of rs) =
        length-samples_of r rs in
      let e' : pos + (suc r.more + length (samples_of rs))
          ≡ pos + suc r.more + length (samples_of rs) =
        omega arith in
      rw (e, e', scan-append, scan-run pos p r f fits (omega arith) alt.0)
        (rw (
          scan-reports rs (pos + suc r.more) (next p r)
            (Fits-below (pos + suc r.more) r.value (next p r).phase (suc r.more) (omega arith)
              (omega arith))
            fits (omega arith) alt.1))

-- The plateau that may still become a peak: its size, or 0.
abbrev pub open_size : ℕ → Plateau → ℕ
open_size max_size p = elim p.phase [ up ↦ if leb p.size max_size then p.size else 0 | _ ↦ 0 ]

-- Before the first sample.
abbrev pub fresh : ℕ → Plateau
fresh max_value = record { phase = start; value = max_value; size = 0 }

counter-open_size :
    (max_size threshold pos v : ℕ) (phase : Phase) (n : ℕ)
    → max_size + 2 < word
    → (if leb (max_size + 1) (counter max_size threshold phase n)
        then 0
        else counter max_size threshold phase n)
      ≡ open_size max_size (record { phase = phase; value = v; size = n })
counter-open_size max_size threshold pos v start n fits = ground arith
counter-open_size max_size threshold pos v up n fits = ground arith
counter-open_size max_size threshold pos v down n fits = ground arith

-- For a plateau limit from 1 to 2 ^ 64 - 3 and a stream that ends before position 2 ^ 64, whose first
-- sample is not the largest value: a new detector processes the stream without a failed assertion,
-- reports what the description by plateaus says, and is left with the open plateau of the stream.
pub process-reports :
    (max_value max_size threshold pos : ℕ) (runs : List Run)
    → 0 < max_size
    → max_size + 2 < word
    → pos + length (samples_of runs) < word
    → Alternating max_value runs
    → (d end : Detector) × (make_detector max_value max_size ≡ some d)
      × (process (samples_of runs) pos threshold d
          ≡ some (all_reports max_size threshold pos (fresh max_value) runs, end))
      × (current_plateau_size end ≡ open_size max_size (last (fresh max_value) runs))
unfolding make_detector add64 current_plateau_size
process-reports max_value max_size threshold pos runs h fits b alt =
    let too_big : max max_size ((max_size + 1) % word) ≡ max_size + 1 = omega arith in
    let d : Detector = record {
      too_big_plateau_size = max_size + 1;
      last_value = max_value;
      current_plateau_size = first_sample_marker;
    } in
    let p = last (fresh max_value) runs in
    let end = leave d (at max_size threshold (pos + length (samples_of runs)) p) in
    let positive : ltb 0 (max_size + 1) ≡ true = ground arith in
    (
      d,
      end,
      rw (lt→ltb 0 max_size h, too_big),
      rw (
        process-scan,
        positive,
        scan-reports max_size threshold runs pos (fresh max_value) tt fits b alt,
      ),
      counter-open_size max_size threshold pos p.value p.phase p.size fits,
    )
