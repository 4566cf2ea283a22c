-- ===== src/Dsp/PeakFinder/Streaming/Positions.antt =====
-- Where the raw peaks of a stream lie.
use v1util.Common.{
  ℕ, suc, ◌+◌, ◌<◌, ◌≤◌, ltb, leb, inl, inr, Bool-cases, List, [], ◌∷◌, ◌++◌, length, arith,
}
use v1util.Dsp.PeakFinder.Detector.{RawPeak}
use v1util.Dsp.PeakFinder.Detector.Runs.{
  Run, samples_of, Phase, start, up, down, Plateau, next, end_of, reports, all_reports,
}
use v1util.Dsp.PeakFinder.Detector.Reports.{length-samples_of}
use v1util.Dsp.PeakFinder.Isolator.Calls.{Starts, newest_pos}

-- The plateau does not begin before a position.
abbrev Since : ℕ → ℕ → Plateau → Type 0
Since lo pos p = elim p.phase [ start ↦ lo ≤ pos | _ ↦ (0 < p.size) × (lo + p.size ≤ pos) ]

-- Raw peaks from a position on, below another.
abbrev pub Within : ℕ → ℕ → List RawPeak → Type 0
Within lo hi [] = Unit {0}
Within lo hi (x ∷ xs) = (lo ≤ x.stream_pos) × (x.stream_pos < hi) × Within lo hi xs

Within-append :
    (lo mid hi : ℕ) (xs ys : List RawPeak)
    → mid ≤ hi
    → Within lo mid xs
    → Within lo hi ys
    → Within lo hi (xs ++ ys)
Within-append lo mid hi [] ys le a b = b
Within-append lo mid hi (x ∷ xs) ys le (l, h, a) b =
    (l, omega arith, Within-append lo mid hi xs ys le a b)

pub newest_pos-Within :
    (lo hi now : ℕ) (xs : List RawPeak) → now < hi → Within lo hi xs → newest_pos now xs < hi
newest_pos-Within lo hi now [] lt h = lt
newest_pos-Within lo hi now (x ∷ xs) lt (a, b, h) = newest_pos-Within lo hi x.stream_pos xs b h

pub Within-Starts : (lo hi : ℕ) (xs : List RawPeak) → Within lo hi xs → Starts lo xs
Within-Starts lo hi [] h = tt
Within-Starts lo hi (x ∷ xs) h = h.0

module _ (lo : ℕ) where
  Since-le :
      (pos v : ℕ) (phase : Phase) (n : ℕ)
      → Since lo pos (record { phase = phase; value = v; size = n })
      → lo ≤ pos
  Since-le pos v start n h = h
  Since-le pos v up n h = omega arith
  Since-le pos v down n h = omega arith

  Since-next : (pos : ℕ) (p : Plateau) (r : Run) → lo ≤ pos → Since lo (pos + suc r.more) (next p r)
  Since-next pos p r le = elim (Bool-cases (ltb p.value r.value)) [
    | inl e ↦ rw e (omega arith, omega arith)
    | inr e ↦ rw e (omega arith, omega arith)
  ]

module _ (max_size threshold lo : ℕ) where
  end_of-Within :
      (pos v : ℕ) (phase : Phase) (n hi : ℕ)
      → pos < hi
      → Since lo pos (record { phase = phase; value = v; size = n })
      → Within lo hi (end_of max_size threshold pos (record { phase = phase; value = v; size = n }))
  end_of-Within pos v start n hi lt h = elim (Bool-cases (leb threshold v)) [
    | inl e ↦ rw e tt
    | inr e ↦ rw e tt
  ]
  end_of-Within pos v down n hi lt h = elim (Bool-cases (leb threshold v)) [
    | inl e ↦ rw e (omega arith, omega arith, tt)
    | inr e ↦ rw e tt
  ]
  end_of-Within pos v up n hi lt h = elim (Bool-cases (leb threshold v)) [
    | inr e ↦ rw e tt
    | inl e ↦ elim (Bool-cases (leb n max_size)) [
      | inl f ↦ elim (Bool-cases (ltb 1 n)) [
        | inl g ↦ rw (e, f, g) (omega arith, omega arith, (omega arith, omega arith, tt))
        | inr g ↦ rw (e, f, g) (omega arith, omega arith, tt)
      ]
      | inr f ↦ rw (e, f) (omega arith, omega arith, tt)
    ]
  ]

  reports-Within :
      (pos hi : ℕ) (p : Plateau) (r : Run)
      → pos < hi
      → Since lo pos p
      → Within lo hi (reports max_size threshold pos p r)
  reports-Within pos hi p r lt h = elim (Bool-cases (ltb p.value r.value)) [
    | inr e ↦ rw e (end_of-Within pos p.value p.phase p.size hi lt h)
    | inl e ↦ elim (Bool-cases (leb threshold r.value)) [
      | inl f ↦ rw (e, f) (Since-le lo pos p.value p.phase p.size h, lt, tt)
      | inr f ↦ rw (e, f) tt
    ]
  ]

  pub all_reports-Within :
      (rs : List Run) (pos hi : ℕ) (p : Plateau)
      → Since lo pos p
      → pos + length (samples_of rs) ≤ hi
      → Within lo hi (all_reports max_size threshold pos p rs)
  all_reports-Within [] pos hi p h le = tt
  all_reports-Within (r ∷ rs) pos hi p h le =
      let len = length-samples_of r rs in
      Within-append lo hi hi (reports max_size threshold pos p r) _ (omega arith)
        (reports-Within pos hi p r (omega arith) h)
        (all_reports-Within rs (pos + suc r.more) hi (next p r)
          (Since-next lo pos p r (Since-le lo pos p.value p.phase p.size h)) (omega arith))
