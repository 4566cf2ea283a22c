-- ===== src/Dsp/PeakFinder/Streaming/Follows.antt =====
-- The raw peaks of the detector follow each other as the isolator wants it.
use v1util.Common.{
  ℕ, suc, ◌+◌, ◌-◌, ◌/◌, ◌^◌, ◌<◌, ◌≤◌, ◌≡◌, refl, sym, ◌∙◌, ◌⊎◌, inl, inr, true, false, ltb,
  ltb→lt, leb, Bool-cases, List, [], ◌∷◌, ◌++◌, rev_onto, length, if◌then◌else◌, arith,
}
use v1util.Dsp.PeakFinder.Detector.{RawPeak, PeakType}
use v1util.Dsp.PeakFinder.Detector.Runs.{
  Run, samples_of, Fits, Phase, start, up, down, Plateau, next, end_of, reports, all_reports,
}
use v1util.Dsp.PeakFinder.Detector.Reports.{length-samples_of, Fits-below}
use native.Mathlib.Decide.{dec_lt}
use v1util.Dsp.PeakFinder.Isolator.{is_rising}
use v1util.Dsp.PeakFinder.Isolator.Dominance.{Rising, Firm, FollowsTop}
use v1util.Dsp.PeakFinder.Isolator.Calls.{Continues}

Continues-append :
    (xs ys es : List RawPeak)
    → Continues xs es
    → Continues ys (rev_onto xs es)
    → Continues (xs ++ ys) es
Continues-append [] ys es h k = k
Continues-append (x ∷ xs) ys es (a, b, h) k = (a, b, Continues-append xs ys (x ∷ es) h k)

start-up : start ≡ up → ⊥
start-up e = cc

module _ (max_size threshold : ℕ) where
  -- The newest raw peak lies before the open plateau, or is the rise at its first sample.
  abbrev Behind : ℕ → Plateau → List RawPeak → Type 0
  Behind pos p [] = Unit
  Behind pos p (y ∷ ys) =
      (Firm y × (y.stream_pos + p.size < pos))
      ⊎ (Rising y
          × (y.value ≡ p.value)
          × (y.stream_pos + p.size ≡ pos)
          × (p.phase ≡ up)
          × (0 < p.size)
          × (threshold ≤ p.value))

  -- Reports that continue a history, and what lies behind the next plateau.
  abbrev Continued : List RawPeak → ℕ → Plateau → List RawPeak → Type 0
  Continued xs pos p es = Continues xs es × Behind pos p (rev_onto xs es)

  rise_follows :
      (pos v : ℕ) (p : Plateau) (es : List RawPeak)
      → p.value < v
      → Behind pos p es
      → FollowsTop (record { stream_pos = pos; value = v; type = PeakType.rising }) es
  rise_follows pos v p [] lt h = tt
  rise_follows pos v p (y ∷ ys) lt (inl (f, g)) = inl (omega arith, λ r. absurd (cc))
  rise_follows pos v p (y ∷ ys) lt (inr (f, e, g, u, k, t)) = inl (omega arith, λ r. omega arith)

  -- A rise below the threshold reports nothing.
  low-Behind :
      (pos more v : ℕ) (phase : Phase) (p : Plateau) (es : List RawPeak)
      → p.value < v
      → v < threshold
      → Behind pos p es
      → Behind (pos + suc more) (record { phase = phase; value = v; size = suc more }) es
  low-Behind pos more v phase p [] lt low h = tt
  low-Behind pos more v phase p (y ∷ ys) lt low (inl (f, g)) = inl (f, omega arith)
  low-Behind pos more v phase p (y ∷ ys) lt low (inr (f, e, g, u, k, t)) = absurd (omega arith)

  rise :
      (pos : ℕ) (p : Plateau) (r : Run) (es : List RawPeak)
      → p.value < r.value
      → pos + 1 < 2 ^ 63
      → Behind pos p es
      → Continued (reports max_size threshold pos p r) (pos + suc r.more) (next p r) es
  rise pos p r es lt small h =
      let up_now : ltb p.value r.value ≡ true = ground arith in
      elim (Bool-cases (leb threshold r.value)) [
        | inl high ↦
            let above : threshold ≤ r.value = ground arith in
            rw (up_now, high)
              (
                (rise_follows pos r.value p es lt h, small, tt),
                inr (refl, refl, refl, refl, omega arith, above),
              )
        | inr low ↦
            let below : r.value < threshold = ground arith in
            rw (up_now, low) (tt, low-Behind pos r.more r.value up p es lt below h)
      ]

  -- A peak or slope of the plateau's value, within the plateau.
  end_follows :
      (pos v n k : ℕ) (phase : Phase) (t : PeakType) (es : List RawPeak)
      → is_rising t ≡ false
      → pos ≤ k + n
      → n ≤ pos
      → Behind pos (record { phase = phase; value = v; size = n }) es
      → FollowsTop (record { stream_pos = k; value = v; type = t }) es
  end_follows pos v n k phase t [] firm le fits h = tt
  end_follows pos v n k phase t (y ∷ ys) firm le fits (inl (f, g)) =
      inl (omega arith, λ r. absurd (cc))
  end_follows pos v n k phase t (y ∷ ys) firm le fits (inr (f, e, g, u, b, c)) =
      elim (dec_lt y.stream_pos k) [
        | yes l ↦ inl (l, λ r. omega arith)
        | no l ↦ inr (omega arith, f, firm, e)
      ]

  -- A plateau that ends with no report.
  silent-Behind :
      (pos more v n : ℕ) (phase phase' : Phase) (w : ℕ) (es : List RawPeak)
      → (v < threshold) ⊎ (phase ≡ start)
      → Behind pos (record { phase = phase; value = v; size = n }) es
      → Behind (pos + suc more) (record { phase = phase'; value = w; size = suc more }) es
  silent-Behind pos more v n phase phase' w [] why h = tt
  silent-Behind pos more v n phase phase' w (y ∷ ys) why (inl (f, g)) = inl (f, omega arith)
  silent-Behind pos more v n phase phase' w (y ∷ ys) (inl low) (inr (f, e, g, u, b, c)) =
      absurd (omega arith)
  silent-Behind pos more v n phase phase' w (y ∷ ys) (inr begins) (inr (f, e, g, u, b, c)) =
      absurd (start-up (sym begins ∙ u))

  fall_start :
      (pos more v n w : ℕ) (es : List RawPeak)
      → Behind pos (record { phase = start; value = v; size = n }) es
      → Continued
          (end_of max_size threshold pos (record { phase = start; value = v; size = n }))
          (pos + suc more)
          (record { phase = down; value = w; size = suc more })
          es
  fall_start pos more v n w es h = elim (Bool-cases (leb threshold v)) [
    | inl high ↦ rw high (tt, silent-Behind pos more v n start down w es (inr refl) h)
    | inr low ↦ rw low (tt, silent-Behind pos more v n start down w es (inr refl) h)
  ]

  one_end :
      (pos more v n w : ℕ) (phase : Phase) (es : List RawPeak)
      → 0 < n
      → n ≤ pos
      → pos + 1 < 2 ^ 63
      → Behind pos (record { phase = phase; value = v; size = n }) es
      → Continued
          (record { stream_pos = pos - 1; value = v; type = PeakType.falling } ∷ [])
          (pos + suc more)
          (record { phase = down; value = w; size = suc more })
          es
  one_end pos more v n w phase es a b small h = (
    (
      end_follows pos v n (pos - 1) phase PeakType.falling es refl (omega arith) b h,
      omega arith,
      tt,
    ),
    inl (refl, omega arith),
  )

  fall_down :
      (pos more v n w : ℕ) (es : List RawPeak)
      → 0 < n
      → n ≤ pos
      → pos + 1 < 2 ^ 63
      → Behind pos (record { phase = down; value = v; size = n }) es
      → Continued
          (end_of max_size threshold pos (record { phase = down; value = v; size = n }))
          (pos + suc more)
          (record { phase = down; value = w; size = suc more })
          es
  fall_down pos more v n w es a b small h = elim (Bool-cases (leb threshold v)) [
    | inl high ↦ rw high (one_end pos more v n w down es a b small h)
    | inr low ↦
        let below : v < threshold = ground arith in
        rw low (tt, silent-Behind pos more v n down down w es (inl below) h)
  ]

  -- A plateau with its middle as a peak.
  peak_end :
      (pos more v n w : ℕ) (es : List RawPeak)
      → 0 < n
      → n ≤ pos
      → pos + 1 < 2 ^ 63
      → Behind pos (record { phase = up; value = v; size = n }) es
      → Continued
          (record { stream_pos = pos - 1 - n / 2; value = v; type = PeakType.peak }
            ∷ (if ltb 1 n
                then record { stream_pos = pos - 1; value = v; type = PeakType.falling } ∷ []
                else []))
          (pos + suc more)
          (record { phase = down; value = w; size = suc more })
          es
  peak_end pos more v n w es a b small h =
      let first =
        end_follows pos v n (pos - 1 - n / 2) up PeakType.peak es refl (omega arith) b h in
      elim (Bool-cases (ltb 1 n)) [
        | inl long ↦
            let two : 1 < n = ground arith in
            rw long (
              (first, omega arith, (inl (omega arith, λ r. absurd (cc)), omega arith, tt)),
              inl (refl, omega arith),
            )
        | inr short ↦ rw short ((first, omega arith, tt), inl (refl, omega arith))
      ]

  fall_up :
      (pos more v n w : ℕ) (es : List RawPeak)
      → 0 < n
      → n ≤ pos
      → pos + 1 < 2 ^ 63
      → Behind pos (record { phase = up; value = v; size = n }) es
      → Continued
          (end_of max_size threshold pos (record { phase = up; value = v; size = n }))
          (pos + suc more)
          (record { phase = down; value = w; size = suc more })
          es
  fall_up pos more v n w es a b small h = elim (Bool-cases (leb threshold v)) [
    | inl high ↦ elim (Bool-cases (leb n max_size)) [
      | inl fits ↦ rw (high, fits) (peak_end pos more v n w es a b small h)
      | inr long ↦ rw (high, long) (one_end pos more v n w up es a b small h)
    ]
    | inr low ↦
        let below : v < threshold = ground arith in
        rw low (tt, silent-Behind pos more v n up down w es (inl below) h)
  ]

  fall :
      (pos more w : ℕ) (phase : Phase) (v n : ℕ) (es : List RawPeak)
      → Fits max_size threshold pos (record { phase = phase; value = v; size = n })
      → pos + 1 < 2 ^ 63
      → Behind pos (record { phase = phase; value = v; size = n }) es
      → Continued
          (end_of max_size threshold pos (record { phase = phase; value = v; size = n }))
          (pos + suc more)
          (record { phase = down; value = w; size = suc more })
          es
  fall pos more w start v n es f small h = fall_start pos more v n w es h
  fall pos more w up v n es f small h = fall_up pos more v n w es f.0 f.1 small h
  fall pos more w down v n es f small h = fall_down pos more v n w es f.0 f.1 small h

  run_continues :
      (pos : ℕ) (p : Plateau) (r : Run) (es : List RawPeak)
      → Fits max_size threshold pos p
      → pos + 1 < 2 ^ 63
      → Behind pos p es
      → Continued (reports max_size threshold pos p r) (pos + suc r.more) (next p r) es
  run_continues pos p r es f small h = elim (Bool-cases (ltb p.value r.value)) [
    | inl higher ↦ rise pos p r es (ltb→lt p.value r.value higher) small h
    | inr lower ↦ rw lower (fall pos r.more r.value p.phase p.value p.size es f small h)
  ]

  pub all_reports-Continues :
      (rs : List Run) (pos : ℕ) (p : Plateau) (es : List RawPeak)
      → Fits max_size threshold pos p
      → pos + length (samples_of rs) + 1 < 2 ^ 63
      → Behind pos p es
      → Continues (all_reports max_size threshold pos p rs) es
  all_reports-Continues [] pos p es f small h = tt
  all_reports-Continues (r ∷ rs) pos p es f small h =
      let len = length-samples_of r rs in
      let (now, behind) = run_continues pos p r es f (omega arith) h in
      Continues-append (reports max_size threshold pos p r)
        (all_reports max_size threshold (pos + suc r.more) (next p r) rs) es now
        (all_reports-Continues rs (pos + suc r.more) (next p r)
          (rev_onto (reports max_size threshold pos p r) es)
          (Fits-below max_size threshold (pos + suc r.more) r.value (next p r).phase (suc r.more)
            (omega arith) (omega arith))
          (omega arith) behind)
