-- ===== src/Dsp/PeakFinder/Detector/Runs.antt =====
-- `StreamingPeakDetector` against a description by plateaus: what it reports for a stream of runs.
use v1util.Common.{
  ℕ, zero, suc, ◌+◌, ◌-◌, ◌/◌, ◌<◌, ◌≤◌, ◌≡◌, ◌≢◌, ap, ◌∙◌, true, false, ltb, leb, ◌&&◌, ◌||◌, ◌==◌,
  min, some, List, [], ◌∷◌, ◌++◌, replicate, Bool-cases, inl, inr, not, if◌then◌else◌, arith,
}
use v1util.Common.Word.{word, add64, add64_exact, sub64, sub64_exact}
use v1util.Dsp.PeakFinder.Detector.{
  PeakType, RawPeak, Scan, first_sample_marker, on_falling, on_sample, scan_step, scan,
}

-- `suc more` equal samples.
pub record Run : Type 0 where
  pub value : ℕ
  pub more : ℕ

abbrev pub samples_of : List Run → List ℕ
samples_of [] = []
samples_of (r ∷ rs) = replicate (suc r.more) r.value ++ samples_of rs

-- How the signal came to its current value: not at all yet, from below, from above.
pub data Phase : Type 0 where
  start up down : Phase

-- The run that a sample may still extend.
pub record Plateau : Type 0 where
  pub phase : Phase
  pub value : ℕ
  pub size : ℕ

abbrev pub next : Plateau → Run → Plateau
next p r = record {
  phase = if ltb p.value r.value then up else down;
  value = r.value;
  size = suc r.more;
}

abbrev pub last : Plateau → List Run → Plateau
last p [] = p
last p (r ∷ rs) = last (next p r) rs

-- Neighbouring runs differ.
abbrev pub Alternating : ℕ → List Run → Type 0
Alternating v [] = Unit
Alternating v (r ∷ rs) = (v ≢ r.value) × Alternating r.value rs

module _ (max_size threshold : ℕ) where
  -- What the end of a plateau below `pos` reports.
  abbrev pub end_of : ℕ → Plateau → List RawPeak
  end_of pos p =
      let end : RawPeak = record {
        stream_pos = pos - 1;
        value = p.value;
        type = PeakType.falling;
      } in
      if leb threshold p.value
      then elim p.phase [
        | start ↦ []
        | down ↦ end ∷ []
        | up ↦
            if leb p.size max_size
            then record { stream_pos = pos - 1 - p.size / 2; value = p.value; type = PeakType.peak }
              ∷ (if ltb 1 p.size then end ∷ [] else [])
            else end ∷ []
      ]
      else []

  abbrev pub reports : ℕ → Plateau → Run → List RawPeak
  reports pos p r =
      if ltb p.value r.value
      then if leb threshold r.value
        then record { stream_pos = pos; value = r.value; type = PeakType.rising } ∷ []
        else []
      else end_of pos p

  abbrev pub all_reports : ℕ → Plateau → List Run → List RawPeak
  all_reports pos p [] = []
  all_reports pos p (r ∷ rs) = reports pos p r ++ all_reports (pos + suc r.more) (next p r) rs

  -- The counter that stands for a plateau.
  abbrev pub counter : Phase → ℕ → ℕ
  counter start n = first_sample_marker
  counter up n = min n (max_size + 1)
  counter down n = 0

  abbrev pub at : ℕ → Plateau → Scan
  at pos p = record {
    last_value = p.value;
    plateau_size = counter p.phase p.size;
    stream_pos = pos;
  }

  -- The samples of a plateau lie below the position.
  abbrev pub Fits : ℕ → Plateau → Type 0
  Fits pos p = elim p.phase [ start ↦ Unit | _ ↦ (0 < p.size) × (p.size ≤ pos) ]

  counter-valid :
      (phase : Phase) (n : ℕ)
      → (leb (counter phase n) (max_size + 1) || counter phase n == first_sample_marker) ≡ true
  counter-valid start n = ground arith
  counter-valid up n = ground arith
  counter-valid down n = ground arith

  -- An equal sample extends the plateau.
  counter-suc :
      (pos v : ℕ) (phase : Phase) (n : ℕ)
      → Fits pos (record { phase = phase; value = v; size = n })
      → max_size + 2 < word
      → (if ltb 0 (counter phase n) && ltb (counter phase n) (max_size + 1)
          then add64 (counter phase n) 1
          else counter phase n)
        ≡ counter phase (suc n)
  unfolding add64
  counter-suc pos v start n f fits = ground arith
  counter-suc pos v up n f fits = ground arith
  counter-suc pos v down n f fits = ground arith

  same_sample :
      (pos : ℕ) (p : Plateau)
      → Fits pos p
      → max_size + 2 < word
      → pos + 1 < word
      → scan_step (max_size + 1) threshold p.value (at pos p)
        ≡ some ([], at (pos + 1) (record p { size = suc p.size }))
  unfolding scan_step on_sample
  same_sample pos p f fits b =
      let below : ltb p.value p.value ≡ false = ground arith in
      let equal : (p.value == p.value) ≡ true = ground arith in
      rw (
        counter-valid p.phase p.size,
        below,
        equal,
        counter-suc pos p.value p.phase p.size f fits,
        add64_exact pos 1 b,
      )

  Fits-suc :
      (pos v : ℕ) (phase : Phase) (n : ℕ)
      → Fits pos (record { phase = phase; value = v; size = n })
      → Fits (pos + 1) (record { phase = phase; value = v; size = suc n })
  Fits-suc pos v start n f = tt
  Fits-suc pos v up n f = (omega arith, omega arith)
  Fits-suc pos v down n f = (omega arith, omega arith)

  pub same_samples :
      (k pos v : ℕ) (phase : Phase) (n : ℕ)
      → Fits pos (record { phase = phase; value = v; size = n })
      → max_size + 2 < word
      → pos + k < word
      → scan
          (max_size + 1)
          threshold
          (replicate k v)
          (at pos (record { phase = phase; value = v; size = n }))
        ≡ some ([], at (pos + k) (record { phase = phase; value = v; size = n + k }))
  unfolding scan
  same_samples zero pos v phase n f fits b =
      let e₁ : pos + 0 ≡ pos = omega arith in let e₂ : n + 0 ≡ n = omega arith in rw (e₁, e₂)
  same_samples (suc k) pos v phase n f fits b =
      let e₁ : pos + suc k ≡ pos + 1 + k = omega arith in
      let e₂ : n + suc k ≡ suc n + k = omega arith in
      rw (
        e₁,
        e₂,
        same_sample pos (record { phase = phase; value = v; size = n }) f fits (omega arith),
        same_samples k (pos + 1) v phase (suc n) (Fits-suc pos v phase n f) fits (omega arith),
      )

  end_of-on_falling :
      (pos v : ℕ) (phase : Phase) (n : ℕ)
      → Fits pos (record { phase = phase; value = v; size = n })
      → pos < word
      → max_size + 2 < word
      → on_falling (max_size + 1) threshold (at pos (record { phase = phase; value = v; size = n }))
        ≡ end_of pos (record { phase = phase; value = v; size = n })
  unfolding on_falling
  end_of-on_falling pos v start n f b fits =
      let big : ltb first_sample_marker (max_size + 1) ≡ false = ground arith in
      elim (Bool-cases (leb threshold v)) [ inl e ↦ rw (big, e) | inr e ↦ rw (big, e) ]
  end_of-on_falling pos v up n f b fits = elim (Bool-cases (leb threshold v)) [
    | inr e ↦
        let below : (ltb 0 (min n (max_size + 1))
              && ltb (min n (max_size + 1)) (max_size + 1)
              && false)
            ≡ false =
          ground arith in
        let end : (not (min n (max_size + 1) == first_sample_marker) && false) ≡ false =
          ground arith in
        rw (e, below, end)
    | inl e ↦ elim (Bool-cases (leb n max_size)) [
      | inl h ↦
          let c : min n (max_size + 1) ≡ n = ground arith in
          let pos_n : ltb 0 n ≡ true = ground arith in
          let small : ltb n (max_size + 1) ≡ true = ground arith in
          let before : sub64 pos 1 ≡ pos - 1 = sub64_exact pos 1 b (omega arith) in
          let swap : pos - n / 2 - 1 ≡ pos - 1 - n / 2 = omega arith in
          let mid : sub64 (sub64 pos (n / 2)) 1 ≡ pos - 1 - n / 2 =
            ap (λ z. sub64 z 1) (sub64_exact pos (n / 2) b (omega arith))
            ∙ sub64_exact (pos - n / 2) 1 (omega arith) (omega arith)
            ∙ swap in
          let half : ltb 0 (n / 2) ≡ ltb 1 n = ground arith in
          rw (c, pos_n, small, e, h, before, mid, half)
      | inr h ↦
          let c : min n (max_size + 1) ≡ max_size + 1 = ground arith in
          let some_size : ltb 0 (max_size + 1) ≡ true = ground arith in
          let small : ltb (max_size + 1) (max_size + 1) ≡ false = ground arith in
          let other : ((max_size + 1) == first_sample_marker) ≡ false = ground arith in
          let before : sub64 pos 1 ≡ pos - 1 = sub64_exact pos 1 b (omega arith) in
          rw (c, some_size, small, other, e, h, before)
    ]
  ]
  end_of-on_falling pos v down n f b fits = rw (sub64_exact pos 1 b (omega arith))

  pub new_sample :
      (pos : ℕ) (p : Plateau) (v : ℕ)
      → Fits pos p
      → max_size + 2 < word
      → pos + 1 < word
      → p.value ≢ v
      → scan_step (max_size + 1) threshold v (at pos p)
        ≡ some (
          reports pos p (record { value = v; more = 0 }),
          at (pos + 1) (next p (record { value = v; more = 0 })),
        )
  unfolding scan_step on_sample
  new_sample pos p v f fits c ne = elim (Bool-cases (ltb p.value v)) [
    | inl e ↦
        let one : min 1 (max_size + 1) ≡ 1 = ground arith in
        rw (counter-valid p.phase p.size, e, add64_exact pos 1 c, one)
    | inr e ↦
        let ne' : (p.value == v) ≡ false = ground arith in
        rw (
          counter-valid p.phase p.size,
          e,
          ne',
          add64_exact pos 1 c,
          end_of-on_falling pos p.value p.phase p.size f (omega arith) fits,
        )
  ]
