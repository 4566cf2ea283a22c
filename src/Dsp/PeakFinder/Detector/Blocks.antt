-- ===== src/Dsp/PeakFinder/Detector/Blocks.antt =====
-- `StreamingPeakDetector::process` over a stream that arrives in several blocks.
use v1util.Common.{
  ℕ, ◌+◌, ◌%◌, ◌<◌, ◌≡◌, refl, sym, ap, ltb, leb, ◌||◌, ◌==◌, some, List, [], ◌∷◌, ◌++◌,
  append_assoc, length, ◌>>=◌, ◌>>◌, v1_assert, arith, Bool-cases, Option-cases, >>=-eq-some, inl,
  inr,
}
use v1util.Common.Word.{word, add64}
use v1util.Dsp.PeakFinder.Detector.{
  RawPeak, Detector, Scan, on_sample, first_sample_marker, scan_step, scan, process,
}

-- The scan at the start of a block, and the state that a scan leaves.
abbrev pub entry : ℕ → Detector → Scan
entry pos d = record {
  last_value = d.last_value;
  plateau_size = d.current_plateau_size;
  stream_pos = pos;
}

abbrev pub leave : Detector → Scan → Detector
leave d s = record d { last_value = s.last_value; current_plateau_size = s.plateau_size }

-- The early return on an empty block is a scan of nothing.
pub process-scan :
    (xs : List ℕ) (pos threshold : ℕ) (d : Detector)
    → process xs pos threshold d ≡ (
        v1_assert (ltb 0 d.too_big_plateau_size)
        >> (scan d.too_big_plateau_size threshold xs (entry pos d) >>= λ (peaks, s).
            some (peaks, leave d s)))
unfolding process scan
process-scan [] pos threshold d = refl
process-scan (x ∷ xs) pos threshold d = refl

module _ (too_big threshold : ℕ) where
  pub scan_step-stream_pos :
      (x : ℕ) (s : Scan) {peaks : List RawPeak} {s' : Scan}
      → scan_step too_big threshold x s ≡ some (peaks, s')
      → s'.stream_pos ≡ add64 s.stream_pos 1
  unfolding scan_step
  scan_step-stream_pos x s {s' = s'} h =
      let next : Scan = record {
        last_value = x;
        plateau_size = (on_sample too_big threshold x s).1;
        stream_pos = add64 s.stream_pos 1;
      } in
      let (_, _, k) =
        >>=-eq-some
          (v1_assert (leb s.plateau_size too_big || s.plateau_size == first_sample_marker))
          (λ _. some ((on_sample too_big threshold x s).0, next)) h in
      let same : next ≡ s' = cc in sym (ap Scan.stream_pos same)

  pub scan-stream_pos :
      (xs : List ℕ) (s : Scan) {peaks : List RawPeak} {s' : Scan}
      → s.stream_pos < word
      → scan too_big threshold xs s ≡ some (peaks, s')
      → s'.stream_pos ≡ add64 s.stream_pos (length xs)
  unfolding scan add64
  scan-stream_pos [] s {s' = s'} b h =
      let same : s ≡ s' = cc in
      let e : s'.stream_pos ≡ s.stream_pos = sym (ap Scan.stream_pos same) in omega arith
  scan-stream_pos (x ∷ xs) s {s' = s'} b h =
      let ((peaks₁, s₁), e₁, k₁) = >>=-eq-some (scan_step too_big threshold x s) _ h in
      let ((peaks₂, s₂), e₂, k₂) = >>=-eq-some (scan too_big threshold xs s₁) _ k₁ in
      let moved : s₁.stream_pos ≡ (s.stream_pos + 1) % word = scan_step-stream_pos x s e₁ in
      let after : s₂.stream_pos ≡ (s₁.stream_pos + length xs) % word =
        scan-stream_pos xs s₁ (omega arith) e₂ in
      let same : s₂ ≡ s' = cc in
      let e : s'.stream_pos ≡ s₂.stream_pos = sym (ap Scan.stream_pos same) in omega arith

  pub scan-append :
      (xs ys : List ℕ) (s : Scan)
      → scan too_big threshold (xs ++ ys) s ≡ (
          scan too_big threshold xs s >>= λ (peaks, s').
          scan too_big threshold ys s' >>= λ (more, s''). some (peaks ++ more, s''))
  unfolding scan
  scan-append [] ys s = elim (Option-cases (scan too_big threshold ys s)) [
    | inl e ↦ rw (e)
    | inr ((more, s''), e) ↦ rw (e)
  ]
  scan-append (x ∷ xs) ys s = elim (Option-cases (scan_step too_big threshold x s)) [
    | inl e ↦ rw (e)
    | inr ((peaks, s'), e) ↦ elim (Option-cases (scan too_big threshold xs s')) [
      | inl e' ↦ rw (e, scan-append xs ys s', e')
      | inr ((more, s''), e') ↦ elim (Option-cases (scan too_big threshold ys s'')) [
        | inl e'' ↦ rw (e, scan-append xs ys s', e', e'')
        | inr ((most, s'''), e'') ↦ rw (e, scan-append xs ys s', e', e'', append_assoc)
      ]
    ]
  ]

-- For a start position below 2 ^ 64: a stream that is processed in two blocks, the second at the
-- position that follows the first, reports the same and leaves the same state as in one block.
pub process-append :
    (xs ys : List ℕ) (pos threshold : ℕ) (d : Detector)
    → pos < word
    → process (xs ++ ys) pos threshold d ≡ (
        process xs pos threshold d >>= λ (peaks, d').
        process ys (add64 pos (length xs)) threshold d' >>= λ (more, d'').
        some (peaks ++ more, d''))
process-append xs ys pos threshold d b = elim (Bool-cases (ltb 0 d.too_big_plateau_size)) [
  | inr e ↦ rw (process-scan (xs ++ ys) pos threshold d, process-scan xs pos threshold d, e)
  | inl e ↦ elim (Option-cases (scan d.too_big_plateau_size threshold xs (entry pos d))) [
    | inl e' ↦ rw (
      process-scan (xs ++ ys) pos threshold d,
      process-scan xs pos threshold d,
      e,
      scan-append,
      e',
    )
    | inr ((peaks, s), e') ↦
        let at : s.stream_pos ≡ add64 pos (length xs) =
          scan-stream_pos d.too_big_plateau_size threshold xs (entry pos d) b e' in
        rw
          (
            process-scan (xs ++ ys) pos threshold d,
            process-scan xs pos threshold d,
            e,
            scan-append,
            e',
            sym at,
            process-scan ys s.stream_pos threshold (leave d s),
            e,
          )
          (elim (Option-cases (scan d.too_big_plateau_size threshold ys s)) [
            | inl n ↦ rw (n)
            | inr (_, n) ↦ rw (n)
          ])
  ]
]
