-- ===== src/Dsp/PeakFinder/Isolator/Early.antt =====
-- Before the lockout distance has passed, no peak is old enough, and the isolator cleans nothing.
use v1util.Common.{
  ℕ, zero, suc, ◌+◌, ◌*◌, ◌^◌, ◌≤◌, ◌<◌, ◌≡◌, sym, subst, true, false, some, List, [], ◌∷◌,
  Memᴰ-last, unsnoc, ◌>>=◌, arith,
}
use mathlib.Core.List.{Memᴰ}
use v1util.Common.Word.{sub64_exact}
use v1util.Container.Deque.{Deque}
use v1util.Dsp.PeakFinder.Detector.{RawPeak}
use v1util.Dsp.PeakFinder.Isolator.{ValueAtPos, Isolator, clean_isolator, clean_old, old_enough}

old_enough-early :
    (w now : ℕ) (c : RawPeak)
    → c.stream_pos ≤ now
    → now < 2 ^ 63
    → now < w
    → old_enough w now c ≡ false
unfolding old_enough
old_enough-early w now c le small young =
    let e = sub64_exact now c.stream_pos (omega arith) le in ground arith

module _ (q : Deque RawPeak) (l : Deque ValueAtPos) where
  clean_old-young :
      (w now fuel : ℕ) (rd : q.Carrier) (ld : l.Carrier) {c : RawPeak}
      → 0 < fuel
      → q.empty rd ≡ false
      → q.front rd ≡ some c
      → old_enough w now c ≡ false
      → clean_old q l fuel w now rd ld ≡ some ([], rd, ld)
  unfolding clean_old
  clean_old-young w now zero rd ld h a b e = absurd (omega arith)
  clean_old-young w now (suc fuel) rd ld h a b e = rw (a, clean_old, b, ◌>>=◌, e)

  clean_old-none :
      (w now fuel : ℕ) (rd : q.Carrier) (ld : l.Carrier)
      → 0 < fuel
      → q.empty rd ≡ true
      → clean_old q l fuel w now rd ld ≡ some ([], rd, ld)
  unfolding clean_old
  clean_old-none w now zero rd ld h a = absurd (omega arith)
  clean_old-none w now (suc fuel) rd ld h a = rw (a, clean_old)

  pub clean_isolator-young :
      {w : ℕ} (end : ℕ) (s : Isolator q l) (right : List RawPeak)
      → s.window_size ≡ w
      → q.Holds (2 * w + 1) s.right_dominant_peaks right
      → ((c : RawPeak) → Memᴰ c right → (c.stream_pos ≤ end) × (end < 2 ^ 63))
      → end < w
      → clean_isolator q l end s ≡ some ([], s)
  unfolding clean_isolator
  clean_isolator-young end s [] e h past young =
      let a =
        clean_old-none s.window_size end (q.size s.right_dominant_peaks + 1) s.right_dominant_peaks
          s.left_dominance_memory (omega arith) (q.empty-Holds [] h) in
      rw (a, ◌>>=◌)
  clean_isolator-young {w} end s (c ∷ cs) e h past young =
      let (us, u, f) = unsnoc (c ∷ cs) (omega arith) in
      let (before, small) = past u (subst (Memᴰ u) (sym f) (Memᴰ-last us u)) in
      let early = old_enough-early s.window_size end u before small (omega arith) in
      let a =
        clean_old-young s.window_size end (q.size s.right_dominant_peaks + 1) s.right_dominant_peaks
          s.left_dominance_memory (omega arith) (q.empty-Holds (c ∷ cs) h)
          (q.front-Holds us u (subst (q.Holds (2 * w + 1) s.right_dominant_peaks) f h)) early in
      rw (a, ◌>>=◌)
