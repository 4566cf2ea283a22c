-- ===== src/Dsp/PeakFinder/Isolator/Wait.antt =====
-- Time that passes without a raw peak keeps the isolator's invariant.
use v1util.Common.{
  ℕ, ◌+◌, ◌-◌, ◌*◌, ◌%◌, max, ◌^◌, ◌≤◌, ◌<◌, ◌≡◌, inl, inr, Bool, true, ltb, List, arith,
}
use mathlib.Core.List.{Memᴰ}
use v1util.Common.Word.{word, sub64, sub64_exact}
use v1util.Container.Deque.Loops.{trim}
use v1util.Container.Deque.Kept.{trim-kept}
use v1util.Dsp.PeakFinder.Detector.{RawPeak}
use v1util.Dsp.PeakFinder.Isolator.{ValueAtPos}
use v1util.Dsp.PeakFinder.Isolator.Invariant.{Inv, Left, Locked, left_past}
use v1util.Dsp.PeakFinder.Isolator.Memory.{Layered-up, Layered-trim}

-- The test of the loop of `purgeUpUntil`.
abbrev pub outdated : ℕ → ℕ → ValueAtPos → Bool
outdated w now v = ltb ((3 * w + 1) % word) (sub64 now v.stream_pos)

outdated-true :
    (w now : ℕ) (v : ValueAtPos)
    → v.stream_pos ≤ now
    → now < 2 ^ 63
    → 3 * w + 1 < word
    → outdated w now v ≡ true
    → v.stream_pos + 3 * w + 1 < now
outdated-true w now v le small fits h =
    let e = sub64_exact now v.stream_pos (omega arith) le in ground arith

-- Time passes without a raw peak, and settled peaks that are too old for those that wait are dropped.
pub wait :
    {locks : List ValueAtPos} {w now : ℕ} {es right : List RawPeak} {left : List ValueAtPos}
    {settled accepted : List RawPeak}
    → Inv locks w now es right left settled accepted
    → (later_now : ℕ) → now ≤ later_now
    → later_now < 2 ^ 63
    → 3 * w + 1 < word
    → ((c : RawPeak) → Memᴰ c right → later_now ≤ c.stream_pos + 2 * w + 1)
    → Inv locks w later_now es right (trim (outdated w later_now) left) settled accepted
wait {locks} {w} {now} {left = left} {settled = settled} v later_now le small fits recent = record {
  history = v.history;
  small = v.small;
  past = λ e i. let a = v.past e i in omega arith;
  right_in = v.right_in;
  right_desc = v.right_desc;
  settled_in = λ d i. let (k, n, r, old) = v.settled_in d i in (k, n, r, omega arith);
  below = v.below;
  cover = v.cover;
  lock_first = v.lock_first;
  lock_past = λ u i. omega (arith, v.lock_past u i);
  left_layered =
      Layered-up (Left settled) (Locked locks) (now + 1) (later_now + 1) _ (omega arith) (
        Layered-trim (Left settled) (Locked locks) (outdated w later_now) (now + 1) left
          v.left_layered);
  limit = max v.limit (later_now - 2 * w - 1);
  limit_right = λ c i. let a = recent c i in let b = v.limit_right c i in omega arith;
  limit_now = omega (arith, v.limit_now);
  left_cover = λ d i. elim (v.left_cover d i) [
    | inr far ↦ inr (omega arith)
    | inl (u, j, a, b) ↦ elim (trim-kept (outdated w later_now) left u j) [
      | inl k ↦ inl (u, k, a, b)
      | inr t ↦
          let before = left_past v u j in
          let far = outdated-true w later_now u (omega arith) small fits t in inr (omega arith)
    ]
  ];
  accepted_in = v.accepted_in;
  accepted_all = v.accepted_all;
  accepted_desc = v.accepted_desc;
}
