-- ===== src/Dsp/PeakFinder/Isolator/Calls.antt =====
-- The calls of the isolator: an event, a sequence of events, and a purge.
use v1util.Common.{
  ℕ, ◌+◌, ◌-◌, ◌*◌, ◌^◌, ◌<◌, ◌≤◌, ◌≡◌, refl, sym, ap, subst, ◌∙◌, ◌==◌, true, false, Option, some,
  List, [], ◌∷◌, ◌++◌, here, rev_onto, rev_onto-append, ◌>>=◌, ◌>>◌, v1_assert, arith,
}
use mathlib.Core.List.{Memᴰ}
use v1util.Common.Word.{word}
use v1util.Base.Math.{ring_greater_eq}
use v1util.Container.Deque.{Deque}
use v1util.Dsp.PeakFinder.Detector.{RawPeak}
use v1util.Dsp.PeakFinder.Isolator.{
  ValueAtPos, Isolator, youngest_raw_peak_value, youngest_left_dominance_memory_value, enqueue,
  on_raw_peak_event, on_raw_peak_events,
}
use v1util.Dsp.PeakFinder.Isolator.Dominance.{FollowsTop, later}
use v1util.Dsp.PeakFinder.Isolator.Events.{
  Ready, Returns, AtTop, Follows-le, enqueue-Returns, ring_greater_eq-after, ring_greater_eq-start,
}

-- Each raw peak, oldest first, is the next one behind the history.
abbrev pub Continues : List RawPeak → List RawPeak → Type 0
Continues [] es = Unit {0}
Continues (x ∷ xs) es = FollowsTop x es × (x.stream_pos + 1 < 2 ^ 63) × Continues xs (x ∷ es)

-- No raw peak lies before a position.
abbrev pub Starts : ℕ → List RawPeak → Type 0
Starts now [] = Unit {0}
Starts now (x ∷ xs) = now ≤ x.stream_pos

Continues-Starts :
    (x : RawPeak) (xs es : List RawPeak) → Continues xs (x ∷ es) → Starts x.stream_pos xs
Continues-Starts x [] es c = tt
Continues-Starts x (y ∷ xs) es (f, small, c) = Follows-le y x f

abbrev pub newest_pos : ℕ → List RawPeak → ℕ
newest_pos now [] = now
newest_pos now (x ∷ xs) = newest_pos x.stream_pos xs

module _ (q : Deque RawPeak) (l : Deque ValueAtPos) where
  pub youngest-some :
      {limit : ℕ} (s : Isolator q l) (xs : List RawPeak)
      → q.Holds limit s.right_dominant_peaks xs
      → (v : ℕ) × (youngest_raw_peak_value q l s ≡ some v)
  unfolding youngest_raw_peak_value
  youngest-some s [] h = (0, rw (q.empty-Holds [] h))
  youngest-some s (x ∷ xs) h = (x.value, rw (q.empty-Holds (x ∷ xs) h, q.back-Holds h))

  youngest_left-some :
      {limit : ℕ} (s : Isolator q l) (xs : List ValueAtPos)
      → l.Holds limit s.left_dominance_memory xs
      → (v : ℕ) × (youngest_left_dominance_memory_value q l s ≡ some v)
  unfolding youngest_left_dominance_memory_value
  youngest_left-some s [] h = (0, rw (l.empty-Holds [] h))
  youngest_left-some s (x ∷ xs) h = (x.value, rw (l.empty-Holds (x ∷ xs) h, l.back-Holds h))

  module _ (x : RawPeak) (s : Isolator q l) {a b : ℕ} {m : Option (List RawPeak × Isolator q l)}
      (ya : youngest_raw_peak_value q l s ≡ some a)
      (yb : youngest_left_dominance_memory_value q l s ≡ some b)
      (after : ring_greater_eq 63 x.stream_pos s.last_purge_stream_pos ≡ true) where
    event-empty :
        q.empty s.right_dominant_peaks ≡ true → enqueue q l x s ≡ m → on_raw_peak_event q l x s ≡ m
    unfolding on_raw_peak_event
    event-empty e f = rw (ya, yb, ◌>>=◌, after, ◌>>◌, v1_assert, e) f

    event-back :
        {c : RawPeak}
        → q.empty s.right_dominant_peaks ≡ false
        → q.back s.right_dominant_peaks ≡ some c
        → (x.stream_pos == c.stream_pos) ≡ false
        → ring_greater_eq 63 x.stream_pos c.stream_pos ≡ true
        → enqueue q l x s ≡ m
        → on_raw_peak_event q l x s ≡ m
    unfolding on_raw_peak_event
    event-back e back differs order f =
        rw (ya, yb, ◌>>=◌, after, ◌>>◌, v1_assert, e, back, ◌>>=◌, differs, order) f

  event-runs :
      {locks : List ValueAtPos} {w now : ℕ} {es accepted : List RawPeak}
      {m : Option (List RawPeak × Isolator q l)} (x : RawPeak) (s : Isolator q l)
      (right : List RawPeak)
      → q.Holds (2 * w + 1) s.right_dominant_peaks right
      → ((c : RawPeak) → Memᴰ c right → c.stream_pos < x.stream_pos)
      → (r : Ready q l s locks w now es accepted) → x.stream_pos + 1 < 2 ^ 63
      → s.last_purge_stream_pos ≡ word - 1
      → enqueue q l x s ≡ m
      → on_raw_peak_event q l x s ≡ m
  event-runs x s [] h before r small start e =
      event-empty x s (youngest-some s r.right r.right_Holds).1
        (youngest_left-some s r.left r.left_Holds).1
        (ap (ring_greater_eq 63 x.stream_pos) start ∙ ring_greater_eq-start x.stream_pos small)
        (q.empty-Holds [] h) e
  event-runs x s (c ∷ right) h before r small start e =
      let lt = before c (here c right) in
      let differs : (x.stream_pos == c.stream_pos) ≡ false = ground arith in
      event-back x s (youngest-some s r.right r.right_Holds).1
        (youngest_left-some s r.left r.left_Holds).1
        (ap (ring_greater_eq 63 x.stream_pos) start ∙ ring_greater_eq-start x.stream_pos small)
        (q.empty-Holds (c ∷ right) h) (q.back-Holds h) differs
        (ring_greater_eq-after x.stream_pos c.stream_pos (omega arith) (omega arith)) e

  event-Returns :
      {locks : List ValueAtPos} {w now : ℕ} {es accepted : List RawPeak} (x : RawPeak)
      (s : Isolator q l)
      → 0 < w
      → Ready q l s locks w now es accepted
      → AtTop now es
      → FollowsTop x es
      → now ≤ x.stream_pos
      → x.stream_pos + 1 < 2 ^ 63
      → s.last_purge_stream_pos ≡ word - 1
      → Returns q l (on_raw_peak_event q l x s) locks w x.stream_pos (word - 1) (x ∷ es) accepted
  event-Returns {es = es} x s positive r top follows le small start =
      let done = enqueue-Returns q l x s positive r top follows le small in
      record {
        reports = done.reports;
        state = done.state;
        returns =
            event-runs x s r.right r.right_Holds
              (λ c i.
                let (k, n, d) = r.inv.right_in c i in (later x es c (follows, r.inv.history) k).1 n)
              r small start done.returns;
        ready = done.ready;
        purged = done.purged ∙ start;
      }

  pub events-Returns :
      {locks : List ValueAtPos} {w : ℕ} (xs : List RawPeak) {now : ℕ} {es accepted : List RawPeak}
      (s : Isolator q l)
      → 0 < w
      → Ready q l s locks w now es accepted
      → AtTop now es
      → Continues xs es
      → Starts now xs
      → s.last_purge_stream_pos ≡ word - 1
      → Returns q l
          (on_raw_peak_events q l xs s)
          locks
          w
          (newest_pos now xs)
          (word - 1)
          (rev_onto xs es)
          accepted
  unfolding on_raw_peak_events
  events-Returns [] s positive r top c first start = record {
    reports = [];
    state = s;
    returns = refl;
    ready = r;
    purged = start;
  }
  events-Returns (x ∷ xs) {es = es} {accepted = accepted} s positive r top (follows, small, c) first
        start =
      let one = event-Returns x s positive r top follows first small start in
      let rest =
        events-Returns xs one.state positive one.ready refl c (Continues-Starts x xs es c)
          one.purged in
      record {
        reports = one.reports ++ rest.reports;
        state = rest.state;
        returns = rw (one.returns, ◌>>=◌, rest.returns, ◌>>=◌);
        ready =
            subst (Ready q l rest.state _ _ _ _)
              (sym (rev_onto-append one.reports rest.reports accepted)) rest.ready;
        purged = rest.purged;
      }
