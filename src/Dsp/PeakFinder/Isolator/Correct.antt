-- ===== src/Dsp/PeakFinder/Isolator/Correct.antt =====
-- The isolator reports the dominant peaks, each once, as soon as they are old enough.
use v1util.Common.{
  ℕ, ◌+◌, ◌-◌, ◌*◌, ◌%◌, ◌^◌, ◌≤◌, ◌<◌, ◌≡◌, refl, sym, ap, subst, ◌∙◌, ◌↔◌, inl, inr, true, ltb,
  some, List, [], ◌∷◌, ◌++◌, lt→ltb, here, rev_onto, rev_onto-append, rev_onto-Memᴰ, Descending,
  ◌>>=◌, ◌>>◌, v1_assert, arith,
}
use mathlib.Core.List.{Memᴰ}
use mathlib.Core.List.Memᴰ
use native.Mathlib.Decide.{dec_le}
use v1util.Common.Word.{word, sub64}
use v1util.Base.Math.{ring_greater_eq}
use v1util.Container.Deque.{Deque}
use v1util.Dsp.PeakFinder.Detector.{RawPeak}
use v1util.Dsp.PeakFinder.Isolator.{
  ValueAtPos, Isolator, make_isolator, add_lockout_for_initial_value, on_raw_peak_events,
  youngest_raw_peak_value, purge_up_until, isolate_all, isolate_from,
}
use v1util.Dsp.PeakFinder.Isolator.Memory.{Layered}
use v1util.Dsp.PeakFinder.Isolator.Invariant.{Inv, Left, Locked, Unlocked}
use v1util.Dsp.PeakFinder.Isolator.Events.{Ready, ring_greater_eq-after}
use v1util.Dsp.PeakFinder.Isolator.Calls.{
  Continues, Starts, newest_pos, youngest-some, events-Returns,
}
use v1util.Dsp.PeakFinder.Isolator.Purge.{
  Dominant, Exact, Purged, Inv-Exact, marked, purge-nil, purge-early, purge-late, purge_old-Purged,
  ring_greater_eq-before, ring_greater_eq-purge,
}

module _ (q : Deque RawPeak) (l : Deque ValueAtPos) where
  module _ {locks : List ValueAtPos} {w now : ℕ} {es accepted : List RawPeak} (s : Isolator q l)
      (end : ℕ) (r : Ready q l s locks w now es accepted)
      (start : s.last_purge_stream_pos ≡ word - 1) (positive : 0 < w) (le : now ≤ end)
      (soon : end ≤ now + w + 1) (small : end + w + 1 < 2 ^ 63) where
    allowed : ring_greater_eq 63 end (sub64 s.last_purge_stream_pos s.window_size) ≡ true
    allowed =
        ap (λ k. ring_greater_eq 63 end (sub64 k s.window_size)) start
        ∙ ap (λ k. ring_greater_eq 63 end (sub64 (word - 1) k)) r.window
        ∙ ring_greater_eq-purge end w small

    nothing_waits :
        purge_up_until q l end s ≡ some ([], marked q l end s)
        → ((c : RawPeak) → Memᴰ c r.right → end < c.stream_pos + w)
        → Purged q l (purge_up_until q l end s) locks w end es accepted
    nothing_waits e young = record {
      reports = [];
      state = marked q l end s;
      returns = e;
      exact = Inv-Exact r.inv end le young;
      once = r.inv.accepted_desc;
    }

    purge-Purged :
        (right : List RawPeak)
        → r.right ≡ right
        → Purged q l (purge_up_until q l end s) locks w end es accepted
    purge-Purged [] e =
        let h = subst (q.Holds (2 * w + 1) s.right_dominant_peaks) e r.right_Holds in
        nothing_waits
          (purge-nil q l s end allowed (q.empty-Holds [] h)
            (ring_greater_eq-after end end (omega arith) (omega arith)))
          (λ c i. absurd (Memᴰ.not-nil (subst (Memᴰ c) e i)))
    purge-Purged (c ∷ cs) e =
        let h = subst (q.Holds (2 * w + 1) s.right_dominant_peaks) e r.right_Holds in
        let (k, n, d) = r.inv.right_in c (subst (Memᴰ c) (sym e) (here c cs)) in
        let past = r.inv.past c k in
        elim (dec_le end c.stream_pos) [
          | yes t ↦
              nothing_waits
                (purge-early q l s end allowed (q.empty-Holds (c ∷ cs) h) (q.back-Holds h)
                  (ring_greater_eq-after c.stream_pos end t (omega arith)))
                (λ d i. let f = r.fresh d i in omega arith)
          | no t ↦
              let done =
                purge_old-Purged q l (marked q l end s) end r.window r.right_Holds positive le
                  (omega arith) (λ d i. let f = r.fresh d i in omega arith) r.left r.left_Holds
                  r.inv in
              record {
                reports = done.reports;
                state = done.state;
                returns =
                    purge-late q l s end allowed (q.empty-Holds (c ∷ cs) h) (q.back-Holds h)
                      (ring_greater_eq-before c.stream_pos end (omega arith) (omega arith))
                      done.returns;
                exact = done.exact;
                once = done.once;
              }
        ]

  module _ (w now : ℕ) (locks : List ValueAtPos) (ld : l.Carrier) (fits : 2 * w + 2 < word)
      (hl : l.Holds (2 * w + 1) ld locks)
      (lock_past : (u : ValueAtPos) → Memᴰ u locks → u.stream_pos ≤ now)
      (layered : Layered (Left []) (Locked locks) (now + 1) locks) where
    start_Inv : Inv locks w now [] [] locks [] []
    start_Inv = record {
      history = tt;
      small = λ e i. absurd (Memᴰ.not-nil i);
      past = λ e i. absurd (Memᴰ.not-nil i);
      right_in = λ e i. absurd (Memᴰ.not-nil i);
      right_desc = tt;
      settled_in = λ e i. absurd (Memᴰ.not-nil i);
      below = λ d e i j. absurd (Memᴰ.not-nil i);
      cover = λ e i n r. absurd (Memᴰ.not-nil i);
      lock_first = λ u i e j. absurd (Memᴰ.not-nil j);
      lock_past = lock_past;
      left_layered = layered;
      limit = 0;
      limit_right = λ c i. omega arith;
      limit_now = omega arith;
      left_cover = λ d o. elim o [
        | inl (e, i, a, b) ↦ absurd (Memᴰ.not-nil i)
        | inr i ↦ inl (d, i, omega arith, omega arith)
      ];
      accepted_in = λ p i. absurd (Memᴰ.not-nil i);
      accepted_all = λ p i t d free. absurd (Memᴰ.not-nil i);
      accepted_desc = tt;
    }

    start_Ready :
        Ready q l
          (record {
            window_size = w;
            right_dominant_peaks = q.with_capacity (2 * w + 1);
            left_dominance_memory = ld;
            last_purge_stream_pos = word - 1;
          })
          locks
          w
          now
          []
          []
    start_Ready = record {
      right = [];
      left = locks;
      settled = [];
      window = refl;
      right_Holds = q.with_capacity-Holds (2 * w + 1) (omega arith);
      left_Holds = hl;
      inv = start_Inv;
      fresh = λ c i. absurd (Memᴰ.not-nil i);
    }

Starts-zero : (ps : List RawPeak) → Starts 0 ps
Starts-zero [] = tt
Starts-zero (p ∷ ps) = omega arith

-- Dominance does not depend on the order of the history.
Dominant-members :
    (w end : ℕ) (es fs : List RawPeak) (p : RawPeak)
    → ((x : RawPeak) → Memᴰ x es ↔ Memᴰ x fs)
    → Dominant w end es p
    → Dominant w end fs p
Dominant-members w end es fs p same (i, t, r, d, old) =
    ((same p).0 i, t, (λ e j. r e ((same e).1 j)), (λ e j. d e ((same e).1 j)), old)

reversed : (xs : List RawPeak) (x : RawPeak) → Memᴰ x (rev_onto xs []) ↔ Memᴰ x xs
reversed xs x = (
  (λ i. elim ((rev_onto-Memᴰ xs [] x).0 i) [ inl j ↦ j | inr j ↦ absurd (Memᴰ.not-nil j) ]),
  (λ i. (rev_onto-Memᴰ xs [] x).1 (inl i)),
)

conclude :
    (locks : List ValueAtPos) (w end : ℕ) (ps a b : List RawPeak)
    → Exact locks w end (rev_onto ps []) (rev_onto b (rev_onto a []))
    → (p : RawPeak) → Memᴰ p (a ++ b) ↔ (Dominant w end ps p × Unlocked w locks p)
conclude locks w end ps a b exact p =
    let e = rev_onto-append a b [] in
    (
      (λ i.
          let (d, free) = (exact p).0 (subst (Memᴰ p) e ((reversed (a ++ b) p).1 i)) in
          (Dominant-members w end (rev_onto ps []) ps p (reversed ps) d, free)),
      (λ (d, free). (reversed (a ++ b) p).0 (
          subst (Memᴰ p) (sym e) (
            (exact p).1 (
              Dominant-members w end ps (rev_onto ps []) p
                  (λ x. ((reversed ps x).1, (reversed ps x).0)) d,
              free,
            )))),
    )

module _ (q : Deque RawPeak) (l : Deque ValueAtPos) where
  -- The raw peaks and one purge, from an isolator that has taken none.
  pub record Isolated (locks : List ValueAtPos) (w end : ℕ) (ps : List RawPeak) (s : Isolator q l)
      : Type 0 where
    pub before : List RawPeak
    pub after : List RawPeak
    pub state : Isolator q l
    pub last_state : Isolator q l
    pub runs : on_raw_peak_events q l ps s ≡ some (before, state)
    pub purges : purge_up_until q l end state ≡ some (after, last_state)
    pub youngest : (v : ℕ) × (youngest_raw_peak_value q l state ≡ some v)
    pub once : Descending RawPeak.stream_pos (rev_onto (before ++ after) [])
    pub exact :
        (p : RawPeak) → Memᴰ p (before ++ after) ↔ (Dominant w end ps p × Unlocked w locks p)

  events_purge-Isolated :
      (locks : List ValueAtPos) (w now end : ℕ) (ps : List RawPeak) (s : Isolator q l)
      → 0 < w
      → Ready q l s locks w now [] []
      → s.last_purge_stream_pos ≡ word - 1
      → Continues ps []
      → Starts now ps
      → newest_pos now ps ≤ end
      → end ≤ newest_pos now ps + w + 1
      → end + w + 1 < 2 ^ 63
      → Isolated locks w end ps s
  events_purge-Isolated locks w now end ps s positive ready start continues first le soon small =
      let events = events-Returns q l ps s positive ready tt continues first start in
      let purge =
        purge-Purged q l events.state end events.ready events.purged positive le soon small
          events.ready.right refl in
      record {
        before = events.reports;
        after = purge.reports;
        state = events.state;
        last_state = purge.state;
        runs = events.returns;
        purges = purge.returns;
        youngest = youngest-some q l events.state events.ready.right events.ready.right_Holds;
        once =
            subst (Descending RawPeak.stream_pos)
              (sym (rev_onto-append events.reports purge.reports [])) purge.once;
        exact = conclude locks w end ps events.reports purge.reports purge.exact;
      }

  -- For a lockout distance from 1 up whose queues fit into the words, and raw peaks each of which follows
  -- the one before it, at positions below 2 ^ 63 - 1, with a purge at the newest of them or up to one more
  -- than the lockout distance behind it: no assertion fires, and the reported peaks are exactly the peaks
  -- with no larger raw peak within the distance behind them, only smaller ones within it before them, and
  -- the distance between them and the purge, in ascending order and hence each once.
  pub isolate_all-Dominant :
      (w : ℕ) (ps : List RawPeak) (end : ℕ)
      → 0 < w
      → 2 * w + 2 < word
      → Continues ps []
      → newest_pos 0 ps ≤ end
      → end ≤ newest_pos 0 ps + w + 1
      → end + w + 1 < 2 ^ 63
      → (accepted : List RawPeak) × (isolate_all q l w ps end ≡ some accepted)
        × Descending RawPeak.stream_pos (rev_onto accepted [])
        × ((p : RawPeak) → Memᴰ p accepted ↔ Dominant w end ps p)
  unfolding isolate_all make_isolator Layered
  isolate_all-Dominant w ps end positive fits continues le soon small =
      let some_window : ltb 0 w ≡ true = lt→ltb 0 w positive in
      let done =
        events_purge-Isolated [] w 0 end ps _ positive
          (start_Ready q l w 0 [] (l.with_capacity (2 * w + 1)) fits
            (l.with_capacity-Holds (2 * w + 1) (omega arith)) (λ u i. absurd (Memᴰ.not-nil i)) tt)
          refl continues (Starts-zero ps) le soon small in
      let no_wrap : (2 * w + 1) % word ≡ 2 * w + 1 = omega arith in
      (
        done.before ++ done.after,
        rw (some_window, ◌>>◌, v1_assert, no_wrap, ◌>>=◌, done.runs, ◌>>=◌, done.purges, ◌>>=◌),
        done.once,
        λ p. (
          (λ i. ((done.exact p).0 i).0),
          (λ d. (done.exact p).1 (d, λ u i near. absurd (Memᴰ.not-nil i))),
        ),
      )

  -- What an isolator with the value of the first sample makes of raw peaks and a purge.
  pub record FromFirst (w : ℕ) (initial : ValueAtPos) (ps : List RawPeak) (end : ℕ) : Type 0 where
    pub made : Isolator q l
    pub locked : Isolator q l
    pub makes : make_isolator q l w ≡ some made
    pub locks : add_lockout_for_initial_value q l initial made ≡ some locked
    pub isolated : Isolated (initial ∷ []) w end ps locked

  pub isolator-FromFirst :
      (w : ℕ) (initial : ValueAtPos) (ps : List RawPeak) (end : ℕ)
      → 0 < w
      → 2 * w + 2 < word
      → Continues ps []
      → Starts initial.stream_pos ps
      → newest_pos initial.stream_pos ps ≤ end
      → end ≤ newest_pos initial.stream_pos ps + w + 1
      → end + w + 1 < 2 ^ 63
      → FromFirst w initial ps end
  unfolding make_isolator add_lockout_for_initial_value Layered
  isolator-FromFirst w initial ps end positive fits continues first le soon small =
      let some_window : ltb 0 w ≡ true = lt→ltb 0 w positive in
      let no_wrap : (2 * w + 1) % word ≡ 2 * w + 1 = omega arith in
      let (ld, pushes, hl) =
        l.push_back-Holds initial (l.with_capacity-Holds (2 * w + 1) (omega arith)) (omega arith) in
      record {
        made = record {
          window_size = w;
          right_dominant_peaks = q.with_capacity (2 * w + 1);
          left_dominance_memory = l.with_capacity (2 * w + 1);
          last_purge_stream_pos = word - 1;
        };
        locked = record {
          window_size = w;
          right_dominant_peaks = q.with_capacity (2 * w + 1);
          left_dominance_memory = ld;
          last_purge_stream_pos = word - 1;
        };
        makes = rw (some_window, ◌>>◌, v1_assert, no_wrap);
        locks = rw (pushes, ◌>>=◌);
        isolated =
            events_purge-Isolated (initial ∷ []) w initial.stream_pos end ps _ positive
              (start_Ready q l w initial.stream_pos (initial ∷ []) ld fits hl
                (λ u i. omega (arith, ap ValueAtPos.stream_pos (Memᴰ.eq_of_singleton i)))
                (inr (refl, here initial [], omega arith)))
              refl continues first le soon small;
      }

  -- The first value locks out the peaks within the distance behind it that do not exceed it.
  pub Isolated-first :
      (w : ℕ) (initial : ValueAtPos) (ps : List RawPeak) (end : ℕ) (s : Isolator q l)
      (done : Isolated (initial ∷ []) w end ps s) (p : RawPeak)
      → Memᴰ p (done.before ++ done.after)
        ↔ (Dominant w end ps p × (p.stream_pos ≤ initial.stream_pos + w → initial.value < p.value))
  Isolated-first w initial ps end s done p = (
    (λ i. let (d, free) = (done.exact p).0 i in (d, free initial (here initial []))),
    (λ (d, free). (done.exact p).1 (
      d,
      λ u i near.
          let e = Memᴰ.eq_of_singleton i in
          subst (λ k. k.value < p.value) (sym e) (free (omega (arith, ap ValueAtPos.stream_pos e))),
    )),
  )

  pub isolate_from-Dominant :
      (w : ℕ) (initial : ValueAtPos) (ps : List RawPeak) (end : ℕ)
      → 0 < w
      → 2 * w + 2 < word
      → Continues ps []
      → Starts initial.stream_pos ps
      → newest_pos initial.stream_pos ps ≤ end
      → end ≤ newest_pos initial.stream_pos ps + w + 1
      → end + w + 1 < 2 ^ 63
      → (accepted : List RawPeak) × (isolate_from q l w initial ps end ≡ some accepted)
        × Descending RawPeak.stream_pos (rev_onto accepted [])
        × ((p : RawPeak)
            → Memᴰ p accepted ↔ (
                Dominant w end ps p
                × (p.stream_pos ≤ initial.stream_pos + w → initial.value < p.value)))
  unfolding isolate_from
  isolate_from-Dominant w initial ps end positive fits continues first le soon small =
      let r = isolator-FromFirst w initial ps end positive fits continues first le soon small in
      let done = r.isolated in
      (
        done.before ++ done.after,
        rw (r.makes, ◌>>=◌, r.locks, ◌>>=◌, done.runs, ◌>>=◌, done.purges, ◌>>=◌),
        done.once,
        λ p. Isolated-first w initial ps end r.locked done p,
      )
