-- ===== src/Dsp/PeakFinder/Isolator/Settle.antt =====
-- The oldest peak of the first queue is settled: it is compared with the second queue, reported if it
-- dominates on the left too, and moves there.
use v1util.Common.{
  ℕ, ◌+◌, ◌-◌, ◌^◌, ◌≤◌, ◌<◌, ◌≡◌, refl, sym, ap, subst, ◌⊎◌, inl, inr, Bool, true, false, ltb,
  ◌&&◌, List, [], ◌∷◌, ◌++◌, is_nil, ltb→lt, length, here, Memᴰ-last, Descending, Descending-cut,
  arith,
}
use mathlib.Core.List.{Memᴰ}
use mathlib.Core.List.Memᴰ
use mathlib.Core.List.Memᴰ.{head, tail}
use native.Mathlib.Decide.{dec_le}
use v1util.Common.Word.{sub64, sub64_exact}
use v1util.Container.Deque.Loops.{drop_while, trim}
use v1util.Container.Deque.Kept.{drop_while-Memᴰ, drop_while-kept, trim-Memᴰ, trim-kept}
use v1util.Dsp.PeakFinder.Detector.{RawPeak}
use v1util.Dsp.PeakFinder.Isolator.{ValueAtPos, value_at_pos, is_peak}
use v1util.Dsp.PeakFinder.Isolator.Memory.{
  Layered, Layered-more, Layered-bound, Layered-trim, Layered-drop_while, length-Layered,
  trim-guard_Layered, drop_while-guard_Layered,
}
use v1util.Dsp.PeakFinder.Isolator.Dominance.{Firm, RightDominant, LeftDominant, climb}
use v1util.Dsp.PeakFinder.Isolator.Invariant.{Inv, IsPeak, Left, Locked, Unlocked, Left-origin}

-- The tests of the two loops over the second queue.
abbrev pub expired : ℕ → RawPeak → ValueAtPos → Bool
expired w p v = ltb w (sub64 p.stream_pos v.stream_pos)

abbrev pub smaller : RawPeak → ValueAtPos → Bool
smaller p v = ltb v.value p.value

-- What the loops leave of the second queue.
abbrev pub larger_near : ℕ → RawPeak → List ValueAtPos → List ValueAtPos
larger_near w p left = drop_while (smaller p) (trim (expired w p) left)

abbrev pub report_if : Bool → RawPeak → List RawPeak → List RawPeak
report_if true p ps = p ∷ ps
report_if false p ps = ps

module _ (p : RawPeak) (ps : List RawPeak) where
  report_if-Memᴰ :
      (b : Bool) (x : RawPeak) → Memᴰ x (report_if b p ps) → ((x ≡ p) × (b ≡ true)) ⊎ Memᴰ x ps
  report_if-Memᴰ true x i = elim (Memᴰ.cases_cons i) [ inl q ↦ inl (q, refl) | inr j ↦ inr j ]
  report_if-Memᴰ false x i = inr i

  report_if-new : (b : Bool) → b ≡ true → Memᴰ p (report_if b p ps)
  report_if-new true e = here p ps
  report_if-new false e = absurd (cc)

  report_if-old : (b : Bool) (x : RawPeak) → Memᴰ x ps → Memᴰ x (report_if b p ps)
  report_if-old true x i = tail i
  report_if-old false x i = i

  report_if-desc :
      (b : Bool)
      → Descending RawPeak.stream_pos ps
      → ((x : RawPeak) → Memᴰ x ps → x.stream_pos < p.stream_pos)
      → Descending RawPeak.stream_pos (report_if b p ps)
  report_if-desc true d h = (h, d)
  report_if-desc false d h = d

both : (a b : Bool) → a && b ≡ true → (a ≡ true) × (b ≡ true)
both true true e = (refl, refl)
both true false e = absurd (cc)
both false b e = absurd (cc)

is_nil-nil : {A : Type 0} (xs : List A) → is_nil xs ≡ true → xs ≡ []
is_nil-nil [] e = refl
is_nil-nil (x ∷ xs) e = absurd (cc)

no_member-is_nil : {A : Type 0} (xs : List A) → ((x : A) → Memᴰ x xs → ⊥) → is_nil xs ≡ true
no_member-is_nil [] h = refl
no_member-is_nil (x ∷ xs) h = absurd (h x (here x xs))

module _ (w : ℕ) (p : RawPeak) (v : ValueAtPos) (le : v.stream_pos ≤ p.stream_pos)
    (small : p.stream_pos + 1 < 2 ^ 63) where
  expired-true : expired w p v ≡ true → v.stream_pos + w < p.stream_pos
  expired-true h = let e = sub64_exact p.stream_pos v.stream_pos (omega arith) le in ground arith

  expired-false : expired w p v ≡ false → p.stream_pos ≤ v.stream_pos + w
  expired-false h = let e = sub64_exact p.stream_pos v.stream_pos (omega arith) le in ground arith

module _ {locks : List ValueAtPos} {w now : ℕ} {es : List RawPeak} {left : List ValueAtPos}
    {settled accepted : List RawPeak} (right : List RawPeak) (c : RawPeak)
    (v : Inv locks w now es (right ++ c ∷ []) left settled accepted)
    (old : c.stream_pos + w ≤ now) where
  open v use {below, cover}

  own : Memᴰ c es × Firm c × RightDominant w es c
  own = v.right_in c (Memᴰ-last right c)

  small : c.stream_pos + 1 < 2 ^ 63
  small = v.small c own.0

  settled_before : (d : RawPeak) → Memᴰ d settled → d.stream_pos < c.stream_pos
  settled_before d i = below d c i (Memᴰ-last right c)

  origin_before : (u : ValueAtPos) → Left settled u ⊎ Locked locks u → u.stream_pos ≤ c.stream_pos
  origin_before u (inl (d, j, a, b)) = let lt = settled_before d j in omega arith
  origin_before u (inr j) = v.lock_first u j c own.0

  left_before : (u : ValueAtPos) → Memᴰ u left → u.stream_pos ≤ c.stream_pos
  left_before u i = origin_before u (Left-origin v u i)

  layered : Layered (Left settled) (Locked locks) c.stream_pos left
  layered =
      Layered-bound (Left settled) (Locked locks) (now + 1) c.stream_pos left
        (λ u i (d, j, a, b). let lt = settled_before d j in omega arith)
        (λ u i j. v.lock_first u j c own.0) v.left_layered

  larger_near-left : (u : ValueAtPos) → Memᴰ u (larger_near w c left) → Memᴰ u left
  larger_near-left u i =
      trim-Memᴰ (expired w c) left u (drop_while-Memᴰ (smaller c) (trim (expired w c) left) u i)

  -- The second queue's peaks within the window.
  larger_near-within :
      (u : ValueAtPos) → Memᴰ u (trim (expired w c) left) → c.stream_pos ≤ u.stream_pos + w
  larger_near-within u i =
      let (y, j, keeps, le) =
        trim-guard_Layered (Left settled) (Locked locks) (expired w c) c.stream_pos left u layered
          i in
      let lt = left_before y j in
      let a = expired-false w c y (omega arith) small keeps in omega arith

  -- A settled peak in the window and not smaller keeps the second queue from getting empty.
  settled_kept :
      (d : ValueAtPos)
      → Left settled d ⊎ Locked locks d
      → c.stream_pos ≤ d.stream_pos + w
      → c.value ≤ d.value
      → (u : ValueAtPos) × Memᴰ u (larger_near w c left)
  settled_kept d i near big = elim (v.left_cover d i) [
    | inr far ↦ absurd (omega (arith, v.limit_right c (Memᴰ-last right c)))
    | inl (u, j, a, b) ↦
        let lt = left_before u j in
        elim (trim-kept (expired w c) left u j) [
          | inr t ↦ let far = expired-true w c u (omega arith) small t in absurd (omega arith)
          | inl k ↦ elim (drop_while-kept (smaller c) (trim (expired w c) left) u k) [
            | inl m ↦ (u, m)
            | inr t ↦ let far = ltb→lt u.value c.value t in absurd (omega arith)
          ]
        ]
  ]

  empty_dominant : larger_near w c left ≡ [] → LeftDominant w es c
  empty_dominant e d i n before near = elim (dec_le c.value d.value) [
    | no t ↦ omega arith
    | yes t ↦
        let (g, k, m, r, a, b, big) =
          climb w w es d c v.history own.0 own.1 own.2 near i n before t in
        let waits : Memᴰ g settled = elim (cover g k m r) [
          | inr j ↦ j
          | inl j ↦ elim (Memᴰ.append_cases right j) [
            | inl f ↦
                let lt = (Descending-cut RawPeak.stream_pos right c v.right_desc).1 g f in
                absurd (omega arith)
            | inr f ↦ absurd (omega (arith, ap RawPeak.stream_pos (Memᴰ.eq_of_singleton f)))
          ]
        ] in
        let (u, j) = settled_kept (value_at_pos g) (inl (g, waits, refl, refl)) (omega arith) big in
        absurd (Memᴰ.not-nil (subst (Memᴰ u) e j))
  ]

  empty-Unlocked : larger_near w c left ≡ [] → Unlocked w locks c
  empty-Unlocked e u i near = elim (dec_le c.value u.value) [
    | no t ↦ omega arith
    | yes t ↦
        let (k, j) = settled_kept u (inr i) near t in absurd (Memᴰ.not-nil (subst (Memᴰ k) e j))
  ]

  dominant_empty :
      LeftDominant w es c
      → Unlocked w locks c
      → (u : ValueAtPos) → Memᴰ u (larger_near w c left)
      → ⊥
  dominant_empty l free u i =
      let kept = trim (expired w c) left in
      let (y, j, keeps, le) =
        drop_while-guard_Layered (Left settled) (Locked locks) (smaller c) c.stream_pos kept u
          (Layered-trim (Left settled) (Locked locks) (expired w c) c.stream_pos left layered) i in
      let near = larger_near-within y j in
      elim (Left-origin v y (trim-Memᴰ (expired w c) left y j)) [
        | inr k ↦ let less = free y k near in absurd (ground arith)
        | inl (d, k, a, b) ↦
            let lt = settled_before d k in
            let (m, n, r, o) = v.settled_in d k in
            let less = l d m n lt (omega arith) in absurd (ground arith)
      ]

  -- The report is right.
  reported :
      (p : RawPeak)
      → Memᴰ p (report_if (is_peak c.type && is_nil (larger_near w c left)) c accepted)
      → Memᴰ p (c ∷ settled) × IsPeak p × LeftDominant w es p × Unlocked w locks p
  reported p i =
      elim (report_if-Memᴰ c accepted (is_peak c.type && is_nil (larger_near w c left)) p i) [
        | inl (q, e) ↦
            let (t, n) = both (is_peak c.type) (is_nil (larger_near w c left)) e in
            (
              head q,
              subst IsPeak (sym q) t,
              subst (LeftDominant w es) (sym q)
                  (empty_dominant (is_nil-nil (larger_near w c left) n)),
              subst (Unlocked w locks) (sym q)
                  (empty-Unlocked (is_nil-nil (larger_near w c left) n)),
            )
        | inr j ↦ let (k, t, l, free) = v.accepted_in p j in (tail k, t, l, free)
      ]

  all_reported :
      (p : RawPeak)
      → Memᴰ p (c ∷ settled)
      → IsPeak p
      → LeftDominant w es p
      → Unlocked w locks p
      → Memᴰ p (report_if (is_peak c.type && is_nil (larger_near w c left)) c accepted)
  all_reported p i t l free =
      let b = is_peak c.type && is_nil (larger_near w c left) in
      elim (Memᴰ.cases_cons i) [
        | inl q ↦
            let n : is_nil (larger_near w c left) ≡ true =
              no_member-is_nil _ (
                dominant_empty (subst (LeftDominant w es) q l) (subst (Unlocked w locks) q free)) in
            let o : is_peak c.type ≡ true = subst IsPeak q t in
            subst (λ k. Memᴰ k (report_if b c accepted)) (sym q)
              (report_if-new c accepted b (rw (o, n)))
        | inr j ↦ report_if-old c accepted b p (v.accepted_all p j t l free)
      ]

  old_covered :
      (d : ValueAtPos)
      → Left settled d ⊎ Locked locks d
      → ((u : ValueAtPos) × Memᴰ u (value_at_pos c ∷ larger_near w c left)
          × (d.stream_pos ≤ u.stream_pos)
          × (d.value ≤ u.value))
        ⊎ (d.stream_pos + w < c.stream_pos)
  old_covered d i = elim (v.left_cover d i) [
    | inr far ↦ inr (omega (arith, v.limit_right c (Memᴰ-last right c)))
    | inl (u, k, a, b) ↦
        let le = left_before u k in
        elim (trim-kept (expired w c) left u k) [
          | inr t ↦ let far = expired-true w c u le small t in inr (omega arith)
          | inl m ↦ elim (drop_while-kept (smaller c) (trim (expired w c) left) u m) [
            | inl n ↦ inl (u, tail n, a, b)
            | inr t ↦
                let less = ltb→lt u.value c.value t in
                inl (
                  value_at_pos c,
                  here (value_at_pos c) (larger_near w c left),
                  omega arith,
                  omega arith,
                )
          ]
        ]
  ]

  left_covered :
      (d : ValueAtPos)
      → Left (c ∷ settled) d ⊎ Locked locks d
      → ((u : ValueAtPos) × Memᴰ u (value_at_pos c ∷ larger_near w c left)
          × (d.stream_pos ≤ u.stream_pos)
          × (d.value ≤ u.value))
        ⊎ (d.stream_pos + w < c.stream_pos)
  left_covered d (inr j) = old_covered d (inr j)
  left_covered d (inl (e, i, a, b)) = elim (Memᴰ.cases_cons i) [
    | inr j ↦ old_covered d (inl (e, j, a, b))
    | inl q ↦ inl (
      value_at_pos c,
      here (value_at_pos c) (larger_near w c left),
      omega (arith, ap RawPeak.stream_pos q),
      omega (arith, ap RawPeak.value q),
    )
  ]

  larger_near-Layered : Layered (Left settled) (Locked locks) c.stream_pos (larger_near w c left)
  larger_near-Layered =
      Layered-drop_while (Left settled) (Locked locks) (smaller c) c.stream_pos _
        (Layered-trim (Left settled) (Locked locks) (expired w c) c.stream_pos left layered)

  remembered :
      Layered (Left (c ∷ settled)) (Locked locks) (now + 1) (value_at_pos c ∷ larger_near w c left)
  unfolding Layered
  remembered = inl (
    (c, here c settled, refl, refl),
    omega arith,
    Layered-more (Left settled) (Left (c ∷ settled)) (Locked locks)
        (λ u (d, k, a, b). (d, tail k, a, b)) c.stream_pos _ larger_near-Layered,
  )

  -- Settling the oldest peak of the first queue keeps the invariant.
  pub settle :
      Inv locks w now es right
        (value_at_pos c ∷ larger_near w c left)
        (c ∷ settled)
        (report_if (is_peak c.type && is_nil (larger_near w c left)) c accepted)
  settle = record {
    history = v.history;
    small = v.small;
    past = v.past;
    right_in = λ d i. v.right_in d (Memᴰ.append_left (c ∷ []) i);
    right_desc = (Descending-cut RawPeak.stream_pos right c v.right_desc).0;
    settled_in = λ d i. elim (Memᴰ.cases_cons i) [
      | inl q ↦
          subst (λ k. Memᴰ k es × Firm k × RightDominant w es k × (k.stream_pos + w ≤ now)) (sym q)
            (own.0, own.1, own.2, old)
      | inr j ↦ v.settled_in d j
    ];
    below = λ d e i j. elim (Memᴰ.cases_cons i) [
      | inl q ↦
          subst (λ k. k.stream_pos < e.stream_pos) (sym q)
            ((Descending-cut RawPeak.stream_pos right c v.right_desc).1 e j)
      | inr k ↦ below d e k (Memᴰ.append_left (c ∷ []) j)
    ];
    cover = λ d i n r. elim (cover d i n r) [
      | inr j ↦ inr (tail j)
      | inl j ↦ elim (Memᴰ.append_cases right j) [
        | inl k ↦ inl k
        | inr k ↦ inr (head (Memᴰ.eq_of_singleton k))
      ]
    ];
    lock_first = v.lock_first;
    lock_past = v.lock_past;
    left_layered = remembered;
    limit = c.stream_pos;
    limit_right =
        λ d i. omega (arith, (Descending-cut RawPeak.stream_pos right c v.right_desc).1 d i);
    limit_now = omega arith;
    left_cover = left_covered;
    accepted_in = reported;
    accepted_all = all_reported;
    accepted_desc =
        report_if-desc c accepted (is_peak c.type && is_nil (larger_near w c left)) v.accepted_desc
          (λ p i. settled_before p (v.accepted_in p i).0);
  }

  -- There is room in the second queue for one peak more.
  pub length-larger_near : length (larger_near w c left) ≤ w + 1
  length-larger_near =
      let short =
        length-Layered (Left settled) (Locked locks) (c.stream_pos - w) c.stream_pos
          (larger_near w c left) larger_near-Layered
          (λ u i.
            let near = larger_near-within u (drop_while-Memᴰ (smaller c) _ u i) in omega arith) in
      omega arith
