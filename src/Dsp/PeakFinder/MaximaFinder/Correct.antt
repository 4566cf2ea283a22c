-- ===== src/Dsp/PeakFinder/MaximaFinder/Correct.antt =====
-- `SlidingWindowLocalMaximaFinder` returns the maximum of the last samples, whatever the deque.
use v1util.Common.{
  ℕ, zero, suc, ◌+◌, ◌%◌, ◌≤◌, ◌<◌, ◌≡◌, refl, sym, ap, ap₂, ◌∙◌, Bool, true, false, leb, List, [],
  ◌∷◌, ◌++◌, length, take, min, some, subst, if◌then◌else◌, arith, lt→ltb, length-take,
}
use native.Mathlib.Decide.{dec_lt}
use v1util.Common.Word.{word, add64, add64_exact, sub64}
use v1util.Container.Deque.{Deque}
use v1util.Container.Deque.Loops.{drop_while, trim, pop_back_while-Holds, pop_front_while-Holds}
use v1util.Dsp.PeakFinder.MaximaFinder.{
  Candidate, Finder, min_value, make, retire, add, finalize, add_all,
}
use v1util.Dsp.PeakFinder.MaximaFinder.Skyline.{
  maximum, dominated, cover, skyline, skyline-last, length-drop_while-skyline, outdated,
  trim-skyline,
}

-- The reference: what a call returns after the samples `past`, newest first.
abbrev pub windowed_maximum : ℕ → List ℕ → ℕ
windowed_maximum window past =
    if leb window (length past) then maximum (take window past) else min_value

abbrev pub windowed_maxima : ℕ → List ℕ → List ℕ → List ℕ
windowed_maxima window past [] = []
windowed_maxima window past (v ∷ vs) =
    windowed_maximum window past ∷ windowed_maxima window (v ∷ past) vs

abbrev pub reverse_onto : List ℕ → List ℕ → List ℕ
reverse_onto [] past = past
reverse_onto (v ∷ vs) past = reverse_onto vs (v ∷ past)

-- Past the window's length there is one sample more to take.
take-suc :
    (n : ℕ) (xs : List ℕ) → suc n ≤ length xs → (o : ℕ) × (take (suc n) xs ≡ take n xs ++ o ∷ [])
take-suc n [] h = absurd (omega arith)
take-suc zero (x ∷ xs) h = (x, refl)
take-suc (suc n) (x ∷ xs) h = let (o, e) = take-suc n xs (omega arith) in (o, ap (◌∷◌ x) e)

take-all : (n : ℕ) (xs : List ℕ) → length xs ≤ n → take n xs ≡ xs
take-all zero [] h = refl
take-all zero (x ∷ xs) h = absurd (omega arith)
take-all (suc n) [] h = refl
take-all (suc n) (x ∷ xs) h = ap (◌∷◌ x) (take-all n xs (omega arith))

module _ (q : Deque Candidate) where
  -- The state after the samples `past`, for a window of `suc rest`.
  pub record Tracks (rest : ℕ) (past : List ℕ) (f : Finder q) : Type 0 where
    pub fits : suc (suc rest) < word
    pub window : f.window_size ≡ suc rest
    pub read : f.initial_elements_read ≡ min (suc rest) (length past)
    pub now : f.current_sample_pos ≡ length past % word
    pub held : q.Holds (suc rest) f.candidates (skyline (length past) (take (suc rest) past))

  -- `retire` answers the window's maximum and forgets the sample that leaves the window.
  record Retired (rest : ℕ) (past : List ℕ) (f : Finder q) : Type 0 where
    state : Finder q
    returns : retire q f ≡ some (windowed_maximum (suc rest) past, state)
    window : state.window_size ≡ suc rest
    read : state.initial_elements_read ≡ min (suc rest) (suc (length past))
    now : state.current_sample_pos ≡ length past % word
    held : q.Holds (suc rest) state.candidates (skyline (length past) (take rest past))

  retire-early :
      (rest : ℕ) (past : List ℕ) (f : Finder q)
      → Tracks rest past f
      → length past < suc rest
      → Retired rest past f
  unfolding retire
  retire-early rest past f t h =
      let waits : leb f.window_size f.initial_elements_read ≡ false = ground arith in
      let short : leb (suc rest) (length past) ≡ false = ground arith in
      record {
        state = record f { initial_elements_read = add64 f.initial_elements_read 1 };
        returns = rw (waits, short);
        window = t.window;
        read = omega (arith, add64_exact f.initial_elements_read 1);
        now = t.now;
        held =
            subst (λ z. q.Holds (suc rest) f.candidates (skyline (length past) z))
              (take-all (suc rest) past (omega arith) ∙ sym (take-all rest past (omega arith)))
              t.held;
      }

  retire-full :
      (rest : ℕ) (past : List ℕ) (f : Finder q)
      → Tracks rest past f
      → suc rest ≤ length past
      → Retired rest past f
  unfolding retire
  retire-full rest [] f t h = absurd (omega arith)
  retire-full rest (p ∷ ps) f t h =
      let n : ℕ = length (p ∷ ps) in
      let ready : leb f.window_size f.initial_elements_read ≡ true = ground arith in
      let long : leb (suc rest) n ≡ true = ground arith in
      let (cs, oldest, last, top) = skyline-last n p (take rest ps) in
      let (o, full) = take-suc rest (p ∷ ps) h in
      let test : Candidate → Bool =
        λ c. leb f.window_size (sub64 f.current_sample_pos c.sample_pos) in
      let (kept, popped, v) =
        pop_front_while-Holds q test (q.size f.candidates + 1) (suc rest) f.candidates
          (skyline n (take (suc rest) (p ∷ ps))) t.held (omega (arith, q.size-Holds t.held)) in
      let trimmed : trim test (skyline n (take (suc rest) (p ∷ ps)))
          ≡ skyline n (take rest (p ∷ ps)) =
        ap₂ (λ w m. trim (λ c. leb w (sub64 m c.sample_pos)) (skyline n (take (suc rest) (p ∷ ps))))
          t.window t.now
        ∙ ap (λ z. trim (outdated (suc rest) n) (skyline n z)) full
        ∙ trim-skyline (suc rest) n (take rest (p ∷ ps)) o
            (omega (arith, length-take rest (p ∷ ps))) h (omega arith) in
      record {
        state = record f { candidates = kept };
        returns = rw (
          ready,
          long,
          q.front-Holds cs oldest (subst (q.Holds (suc rest) f.candidates) last t.held),
          popped,
          top,
        );
        window = t.window;
        read = omega arith;
        now = t.now;
        held = subst (q.Holds (suc rest) kept) trimmed v;
      }

  retire-Retired :
      (rest : ℕ) (past : List ℕ) (f : Finder q) → Tracks rest past f → Retired rest past f
  retire-Retired rest past f t = elim (dec_lt (length past) (suc rest)) [
    | yes h ↦ retire-early rest past f t h
    | no h ↦ retire-full rest past f t (omega arith)
  ]

  -- One call: the maximum of the window so far, and the state for one sample more.
  pub add-Tracks :
      (rest : ℕ) (past : List ℕ) (v : ℕ) (f : Finder q)
      → Tracks rest past f
      → (f' : Finder q) × (add q v f ≡ some (windowed_maximum (suc rest) past, f'))
        × Tracks rest (v ∷ past) f'
  unfolding add
  add-Tracks rest past v f t =
      let r : Retired rest past f = retire-Retired rest past f t in
      let g : Finder q = r.state in
      let n : ℕ = length past in
      let (kept, popped, k) =
        pop_back_while-Holds q (dominated v) (q.size g.candidates + 1) (suc rest) g.candidates
          (skyline n (take rest past)) r.held (omega (arith, q.size-Holds r.held)) in
      let room : length (drop_while (dominated v) (skyline n (take rest past))) < suc rest =
        omega (arith, length-drop_while-skyline v n (take rest past), length-take rest past) in
      let (extended, pushed, x) =
        q.push_back-Holds (record { sample_pos = g.current_sample_pos; value = v }) k room in
      (
        record g { candidates = extended; current_sample_pos = add64 g.current_sample_pos 1 },
        rw (r.returns, popped, pushed),
        record {
          fits = t.fits;
          window = r.window;
          read = r.read;
          now = unfold add64 in omega (arith, r.now);
          held =
              subst (λ k. q.Holds (suc rest) extended (cover k v (skyline k (take rest past))))
                (omega arith)
                (subst
                  (λ m. q.Holds (suc rest) extended (
                    record { sample_pos = m; value = v }
                    ∷ drop_while (dominated v) (skyline n (take rest past))))
                  r.now x);
        },
      )

  make-Tracks :
      (rest : ℕ)
      → suc (suc rest) < word
      → (f : Finder q) × (make q (suc rest) ≡ some f) × Tracks rest [] f
  unfolding make
  make-Tracks rest h = (
    record {
      window_size = suc rest;
      initial_elements_read = 0;
      current_sample_pos = 0;
      candidates = q.with_capacity (suc rest);
    },
    rw (lt→ltb 0 (suc rest) (omega arith)),
    record {
      fits = h;
      window = refl;
      read = omega arith;
      now = refl;
      held = q.with_capacity-Holds (suc rest) h;
    },
  )

  add_all-Tracks :
      (rest : ℕ) (vs past : List ℕ) (f : Finder q)
      → Tracks rest past f
      → (f' : Finder q) × (add_all q vs f ≡ some (windowed_maxima (suc rest) past vs, f'))
        × Tracks rest (reverse_onto vs past) f'
  unfolding add_all
  add_all-Tracks rest [] past f t = (f, refl, t)
  add_all-Tracks rest (v ∷ vs) past f t =
      let (g, one, u) = add-Tracks rest past v f t in
      let (f', more, w) = add_all-Tracks rest vs (v ∷ past) g u in (f', rw (one, more), w)

  finalize-Tracks :
      (rest : ℕ) (past : List ℕ) (f : Finder q)
      → Tracks rest past f
      → finalize q f ≡ some (maximum (take (suc rest) past))
  unfolding finalize
  finalize-Tracks rest [] f t = rw (q.empty-Holds [] t.held)
  finalize-Tracks rest (p ∷ ps) f t =
      let (cs, oldest, last, top) = skyline-last (length (p ∷ ps)) p (take rest ps) in
      rw (
        q.empty-Holds _ t.held,
        q.front-Holds cs oldest (subst (q.Holds (suc rest) f.candidates) last t.held),
        top,
      )

  -- For any samples and a window from 1 to 2 ^ 64 - 2, `add` never meets a failed assertion; it returns the
  -- smallest value until the window is full, then at each call the maximum of the samples that came
  -- before it within the window; and `finalize` returns the maximum of the last window.
  pub add_all-windowed_maxima :
      (window : ℕ) (vs : List ℕ)
      → 0 < window
      → suc window < word
      → (start end : Finder q) × (make q window ≡ some start)
        × (add_all q vs start ≡ some (windowed_maxima window [] vs, end))
        × (finalize q end ≡ some (maximum (take window (reverse_onto vs []))))
  add_all-windowed_maxima zero vs pos fits = absurd (omega arith)
  add_all-windowed_maxima (suc rest) vs pos fits =
      let (start, made, t) = make-Tracks rest fits in
      let (end, ran, u) = add_all-Tracks rest vs [] start t in
      (start, end, made, ran, finalize-Tracks rest (reverse_onto vs []) end u)
