-- ===== src/Dsp/WaveIo/Samples/Frames.antt =====
-- Values in frames of one for each channel, and the loops that put a block into frames.
use v1util.Common.{
  ℕ, zero, suc, ◌+◌, ◌*◌, ◌/◌, ◌%◌, ◌≤◌, ◌<◌, ◌≡◌, ◌≢◌, refl, sym, ap, ap₂, subst, ◌∙◌, ◌==◌, leb,
  lt→ltb, le→leb, ==_iff, true, false, Option, some, ◌>>=◌, ◌>>◌, v1_assert, arith,
}
use native.Mathlib.Decide.{dec_le}
use native.Mathlib.Nat.{
  add-mul-mod_self_right, add-mul-div_right, mod-eq_of_lt, div-eq_of_lt, div-add-mod', mod-lt,
  add-mul, mul-le-mul_right, div-lt_iff_lt-mul, mul-div_left, mul-mod_left, mul_comm,
}
use v1util.Dsp.WaveIo.Samples.{
  Span, AudioBlock, update, store, get_sample, interleave_samples, interleave_channels, interleave,
}

-- The place `j + i * c` of frame `i`.
pub frame-mod : (c i j : ℕ) → j < c → (j + i * c) % c ≡ j
frame-mod c i j h = add-mul-mod_self_right j i c ∙ mod-eq_of_lt h

pub frame-div : (c i j : ℕ) → j < c → (j + i * c) / c ≡ i
frame-div c i j h =
    add-mul-div_right j i (omega arith) ∙ ap (λ k. k + i) (div-eq_of_lt h) ∙ omega arith

pub frame-place : (c x : ℕ) → x ≡ x % c + x / c * c
frame-place c x = omega (arith, div-add-mod' x c)

module _ {A : Type 0} where
  pub store-some :
      (s : Span A) (i : ℕ) (a : A)
      → i < s.size
      → store s i a ≡ some (record s { cell = update s.cell i a })
  unfolding store
  store-some s i a h = let e = lt→ltb i s.size h in rw e

  pub get_sample-some :
      (b : AudioBlock A) (chan i : ℕ)
      → chan < b.num_channels
      → i < b.num_samples
      → get_sample b chan i ≡ some (b.sample chan i)
  unfolding get_sample
  get_sample-some b chan i h g =
      let e = lt→ltb chan b.num_channels h in let f = lt→ltb i b.num_samples g in rw (e, f)

  pub update-same : (f : ℕ → A) (i : ℕ) (a : A) → update f i a i ≡ a
  update-same f i a = let e : (i == i) ≡ true = ground arith in rw e

  pub update-other : (f : ℕ → A) (i k : ℕ) (a : A) → k ≢ i → update f i a k ≡ f k
  update-other f i k a h = let e : (k == i) ≡ false = ground arith in rw e

module _ {V F : Type 0} (encode : F → V) (source : AudioBlock F) (offset : ℕ) where
  -- What belongs at place `x` of the frames.
  abbrev pub framed : ℕ → V
  framed x = encode (source.sample (x % source.num_channels) (offset + x / source.num_channels))

  -- The frames of one channel from frame `i` on are filled, and nothing else is changed.
  record Filled (m : Option (Span V)) (chan n i : ℕ) (target : Span V) : Type 0 where
    pub result : Span V
    pub returns : m ≡ some result
    pub same_size : result.size ≡ target.size
    pub filled :
        (x : ℕ)
        → x % source.num_channels ≡ chan
        → i ≤ x / source.num_channels
        → x / source.num_channels < i + n
        → result.cell x ≡ framed x
    pub below : (x : ℕ) → x / source.num_channels < i → result.cell x ≡ target.cell x
    pub other : (x : ℕ) → x % source.num_channels ≢ chan → result.cell x ≡ target.cell x

  interleave_samples-next :
      (chan n i : ℕ) (target target' : Span V) {x : F} {m : Option (Span V)}
      → get_sample source chan (offset + i) ≡ some x
      → store target (chan + i * source.num_channels) (encode x) ≡ some target'
      → interleave_samples encode source offset chan n (i + 1) target' ≡ m
      → interleave_samples encode source offset chan (suc n) i target ≡ m
  unfolding interleave_samples
  interleave_samples-next chan n i target target' a b c = rw (a, ◌>>=◌, b, ◌>>=◌) c

  interleave_samples-Filled :
      (chan n i : ℕ) (target : Span V)
      → chan < source.num_channels
      → offset + i + n ≤ source.num_samples
      → (i + n) * source.num_channels ≤ target.size
      → Filled (interleave_samples encode source offset chan n i target) chan n i target
  unfolding interleave_samples
  interleave_samples-Filled chan zero i target h g room = record {
    result = target;
    returns = refl;
    same_size = refl;
    filled = λ x a b c. absurd (omega arith);
    below = λ x a. refl;
    other = λ x a. refl;
  }
  interleave_samples-Filled chan (suc n) i target h g room =
      let c = source.num_channels in
      let place = chan + i * c in
      let v = source.sample chan (offset + i) in
      let inside : place < target.size =
        omega
          (arith, mul-le-mul_right {m = i + 1} {n = i + suc n} c (omega arith), add-mul i 1 c) in
      let target' : Span V = record target { cell = update target.cell place (encode v) } in
      let rest =
        interleave_samples-Filled chan n (i + 1) target' h (omega arith)
          (subst (λ k. k * c ≤ target.size) (omega arith) room) in
      let at_place : (x : ℕ) → x % c ≡ chan → x / c ≡ i → x ≡ place =
        λ x a b. frame-place c x ∙ ap₂ (λ j k. j + k * c) a b in
      record {
        result = rest.result;
        returns =
            interleave_samples-next chan n i target target'
              (get_sample-some source chan (offset + i) h (omega arith))
              (store-some target place (encode v) inside) rest.returns;
        same_size = rest.same_size;
        filled = λ x a b d. elim (dec_le (i + 1) (x / c)) [
          | yes t ↦ rest.filled x a t (omega arith)
          | no t ↦
              let e : x / c ≡ i = omega arith in
              rest.below x (omega arith)
              ∙ ap (update target.cell place (encode v)) (at_place x a e)
              ∙ update-same target.cell place (encode v)
              ∙ sym (ap₂ (λ j k. encode (source.sample j (offset + k))) a e)
        ];
        below = λ x a.
            rest.below x (omega arith)
            ∙ update-other target.cell place x (encode v)
                (λ e. absurd (omega (arith, ap (λ k. k / c) e, frame-div c i chan h)));
        other = λ x a.
            rest.other x a
            ∙ update-other target.cell place x (encode v)
                (λ e. a (ap (λ k. k % c) e ∙ frame-mod c i chan h));
      }

  -- All channels from `chan` on.
  record FilledUp (m : Option (Span V)) (chan k n : ℕ) (target : Span V) : Type 0 where
    pub result : Span V
    pub returns : m ≡ some result
    pub same_size : result.size ≡ target.size
    pub filled :
        (x : ℕ)
        → chan ≤ x % source.num_channels
        → x % source.num_channels < chan + k
        → x / source.num_channels < n
        → result.cell x ≡ framed x
    pub before : (x : ℕ) → x % source.num_channels < chan → result.cell x ≡ target.cell x

  interleave_channels-FilledUp :
      (k chan n : ℕ) (target : Span V)
      → chan + k ≤ source.num_channels
      → offset + n ≤ source.num_samples
      → n * source.num_channels ≤ target.size
      → FilledUp (interleave_channels encode source offset n k chan target) chan k n target
  unfolding interleave_channels
  interleave_channels-FilledUp zero chan n target h g room = record {
    result = target;
    returns = refl;
    same_size = refl;
    filled = λ x a b c. absurd (omega arith);
    before = λ x a. refl;
  }
  interleave_channels-FilledUp (suc k) chan n target h g room =
      let c = source.num_channels in
      let one =
        interleave_samples-Filled chan n 0 target (omega arith) (omega arith)
          (subst (λ z. z * c ≤ target.size) (omega arith) room) in
      let rest =
        interleave_channels-FilledUp k (chan + 1) n one.result (omega arith) g
          (subst (λ z. n * c ≤ z) (sym one.same_size) room) in
      record {
        result = rest.result;
        returns = rw (one.returns, ◌>>=◌) rest.returns;
        same_size = rest.same_size ∙ one.same_size;
        filled = λ x a b d. elim (dec_le (chan + 1) (x % c)) [
          | yes t ↦ rest.filled x t (omega arith) d
          | no t ↦
              rest.before x (omega arith) ∙ one.filled x (omega arith) (omega arith) (omega arith)
        ];
        before = λ x a. rest.before x (omega arith) ∙ one.other x (λ e. absurd (omega arith));
      }

  -- A block of frames.
  pub record Interleaved (m : Option (Span V)) (n : ℕ) (target : Span V) : Type 0 where
    pub result : Span V
    pub returns : m ≡ some result
    pub same_size : result.size ≡ target.size
    pub filled : (x : ℕ) → x < n * source.num_channels → result.cell x ≡ framed x

  pub interleave-Interleaved :
      (n : ℕ) (target : Span V)
      → 0 < source.num_channels
      → offset + n ≤ source.num_samples
      → target.size ≡ n * source.num_channels
      → Interleaved (interleave encode source offset target) n target
  unfolding interleave
  interleave-Interleaved n target h g size =
      let c = source.num_channels in
      let done = interleave_channels-FilledUp c 0 n target (omega arith) g (omega (arith, size)) in
      let positive = lt→ltb 0 c h in
      let small : leb target.size (c * source.num_samples) ≡ true = le→leb _ _ (
        omega (
          arith,
          size,
          mul-le-mul_right {m = n} {n = source.num_samples} c (omega arith),
          mul_comm c source.num_samples,
        )) in
      let whole : (target.size % c == 0) ≡ true =
        (==_iff (target.size % c) 0).1 (ap (λ k. k % c) size ∙ mul-mod_left n c) in
      let frames : target.size / c ≡ n = ap (λ k. k / c) size ∙ mul-div_left n h in
      record {
        result = done.result;
        returns = rw (positive, ◌>>◌, v1_assert, small, whole, frames) done.returns;
        same_size = done.same_size;
        filled = λ x a.
            done.filled x (omega arith) (omega (arith, mod-lt x h)) ((div-lt_iff_lt-mul h).1 a);
      }
