-- ===== src/Dsp/WaveIo/Samples/Spread.antt =====
-- The loops that spread frames over the channels of a block.
use v1util.Common.{
  ℕ, zero, suc, ◌+◌, ◌*◌, ◌/◌, ◌%◌, ◌≤◌, ◌<◌, ◌≡◌, ◌≢◌, refl, sym, ap, ap₂, subst, ◌∙◌, ◌==◌, ltb,
  leb, lt→ltb, le→leb, ==_iff, if◌then◌else◌, true, false, Option, some, ◌>>=◌, ◌>>◌, v1_assert,
  arith,
}
use native.Mathlib.Decide.{dec_le}
use native.Mathlib.Nat.{add-mul, mul-le-mul_right, mul-div_left, mul-mod_left, mul_comm}
use v1util.Dsp.WaveIo.Samples.{
  Span, AudioBlock, update, fetch, set_sample, deinterleave_samples, deinterleave_channels,
  deinterleave,
}
use v1util.Dsp.WaveIo.Samples.Frames.{update-same, update-other}

module _ {A : Type 0} where
  fetch-some : (s : Span A) (i : ℕ) → i < s.size → fetch s i ≡ some (s.cell i)
  unfolding fetch
  fetch-some s i h = let e = lt→ltb i s.size h in rw e

  abbrev with_sample : AudioBlock A → ℕ → ℕ → A → AudioBlock A
  with_sample b chan i a = record b {
    sample = λ c. if c == chan then update (b.sample c) i a else b.sample c;
  }

  set_sample-some :
      (b : AudioBlock A) (chan i : ℕ) (a : A)
      → chan < b.num_channels
      → i < b.num_samples
      → set_sample b chan i a ≡ some (with_sample b chan i a)
  unfolding set_sample
  set_sample-some b chan i a h g =
      let e = lt→ltb chan b.num_channels h in let f = lt→ltb i b.num_samples g in rw (e, f)

  with_sample-same :
      (b : AudioBlock A) (chan i : ℕ) (a : A) → (with_sample b chan i a).sample chan i ≡ a
  with_sample-same b chan i a =
      let e : (chan == chan) ≡ true = ground arith in rw e (update-same (b.sample chan) i a)

  with_sample-place :
      (b : AudioBlock A) (chan i k : ℕ) (a : A)
      → k ≢ i
      → (with_sample b chan i a).sample chan k ≡ b.sample chan k
  with_sample-place b chan i k a h =
      let e : (chan == chan) ≡ true = ground arith in rw e (update-other (b.sample chan) i k a h)

  with_sample-channel :
      (b : AudioBlock A) (chan i c k : ℕ) (a : A)
      → c ≢ chan
      → (with_sample b chan i a).sample c k ≡ b.sample c k
  with_sample-channel b chan i c k a h = let e : (c == chan) ≡ false = ground arith in rw e

module _ {V F : Type 0} (decode : V → F) (source : Span V) (channels offset : ℕ) where
  -- One channel's samples from sample `i` on are those of the frames, and nothing else is changed.
  record Spread (m : Option (AudioBlock F)) (chan n i : ℕ) (target : AudioBlock F) : Type 0 where
    pub result : AudioBlock F
    pub returns : m ≡ some result
    pub same_channels : result.num_channels ≡ target.num_channels
    pub same_samples : result.num_samples ≡ target.num_samples
    pub filled :
        (k : ℕ)
        → i ≤ k
        → k < i + n
        → result.sample chan (offset + k) ≡ decode (source.cell (chan + k * channels))
    pub below : (k : ℕ) → k < offset + i → result.sample chan k ≡ target.sample chan k
    pub other : (c k : ℕ) → c ≢ chan → result.sample c k ≡ target.sample c k

  deinterleave_samples-next :
      (chan n i : ℕ) (target target' : AudioBlock F) {v : V} {m : Option (AudioBlock F)}
      → fetch source (chan + i * channels) ≡ some v
      → set_sample target chan (offset + i) (decode v) ≡ some target'
      → deinterleave_samples decode source channels offset chan n (i + 1) target' ≡ m
      → deinterleave_samples decode source channels offset chan (suc n) i target ≡ m
  unfolding deinterleave_samples
  deinterleave_samples-next chan n i target target' a b c = rw (a, ◌>>=◌, b, ◌>>=◌) c

  deinterleave_samples-Spread :
      (chan n i : ℕ) (target : AudioBlock F)
      → chan < channels
      → chan < target.num_channels
      → offset + i + n ≤ target.num_samples
      → (i + n) * channels ≤ source.size
      → Spread (deinterleave_samples decode source channels offset chan n i target) chan n i target
  unfolding deinterleave_samples
  deinterleave_samples-Spread chan zero i target h h' g room = record {
    result = target;
    returns = refl;
    same_channels = refl;
    same_samples = refl;
    filled = λ k a b. absurd (omega arith);
    below = λ k a. refl;
    other = λ c k a. refl;
  }
  deinterleave_samples-Spread chan (suc n) i target h h' g room =
      let v = source.cell (chan + i * channels) in
      let inside : chan + i * channels < source.size = omega (
        arith,
        mul-le-mul_right {m = i + 1} {n = i + suc n} channels (omega arith),
        add-mul i 1 channels,
      ) in
      let target' = with_sample target chan (offset + i) (decode v) in
      let rest =
        deinterleave_samples-Spread chan n (i + 1) target' h h' (omega arith)
          (subst (λ k. k * channels ≤ source.size) (omega arith) room) in
      record {
        result = rest.result;
        returns =
            deinterleave_samples-next chan n i target target' (fetch-some source _ inside)
              (set_sample-some target chan (offset + i) (decode v) h' (omega arith)) rest.returns;
        same_channels = rest.same_channels;
        same_samples = rest.same_samples;
        filled = λ k a b. elim (dec_le (i + 1) k) [
          | yes t ↦ rest.filled k t (omega arith)
          | no t ↦
              let e : k ≡ i = omega arith in
              subst
                (λ z.
                  rest.result.sample chan (offset + z) ≡ decode (source.cell (chan + z * channels)))
                (sym e)
                (rest.below (offset + i) (omega arith)
                  ∙ with_sample-same target chan (offset + i) (decode v))
        ];
        below = λ k a.
            rest.below k (omega arith)
            ∙ with_sample-place target chan (offset + i) k (decode v) (λ e. absurd (omega arith));
        other = λ c k a.
            rest.other c k a ∙ with_sample-channel target chan (offset + i) c k (decode v) a;
      }

  -- All channels from `chan` on.
  pub record SpreadOut (m : Option (AudioBlock F)) (chan k n : ℕ) (target : AudioBlock F)
      : Type 0 where
    pub result : AudioBlock F
    pub returns : m ≡ some result
    pub same_channels : result.num_channels ≡ target.num_channels
    pub same_samples : result.num_samples ≡ target.num_samples
    pub filled :
        (c i : ℕ)
        → chan ≤ c
        → c < chan + k
        → i < n
        → result.sample c (offset + i) ≡ decode (source.cell (c + i * channels))
    pub below : (c i : ℕ) → i < offset → result.sample c i ≡ target.sample c i
    pub before : (c i : ℕ) → c < chan → result.sample c i ≡ target.sample c i

  deinterleave_channels-SpreadOut :
      (k chan n : ℕ) (target : AudioBlock F)
      → chan + k ≤ channels
      → target.num_channels ≡ channels
      → offset + n ≤ target.num_samples
      → n * channels ≤ source.size
      → SpreadOut
          (deinterleave_channels decode source channels offset n k chan target)
          chan
          k
          n
          target
  unfolding deinterleave_channels
  deinterleave_channels-SpreadOut zero chan n target h same g room = record {
    result = target;
    returns = refl;
    same_channels = refl;
    same_samples = refl;
    filled = λ c i a b d. absurd (omega arith);
    below = λ c i a. refl;
    before = λ c i a. refl;
  }
  deinterleave_channels-SpreadOut (suc k) chan n target h same g room =
      let one =
        deinterleave_samples-Spread chan n 0 target (omega arith) (omega arith) (omega arith)
          (subst (λ z. z * channels ≤ source.size) (omega arith) room) in
      let rest =
        deinterleave_channels-SpreadOut k (chan + 1) n one.result (omega arith)
          (one.same_channels ∙ same) (omega (arith, one.same_samples)) room in
      record {
        result = rest.result;
        returns = rw (one.returns, ◌>>=◌) rest.returns;
        same_channels = rest.same_channels ∙ one.same_channels;
        same_samples = rest.same_samples ∙ one.same_samples;
        filled = λ c i a b d. elim (dec_le (chan + 1) c) [
          | yes t ↦ rest.filled c i t (omega arith) d
          | no t ↦
              let e : c ≡ chan = omega arith in
              rest.before c (offset + i) (omega arith)
              ∙ subst
                  (λ z. one.result.sample z (offset + i) ≡ decode (source.cell (z + i * channels)))
                  (sym e) (one.filled i (omega arith) (omega arith))
        ];
        below = λ c i a. elim (dec_le (chan + 1) c) [
          | yes t ↦ rest.below c i a ∙ one.other c i (λ e. absurd (omega arith))
          | no t ↦ rest.below c i a ∙ elim (dec_le chan c) [
            | no u ↦ one.other c i (λ e. absurd (omega arith))
            | yes u ↦
                subst (λ z. one.result.sample z i ≡ target.sample z i) (omega arith)
                  (one.below i (omega arith))
          ]
        ];
        before = λ c i a. rest.before c i (omega arith) ∙ one.other c i (λ e. absurd (omega arith));
      }

  pub deinterleave-SpreadOut :
      (n : ℕ) (target : AudioBlock F)
      → 0 < channels
      → target.num_channels ≡ channels
      → offset + n ≤ target.num_samples
      → source.size ≡ n * channels
      → SpreadOut (deinterleave decode source channels target offset) 0 channels n target
  unfolding deinterleave
  deinterleave-SpreadOut n target h same g size =
      let done =
        deinterleave_channels-SpreadOut channels 0 n target (omega arith) same g
          (omega (arith, size)) in
      let positive : ltb 0 target.num_channels ≡ true = lt→ltb _ _ (omega arith) in
      let small : leb source.size (channels * target.num_samples) ≡ true = le→leb _ _ (
        omega (
          arith,
          size,
          mul-le-mul_right {m = n} {n = target.num_samples} channels (omega arith),
          mul_comm channels target.num_samples,
        )) in
      let whole : (source.size % target.num_channels == 0) ≡ true =
        (==_iff (source.size % target.num_channels) 0).1
          (ap₂ (λ a b. a % b) size same ∙ mul-mod_left n channels) in
      let frames : source.size / channels ≡ n = ap (λ k. k / channels) size ∙ mul-div_left n h in
      record {
        result = done.result;
        returns =
            rw (positive, ◌>>◌, v1_assert, small, whole, frames)
              (subst
                (λ k.
                  deinterleave_channels decode source channels offset n k 0 target
                  ≡ some done.result)
                (sym same) done.returns);
        same_channels = done.same_channels;
        same_samples = done.same_samples;
        filled = done.filled;
        below = done.below;
        before = done.before;
      }
