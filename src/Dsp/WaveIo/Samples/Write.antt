-- ===== src/Dsp/WaveIo/Samples/Write.antt =====
-- Writing a block buffer by buffer.
use v1util.Common.{
  ℕ, zero, suc, ◌+◌, ◌-◌, ◌*◌, ◌/◌, ◌%◌, ◌≤◌, ◌<◌, ◌≡◌, refl, sym, ap, ap₂, subst, ◌∙◌, ◌==◌, ltb,
  leb, lt→ltb, ==_iff, if◌then◌else◌, Bool, true, false, ◌&&◌, Option, some, min, max, ◌>>=◌, arith,
}
use native.Mathlib.Decide.{dec_le}
use native.Mathlib.Nat.{
  add-mul-mod_self_right, add-mul-div_right, add-mul, mul-le-mul_right, mul-div_left, mul_comm,
}
use v1util.Dsp.WaveIo.Samples.{
  File, Span, AudioBlock, fwrite, values_to_write, interleave, write_values, write_loop,
  convert_interleave_write,
}
use v1util.Dsp.WaveIo.Samples.Frames.{framed, interleave-Interleaved}

module _ {V : Type 0} where
  -- A file behind a write of `n` values.
  abbrev pub written : ℕ → Span V → File V → File V
  written n buffer file = record file {
    value_at = λ k.
        if leb file.pos k && ltb k (file.pos + n)
        then buffer.cell (k - file.pos)
        else file.value_at k;
    size = max file.size (file.pos + n);
    pos = file.pos + n;
    room = file.room - n;
  }

  fwrite-fits :
      (n : ℕ) (buffer : Span V) (file : File V)
      → n ≤ file.room
      → fwrite n buffer file ≡ (n, written n buffer file)
  unfolding fwrite
  fwrite-fits n buffer file h = let e : min n file.room ≡ n = omega arith in rw e

  fwrite-short :
      (n : ℕ) (buffer : Span V) (file : File V)
      → file.room < n
      → fwrite n buffer file ≡ (file.room, written file.room buffer file)
  unfolding fwrite
  fwrite-short n buffer file h = let e : min n file.room ≡ file.room = omega arith in rw e

  written-before :
      (n : ℕ) (buffer : Span V) (file : File V) (k : ℕ)
      → k < file.pos
      → (written n buffer file).value_at k ≡ file.value_at k
  written-before n buffer file k h = let e : leb file.pos k ≡ false = ground arith in rw e

  written-at :
      (n : ℕ) (buffer : Span V) (file : File V) (i : ℕ)
      → i < n
      → (written n buffer file).value_at (file.pos + i) ≡ buffer.cell i
  written-at n buffer file i h =
      let e : leb file.pos (file.pos + i) ≡ true = ground arith in
      let f : ltb (file.pos + i) (file.pos + n) ≡ true = ground arith in
      let g : file.pos + i - file.pos ≡ i = omega arith in rw (e, f, g)

-- A count of frames, as values.
min-frames : (c n frames : ℕ) → min (c * n) (frames * c) ≡ min n frames * c
min-frames c n frames = elim (dec_le n frames) [
  | yes h ↦
      let e : min n frames ≡ n = omega arith in
      rw e (omega (arith, mul-le-mul_right {m = n} {n = frames} c h, mul_comm c n))
  | no h ↦
      let e : min n frames ≡ frames = omega arith in
      rw e (omega (arith, mul-le-mul_right {m = frames} {n = n} c (omega arith), mul_comm c n))
]

remaining :
    (total s frames : ℕ) → total - (s + min (total - s) frames) + min (total - s) frames ≡ total - s
remaining total s frames = omega arith

module _ {V F : Type 0} (encode : F → V) (source : AudioBlock F) where
  -- What belongs at place `x` behind the start.
  abbrev pub whole : ℕ → V
  whole x = encode (source.sample (x % source.num_channels) (x / source.num_channels))

  write_values-count :
      (s values count : ℕ) (buffer w : Span V) (file file' : File V)
      → interleave encode source s (record buffer { size = values }) ≡ some w
      → fwrite values w file ≡ (count, file')
      → write_values encode values source buffer s file
        ≡ some (count == values, record w { size = buffer.size }, file')
  unfolding write_values
  write_values-count s values count buffer w file file' a b = rw (a, ◌>>=◌, b)

  write_values-all :
      (s values : ℕ) (buffer w : Span V) (file : File V)
      → interleave encode source s (record buffer { size = values }) ≡ some w
      → values ≤ file.room
      → write_values encode values source buffer s file
        ≡ some (true, record w { size = buffer.size }, written values w file)
  write_values-all s values buffer w file a fits =
      write_values-count s values values buffer w file _ a (fwrite-fits values w file fits)
      ∙ ap (λ b. some (b, record w { size = buffer.size }, written values w file))
          ((==_iff values values).1 refl)

  amount_frames :
      (s frames : ℕ) (buffer : Span V)
      → buffer.size ≡ frames * source.num_channels
      → values_to_write source buffer s ≡ min (source.num_samples - s) frames * source.num_channels
  unfolding values_to_write
  amount_frames s frames buffer size =
      ap (min (source.num_channels * (source.num_samples - s))) size
      ∙ min-frames source.num_channels (source.num_samples - s) frames

  write_loop-next :
      (fuel s n values : ℕ) (buffer w : Span V) (file file' : File V) {m : Option (Bool × File V)}
      → ltb s source.num_samples ≡ true
      → values_to_write source buffer s ≡ values
      → write_values encode values source buffer s file ≡ some (true, w, file')
      → values / source.num_channels ≡ n
      → write_loop encode fuel source w (s + n) file' ≡ m
      → write_loop encode (suc fuel) source buffer s file ≡ m
  unfolding write_loop
  write_loop-next fuel s n values buffer w file file' a b c d e =
      let c' = ap (λ k. write_values encode k source buffer s file) b ∙ c in
      let d' = ap (λ k. k / source.num_channels) b ∙ d in rw (a, write_loop, c', ◌>>=◌, d') e

  write_loop-short :
      (fuel s values : ℕ) (buffer w : Span V) (file file' : File V)
      → ltb s source.num_samples ≡ true
      → values_to_write source buffer s ≡ values
      → write_values encode values source buffer s file ≡ some (false, w, file')
      → write_loop encode (suc fuel) source buffer s file ≡ some (false, file')
  unfolding write_loop
  write_loop-short fuel s values buffer w file file' a b c =
      let c' = ap (λ k. write_values encode k source buffer s file) b ∙ c in
      rw (a, write_loop, c', ◌>>=◌)

  -- All samples are in the file, and what was before them is unchanged.
  pub record Wrote (m : Option (Bool × File V)) (base : ℕ) (old : File V) : Type 0 where
    pub file : File V
    pub returns : m ≡ some (true, file)
    pub end : file.pos ≡ base + source.num_samples * source.num_channels
    pub extent : file.size ≡ max old.size (base + source.num_samples * source.num_channels)
    pub values :
        (x : ℕ) → x < source.num_samples * source.num_channels → file.value_at (base + x) ≡ whole x
    pub before : (k : ℕ) → k < base → file.value_at k ≡ old.value_at k
    pub spent : file.room + source.num_samples * source.num_channels ≡ old.room

  next_values :
      (s n base x : ℕ) (w : Span V) (file : File V)
      → file.pos ≡ base + s * source.num_channels
      → 0 < source.num_channels
      → ((y : ℕ) → y < s * source.num_channels → file.value_at (base + y) ≡ whole y)
      → ((y : ℕ) → y < n * source.num_channels → w.cell y ≡ framed encode source s y)
      → x < (s + n) * source.num_channels
      → (written (n * source.num_channels) w file).value_at (base + x) ≡ whole x
  next_values s n base x w file at positive before filled h =
      let c = source.num_channels in
      elim (dec_le (s * c) x) [
        | no t ↦ written-before (n * c) w file (base + x) (omega arith) ∙ before x (omega arith)
        | yes t ↦
            let y = x - s * c in
            let inside : y < n * c = omega (arith, add-mul s n c) in
            let sum : x ≡ y + s * c = omega arith in
            ap (written (n * c) w file).value_at (omega arith)
            ∙ written-at (n * c) w file y inside
            ∙ filled y inside
            ∙ ap₂ (λ j k. encode (source.sample j k))
                (sym (ap (λ z. z % c) sum ∙ add-mul-mod_self_right y s c))
                (omega (arith, ap (λ z. z / c) sum, add-mul-div_right y s {z = c} positive))
      ]

  write_loop-Wrote :
      (fuel s base frames : ℕ) (buffer : Span V) (old file : File V)
      → 0 < source.num_channels
      → 0 < frames
      → buffer.size ≡ frames * source.num_channels
      → source.num_samples < s + fuel
      → s ≤ source.num_samples
      → file.pos ≡ base + s * source.num_channels
      → file.size ≡ max old.size (base + s * source.num_channels)
      → (source.num_samples - s) * source.num_channels ≤ file.room
      → file.room + s * source.num_channels ≡ old.room
      → ((x : ℕ) → x < s * source.num_channels → file.value_at (base + x) ≡ whole x)
      → ((k : ℕ) → k < base → file.value_at k ≡ old.value_at k)
      → Wrote (write_loop encode fuel source buffer s file) base old
  unfolding write_loop
  write_loop-Wrote zero s base frames buffer old file p q size fuels le at extent room spent values
        before =
      absurd (omega arith)
  write_loop-Wrote (suc fuel) s base frames buffer old file p q size fuels le at extent room spent
        values before =
      let c = source.num_channels in
      elim (dec_le source.num_samples s) [
        | yes t ↦
            let e : s ≡ source.num_samples = omega arith in
            let stop : ltb s source.num_samples ≡ false = ground arith in
            record {
              file = file;
              returns = rw (stop, write_loop);
              end = subst (λ k. file.pos ≡ base + k * c) e at;
              extent = subst (λ k. file.size ≡ max old.size (base + k * c)) e extent;
              values = λ x h. values x (subst (λ k. x < k * c) (sym e) h);
              before = before;
              spent = subst (λ k. file.room + k * c ≡ old.room) e spent;
            }
        | no t ↦
            let n = min (source.num_samples - s) frames in
            let go : ltb s source.num_samples ≡ true = lt→ltb s source.num_samples (omega arith) in
            let amount = amount_frames s frames buffer size in
            let one =
              interleave-Interleaved encode source s n (record buffer { size = n * c }) p
                (omega arith) refl in
            let fits : n * c ≤ file.room =
              omega
                (arith, mul-le-mul_right {m = n} {n = source.num_samples - s} c (omega arith)) in
            let rest =
              write_loop-Wrote fuel (s + n) base frames (record one.result { size = buffer.size })
                old (written (n * c) one.result file) p q size (omega arith) (omega arith)
                (omega (arith, add-mul s n c)) (omega (arith, add-mul s n c))
                (omega (
                  arith,
                  add-mul (source.num_samples - (s + n)) n c,
                  ap (λ k. k * c) (remaining source.num_samples s frames),
                ))
                (omega (arith, add-mul s n c))
                (λ x h. next_values s n base x one.result file at p values one.filled h)
                (λ k h. written-before (n * c) one.result file k (omega arith) ∙ before k h) in
            record {
              file = rest.file;
              returns =
                  write_loop-next fuel s n (n * c) buffer _ file _ go amount
                    (write_values-all s (n * c) buffer one.result file one.returns fits)
                    (mul-div_left n p) rest.returns;
              end = rest.end;
              extent = rest.extent;
              values = rest.values;
              before = rest.before;
              spent = rest.spent;
            }
      ]

  write_loop-Fails :
      (fuel s frames : ℕ) (buffer : Span V) (file : File V)
      → 0 < source.num_channels
      → 0 < frames
      → buffer.size ≡ frames * source.num_channels
      → source.num_samples < s + fuel
      → s < source.num_samples
      → file.room < (source.num_samples - s) * source.num_channels
      → (file' : File V) × (write_loop encode fuel source buffer s file ≡ some (false, file'))
  write_loop-Fails zero s frames buffer file p q size fuels le room = absurd (omega arith)
  write_loop-Fails (suc fuel) s frames buffer file p q size fuels le room =
      let c = source.num_channels in
      let n = min (source.num_samples - s) frames in
      let go : ltb s source.num_samples ≡ true = lt→ltb s source.num_samples le in
      let amount = amount_frames s frames buffer size in
      let one =
        interleave-Interleaved encode source s n (record buffer { size = n * c }) p (omega arith)
          refl in
      elim (dec_le (n * c) file.room) [
        | no t ↦
            let short : (file.room == n * c) ≡ false = ground arith in
            (
              _,
              write_loop-short fuel s (n * c) buffer _ file _ go amount (
                  write_values-count s (n * c) file.room buffer one.result file _ one.returns
                    (fwrite-short (n * c) one.result file (omega arith))
                  ∙ ap
                      (λ b. some (
                        b,
                        record one.result { size = buffer.size },
                        written file.room one.result file,
                      ))
                      short),
            )
        | yes t ↦
            let later : s + n < source.num_samples = elim (dec_le source.num_samples (s + n)) [
              | no u ↦ omega arith
              | yes u ↦
                  let e : n ≡ source.num_samples - s = omega arith in
                  absurd (omega (arith, ap (λ k. k * c) e))
            ] in
            let (file', rest) =
              write_loop-Fails fuel (s + n) frames (record one.result { size = buffer.size })
                (written (n * c) one.result file) p q size (omega arith) later
                (omega (
                  arith,
                  add-mul (source.num_samples - (s + n)) n c,
                  ap (λ k. k * c) (remaining source.num_samples s frames),
                )) in
            (
              file',
              write_loop-next fuel s n (n * c) buffer _ file _ go amount
                  (write_values-all s (n * c) buffer one.result file one.returns t)
                  (mul-div_left n p) rest,
            )
      ]

  -- With at least one channel, a buffer of whole frames, a position within the file and room in the file for all values:
  -- `convertInterleaveWrite` returns true, the file holds the samples frame by frame from its position on,
  -- and what was before them is unchanged.
  pub convert_interleave_write-Wrote :
      (frames : ℕ) (buffer : Span V) (file : File V)
      → 0 < source.num_channels
      → 0 < frames
      → buffer.size ≡ frames * source.num_channels
      → file.pos ≤ file.size
      → source.num_samples * source.num_channels ≤ file.room
      → Wrote (convert_interleave_write encode source buffer file) file.pos file
  unfolding convert_interleave_write
  convert_interleave_write-Wrote frames buffer file p q size inside room =
      write_loop-Wrote (source.num_samples + 1) 0 file.pos frames buffer file file p q size
        (omega arith) (omega arith) (omega arith) (omega arith)
        (subst (λ k. k * source.num_channels ≤ file.room) (omega arith) room) (omega arith)
        (λ x h. absurd (omega arith)) (λ k h. refl)

  -- Without that room, it returns false.
  pub convert_interleave_write-short :
      (frames : ℕ) (buffer : Span V) (file : File V)
      → 0 < source.num_channels
      → 0 < frames
      → buffer.size ≡ frames * source.num_channels
      → file.room < source.num_samples * source.num_channels
      → (file' : File V) × (convert_interleave_write encode source buffer file
          ≡ some (false, file'))
  unfolding convert_interleave_write
  convert_interleave_write-short frames buffer file p q size room =
      let some_samples : 0 < source.num_samples = elim (dec_le source.num_samples 0) [
        | no t ↦ omega arith
        | yes t ↦
            let e : source.num_samples ≡ 0 = omega arith in
            absurd (omega (arith, ap (λ k. k * source.num_channels) e))
      ] in
      write_loop-Fails (source.num_samples + 1) 0 frames buffer file p q size (omega arith)
        some_samples (subst (λ k. file.room < k * source.num_channels) (omega arith) room)
