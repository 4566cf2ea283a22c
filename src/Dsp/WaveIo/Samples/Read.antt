-- ===== src/Dsp/WaveIo/Samples/Read.antt =====
-- Reading a block buffer by buffer.
use v1util.Common.{
  ℕ, zero, suc, ◌+◌, ◌-◌, ◌*◌, ◌/◌, ◌≤◌, ◌<◌, ◌≡◌, refl, ap, ap₂, subst, ◌∙◌, ◌==◌, ltb, lt→ltb,
  ==_iff, if◌then◌else◌, true, false, Option, some, min, ◌>>=◌, arith,
}
use native.Mathlib.Decide.{dec_le}
use native.Mathlib.Nat.{add-mul, mul-le-mul_right, mul-div_left}
use v1util.Dsp.WaveIo.Samples.{
  File, Span, AudioBlock, fread, deinterleave, read_frames, read_loop, read_deinterleave_convert,
}
use v1util.Dsp.WaveIo.Samples.Spread.{deinterleave-SpreadOut}

-- The loop reads what the file has left, `total` whole frames.
module _ {V F : Type 0} (decode : V → F) (channels : ℕ) (positive : 0 < channels) where
  -- The block holds the file's samples from `base` on.
  pub record Loaded (m : Option (ℕ × AudioBlock F × File V)) (base total : ℕ) (old : File V)
      : Type 0 where
    pub target : AudioBlock F
    pub file : File V
    pub returns : m ≡ some (total, target, file)
    pub end : file.pos ≡ base + total * channels
    pub values :
        (c i : ℕ)
        → c < channels
        → i < total
        → target.sample c i ≡ decode (old.value_at (base + (c + i * channels)))

  abbrev loaded : ℕ → Span V → File V → Span V
  loaded count buffer file = record buffer {
    cell = λ i. if ltb i count then file.value_at (file.pos + i) else buffer.cell i;
  }

  fread-count :
      (count : ℕ) (buffer : Span V) (file : File V)
      → min buffer.size (file.size - file.pos) ≡ count
      → fread buffer.size buffer file
        ≡ (count, loaded count buffer file, record file { pos = file.pos + count })
  unfolding fread
  fread-count count buffer file e = rw e

  read_frames-none :
      (s : ℕ) (buffer : Span V) (target : AudioBlock F) (file : File V)
      → min buffer.size (file.size - file.pos) ≡ 0
      → read_frames decode buffer channels s target file
        ≡ some (0, loaded 0 buffer file, target, record file { pos = file.pos + 0 })
  unfolding read_frames
  read_frames-none s buffer target file e =
      let f = fread-count 0 buffer file e in
      let g : (0 / channels == 0) ≡ true =
        (==_iff (0 / channels) 0).1
          (ap (λ k. k / channels) (omega arith) ∙ mul-div_left 0 positive) in
      rw (read_frames, f, g, f)

  read_frames-some :
      (s n : ℕ) (buffer : Span V) (target target' : AudioBlock F) (file : File V)
      → min buffer.size (file.size - file.pos) ≡ n * channels
      → 0 < n
      → deinterleave decode
          (record (loaded (n * channels) buffer file) { size = n * channels })
          channels
          target
          s
        ≡ some target'
      → read_frames decode buffer channels s target file
        ≡ some (
          n,
          loaded (n * channels) buffer file,
          target',
          record file { pos = file.pos + n * channels },
        )
  unfolding read_frames
  read_frames-some s n buffer target target' file e p h =
      let f = fread-count (n * channels) buffer file e in
      let g : n * channels / channels ≡ n = mul-div_left n positive in
      let k : (n == 0) ≡ false = ground arith in rw (read_frames, f, g, k, f, g, h, ◌>>=◌)

  read_loop-next :
      (fuel num_samples s n : ℕ) (buffer buffer' : Span V) (target target' : AudioBlock F)
      (file file' : File V) {m : Option (ℕ × AudioBlock F × File V)}
      → ltb s num_samples ≡ true
      → read_frames decode buffer channels s target file ≡ some (n, buffer', target', file')
      → (n == 0) ≡ false
      → read_loop decode fuel buffer' num_samples channels (s + n) target' file' ≡ m
      → read_loop decode (suc fuel) buffer num_samples channels s target file ≡ m
  unfolding read_loop
  read_loop-next fuel num_samples s n buffer buffer' target target' file file' a b c d =
      rw (a, read_loop, b, ◌>>=◌, c) d

  read_loop-end :
      (fuel num_samples s : ℕ) (buffer buffer' : Span V) (target target' : AudioBlock F)
      (file file' : File V)
      → ltb s num_samples ≡ true
      → read_frames decode buffer channels s target file ≡ some (0, buffer', target', file')
      → read_loop decode (suc fuel) buffer num_samples channels s target file
        ≡ some (s, target', file')
  unfolding read_loop
  read_loop-end fuel num_samples s buffer buffer' target target' file file' a b =
      rw (a, read_loop, b, ◌>>=◌)

  read_loop-stop :
      (fuel num_samples s : ℕ) (buffer : Span V) (target : AudioBlock F) (file : File V)
      → ltb s num_samples ≡ false
      → read_loop decode (suc fuel) buffer num_samples channels s target file
        ≡ some (s, target, file)
  unfolding read_loop
  read_loop-stop fuel num_samples s buffer target file a = rw (a, read_loop)

  min-mul : (a b : ℕ) → min (a * channels) (b * channels) ≡ min a b * channels
  min-mul a b = elim (dec_le a b) [
    | yes h ↦
        let e : min a b ≡ a = omega arith in
        rw e (omega (arith, mul-le-mul_right {m = a} {n = b} channels h))
    | no h ↦
        let e : min a b ≡ b = omega arith in
        rw e (omega (arith, mul-le-mul_right {m = b} {n = a} channels (omega arith)))
  ]

  left_values :
      (s total base : ℕ) (file : File V)
      → s ≤ total
      → file.pos ≡ base + s * channels
      → file.size ≡ base + total * channels
      → file.size - file.pos ≡ (total - s) * channels
  left_values s total base file le at size =
      let e : total - s + s ≡ total = omega arith in
      omega (arith, ap (λ k. k * channels) e, add-mul (total - s) s channels)

  -- The value of a frame in the buffer.
  loaded-frame :
      (n s base c i : ℕ) (buffer : Span V) (file : File V)
      → file.pos ≡ base + s * channels
      → c < channels
      → s ≤ i
      → i < s + n
      → (loaded (n * channels) buffer file).cell (c + (i - s) * channels)
        ≡ file.value_at (base + (c + i * channels))
  loaded-frame n s base c i buffer file at h le lt =
      let e : s + (i - s) ≡ i = omega arith in
      let inside : c + (i - s) * channels < n * channels = omega (
        arith,
        mul-le-mul_right {m = i - s + 1} {n = n} channels (omega arith),
        add-mul (i - s) 1 channels,
      ) in
      let f = lt→ltb (c + (i - s) * channels) (n * channels) inside in
      rw f (ap file.value_at (omega (arith, ap (λ k. k * channels) e, add-mul s (i - s) channels)))

  read_loop-Loaded :
      (fuel num_samples s base total frames : ℕ) (buffer : Span V) (target : AudioBlock F)
      (file old : File V)
      → 0 < frames
      → buffer.size ≡ frames * channels
      → target.num_channels ≡ channels
      → total ≤ num_samples
      → num_samples ≤ target.num_samples
      → total < s + fuel
      → s ≤ total
      → file.pos ≡ base + s * channels
      → file.size ≡ base + total * channels
      → ((k : ℕ) → file.value_at k ≡ old.value_at k)
      → ((c i : ℕ)
          → c < channels
          → i < s
          → target.sample c i ≡ decode (old.value_at (base + (c + i * channels))))
      → Loaded (read_loop decode fuel buffer num_samples channels s target file) base total old
  read_loop-Loaded zero num_samples s base total frames buffer target file old q size same most fits
        fuels le at end values done =
      absurd (omega arith)
  read_loop-Loaded (suc fuel) num_samples s base total frames buffer target file old q size same
        most fits fuels le at end values done =
      let left = left_values s total base file le at end in
      elim (dec_le total s) [
        | yes t ↦
            let e : s ≡ total = omega arith in
            elim (dec_le num_samples s) [
              | yes u ↦
                  let stop : ltb s num_samples ≡ false = ground arith in
                  record {
                    target = target;
                    file = file;
                    returns =
                        read_loop-stop fuel num_samples s buffer target file stop
                        ∙ ap (λ k. some (k, target, file)) e;
                    end = subst (λ k. file.pos ≡ base + k * channels) e at;
                    values = λ c i h g. done c i h (omega arith);
                  }
              | no u ↦
                  let go = lt→ltb s num_samples (omega arith) in
                  let file' : File V = record file { pos = file.pos + 0 } in
                  let z : total - s ≡ 0 = omega arith in
                  let nothing : min buffer.size (file.size - file.pos) ≡ 0 =
                    omega (arith, ap (λ k. k * channels) z) in
                  record {
                    target = target;
                    file = file';
                    returns =
                        read_loop-end fuel num_samples s buffer _ target target file file' go
                          (read_frames-none s buffer target file nothing)
                        ∙ ap (λ k. some (k, target, file')) e;
                    end = subst (λ k. file.pos + 0 ≡ base + k * channels) e (omega (arith, at));
                    values = λ c i h g. done c i h (omega arith);
                  }
            ]
        | no t ↦
            let n = min frames (total - s) in
            let go = lt→ltb s num_samples (omega arith) in
            let count : min buffer.size (file.size - file.pos) ≡ n * channels =
              ap₂ min size left ∙ min-mul frames (total - s) in
            let one =
              deinterleave-SpreadOut decode
                (record (loaded (n * channels) buffer file) { size = n * channels }) channels s n
                target positive same (omega arith) refl in
            let some_read : (n == 0) ≡ false = ground arith in
            let rest =
              read_loop-Loaded fuel num_samples (s + n) base total frames
                (loaded (n * channels) buffer file) one.result
                (record file { pos = file.pos + n * channels }) old q size
                (one.same_channels ∙ same) most (omega (arith, one.same_samples)) (omega arith)
                (omega arith) (omega (arith, add-mul s n channels)) end values
                (λ c i h g. elim (dec_le s i) [
                  | no u ↦ one.below c i (omega arith) ∙ done c i h (omega arith)
                  | yes u ↦
                      ap (one.result.sample c) (omega arith)
                      ∙ one.filled c (i - s) (omega arith) (omega arith) (omega arith)
                      ∙ ap decode (
                          loaded-frame n s base c i buffer file at h u g
                          ∙ values (base + (c + i * channels)))
                ]) in
            record {
              target = rest.target;
              file = rest.file;
              returns =
                  read_loop-next fuel num_samples s n buffer _ target one.result file _ go
                    (read_frames-some s n buffer target one.result file count (omega arith)
                      one.returns)
                    some_read rest.returns;
              end = rest.end;
              values = rest.values;
            }
      ]

  -- For a buffer of whole frames, a block of all channels with room for the samples that are asked for,
  -- and a file that has `total` whole frames left, no more than asked for: `readDeinterleaveConvert` reads
  -- them all, also where the file ends early, into the block's channels.
  pub read_deinterleave_convert-Loaded :
      (num_samples total frames : ℕ) (buffer : Span V) (target : AudioBlock F) (file : File V)
      → 0 < frames
      → buffer.size ≡ frames * channels
      → target.num_channels ≡ channels
      → total ≤ num_samples
      → num_samples ≤ target.num_samples
      → file.size ≡ file.pos + total * channels
      → Loaded
          (read_deinterleave_convert decode buffer num_samples channels target file)
          file.pos
          total
          file
  unfolding read_deinterleave_convert
  read_deinterleave_convert-Loaded num_samples total frames buffer target file q size same most fits
        end =
      read_loop-Loaded (num_samples + 1) num_samples 0 file.pos total frames buffer target file file
        q size same most fits (omega arith) (omega arith) (omega arith) end (λ k. refl)
        (λ c i h g. absurd (omega arith))
