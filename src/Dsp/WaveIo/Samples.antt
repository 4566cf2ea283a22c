-- ===== src/Dsp/WaveIo/Samples.antt =====
-- Reading and writing the samples of a wave file, as dsp/waveIo.cpp does it. The conversions of a value
-- from and to a file, `decode` and `encode`, are floating-point arithmetic and parameters. A file holds
-- whole values; sizes and offsets are those of memory that exists, so that their sums do not wrap.
pub mod Frames
pub mod Write
pub mod Spread
pub mod Read
pub mod RoundTrip
pub mod Tests
use v1util.Common.{
  ℕ, zero, suc, ◌+◌, ◌-◌, ◌*◌, ◌/◌, ◌%◌, ◌==◌, ltb, leb, if◌then◌else◌, Bool, true, false, ◌&&◌,
  Option, none, some, min, max, ◌>>=◌, ◌>>◌, v1_assert,
}

-- A `FILE`: its values, its position, and the number of values that the medium still takes.
pub record File (V : Type 0) : Type 0 where
  pub value_at : ℕ → V
  pub size : ℕ
  pub pos : ℕ
  pub room : ℕ

-- `Span<T>`, a buffer.
pub record Span (V : Type 0) : Type 0 where
  pub size : ℕ
  pub cell : ℕ → V

-- `AudioBlock`: the sample of a channel at a position.
pub record AudioBlock (F : Type 0) : Type 0 where
  pub num_channels : ℕ
  pub num_samples : ℕ
  pub sample : ℕ → ℕ → F

module _ {A : Type 0} where
  abbrev pub update : (ℕ → A) → ℕ → A → ℕ → A
  update f i a k = if k == i then a else f k

  -- An access of a span's element, and of a sample behind the pointer of its channel.
  unfoldable pub fetch : Span A → ℕ → Option A
  fetch s i = if ltb i s.size then some (s.cell i) else none

  unfoldable pub store : Span A → ℕ → A → Option (Span A)
  store s i a = if ltb i s.size then some (record s { cell = update s.cell i a }) else none

  unfoldable pub get_sample : AudioBlock A → ℕ → ℕ → Option A
  get_sample b chan i =
      if ltb chan b.num_channels && ltb i b.num_samples then some (b.sample chan i) else none

  unfoldable pub set_sample : AudioBlock A → ℕ → ℕ → A → Option (AudioBlock A)
  set_sample b chan i a =
      if ltb chan b.num_channels && ltb i b.num_samples
      then some
          (record b { sample = λ c. if c == chan then update (b.sample c) i a else b.sample c })
      else none

  -- `fread` of `n` values into a buffer: how many there were, the buffer and the file.
  unfoldable pub fread : ℕ → Span A → File A → ℕ × Span A × File A
  fread n buffer file =
      let count = min n (file.size - file.pos) in
      (
        count,
        record buffer {
          cell = λ i. if ltb i count then file.value_at (file.pos + i) else buffer.cell i;
        },
        record file { pos = file.pos + count },
      )

  -- `fwrite` of the first `n` values of a buffer: how many were written.
  unfoldable pub fwrite : ℕ → Span A → File A → ℕ × File A
  fwrite n buffer file =
      let count = min n file.room in
      (
        count,
        record file {
          value_at = λ k.
              if leb file.pos k && ltb k (file.pos + count)
              then buffer.cell (k - file.pos)
              else file.value_at k;
          size = max file.size (file.pos + count);
          pos = file.pos + count;
          room = file.room - count;
        },
      )

module _ {V F : Type 0} (decode : V → F) where
  -- The inner loop of `deinterleaveAndConvertAudio`, from sample `i` on.
  unfoldable pub deinterleave_samples :
      Span V → ℕ → ℕ → ℕ → ℕ → ℕ → AudioBlock F → Option (AudioBlock F)
  deinterleave_samples source channels offset chan zero i target = some target
  deinterleave_samples source channels offset chan (suc n) i target = do
    v ← fetch source (chan + i * channels)
    target' ← set_sample target chan (offset + i) (decode v)
    deinterleave_samples source channels offset chan n (i + 1) target'

  -- The loop over the channels, from channel `chan` on.
  unfoldable pub deinterleave_channels :
      Span V → ℕ → ℕ → ℕ → ℕ → ℕ → AudioBlock F → Option (AudioBlock F)
  deinterleave_channels source channels offset n zero chan target = some target
  deinterleave_channels source channels offset n (suc m) chan target = do
    target' ← deinterleave_samples source channels offset chan n 0 target
    deinterleave_channels source channels offset n m (chan + 1) target'

  -- `deinterleaveAndConvertAudio`
  unfoldable pub deinterleave : Span V → ℕ → AudioBlock F → ℕ → Option (AudioBlock F)
  deinterleave source channels target offset = do
    v1_assert (ltb 0 target.num_channels)
    v1_assert (leb source.size (channels * target.num_samples))
    v1_assert (source.size % target.num_channels == 0)
    deinterleave_channels source channels offset (source.size / channels) target.num_channels 0
        target

  -- One turn of the loop of `readDeinterleaveConvert`: the samples read, the buffer, the block and the
  -- file.
  unfoldable pub read_frames :
      Span V → ℕ → ℕ → AudioBlock F → File V → Option (ℕ × Span V × AudioBlock F × File V)
  read_frames buffer channels samples_read target file =
      let (count, buffer', file') = fread buffer.size buffer file in
      elim (count / channels == 0) [
        | true ↦ some (0, buffer', target, file')
        | false ↦ do
          target' ←
              deinterleave (record buffer' { size = count / channels * channels }) channels target
                samples_read
          some (count / channels, buffer', target', file')
      ]

  -- The loop, with fuel: the samples read.
  unfoldable pub read_loop :
      ℕ → Span V → ℕ → ℕ → ℕ → AudioBlock F → File V → Option (ℕ × AudioBlock F × File V)
  read_loop zero buffer num_samples channels samples_read target file = none
  read_loop (suc fuel) buffer num_samples channels samples_read target file =
      elim (ltb samples_read num_samples) [
        | false ↦ some (samples_read, target, file)
        | true ↦ do
          (n, buffer', target', file') ← read_frames buffer channels samples_read target file
          elim (n == 0) [
            | true ↦ some (samples_read, target', file')
            | false ↦ read_loop fuel buffer' num_samples channels (samples_read + n) target' file'
          ]
      ]

  unfoldable pub read_deinterleave_convert :
      Span V → ℕ → ℕ → AudioBlock F → File V → Option (ℕ × AudioBlock F × File V)
  read_deinterleave_convert buffer num_samples channels target file =
      read_loop (num_samples + 1) buffer num_samples channels 0 target file

module _ {V F : Type 0} where
  unfoldable pub values_to_write : AudioBlock F → Span V → ℕ → ℕ
  values_to_write source buffer samples_written =
      min (source.num_channels * (source.num_samples - samples_written)) buffer.size

module _ {V F : Type 0} (encode : F → V) where
  unfoldable pub interleave_samples : AudioBlock F → ℕ → ℕ → ℕ → ℕ → Span V → Option (Span V)
  interleave_samples source offset chan zero i target = some target
  interleave_samples source offset chan (suc n) i target = do
    x ← get_sample source chan (offset + i)
    target' ← store target (chan + i * source.num_channels) (encode x)
    interleave_samples source offset chan n (i + 1) target'

  unfoldable pub interleave_channels : AudioBlock F → ℕ → ℕ → ℕ → ℕ → Span V → Option (Span V)
  interleave_channels source offset n zero chan target = some target
  interleave_channels source offset n (suc m) chan target = do
    target' ← interleave_samples source offset chan n 0 target
    interleave_channels source offset n m (chan + 1) target'

  -- `convertAndInterleaveAudio`
  unfoldable pub interleave : AudioBlock F → ℕ → Span V → Option (Span V)
  interleave source offset target = do
    v1_assert (ltb 0 source.num_channels)
    v1_assert (leb target.size (source.num_channels * source.num_samples))
    v1_assert (target.size % source.num_channels == 0)
    interleave_channels source offset (target.size / source.num_channels) source.num_channels 0
        target

  -- One turn of the loop of `convertInterleaveWrite`: whether all `values` were written, the buffer and
  -- the file.
  unfoldable pub write_values :
      ℕ → AudioBlock F → Span V → ℕ → File V → Option (Bool × Span V × File V)
  write_values values source buffer samples_written file = do
    written ← interleave source samples_written (record buffer { size = values })
    let (values_written, file') = fwrite values written file
    some (values_written == values, record written { size = buffer.size }, file')

  -- The loop, with fuel: whether all was written.
  unfoldable pub write_loop : ℕ → AudioBlock F → Span V → ℕ → File V → Option (Bool × File V)
  write_loop zero source buffer samples_written file = none
  write_loop (suc fuel) source buffer samples_written file =
      elim (ltb samples_written source.num_samples) [
        | false ↦ some (true, file)
        | true ↦ do
          let values = values_to_write source buffer samples_written
          (ok, buffer', file') ← write_values values source buffer samples_written file
          elim ok [
            | false ↦ some (false, file')
            | true ↦
                write_loop fuel source buffer' (samples_written + values / source.num_channels)
                  file'
          ]
      ]

  unfoldable pub convert_interleave_write : AudioBlock F → Span V → File V → Option (Bool × File V)
  convert_interleave_write source buffer file =
      write_loop (source.num_samples + 1) source buffer 0 file
