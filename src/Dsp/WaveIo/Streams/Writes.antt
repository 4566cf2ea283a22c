-- ===== src/Dsp/WaveIo/Streams/Writes.antt =====
-- A block that is written through `WaveWriter::write`.
use v1util.Common.{
  ℕ, ◌+◌, ◌*◌, ◌/◌, ◌%◌, ◌^◌, ◌≤◌, ◌<◌, ◌≡◌, sym, ap, ◌==◌, Bool, true, false, Option, some, List,
  [], ◌∷◌, min, max, ◌>>=◌, arith,
}
use v1util.Dsp.WaveIo.{WaveInfo}
use v1util.Dsp.WaveIo.Samples.{File, Span, AudioBlock}
use v1util.Dsp.WaveIo.Samples.Write.{Wrote, convert_interleave_write-Wrote}
use v1util.Dsp.WaveIo.Streams.{WaveWriter, max_buffer_size, buffer_frames, encoder, write}

buffer_frames-some :
    (w : WaveInfo) (wanted : ℕ)
    → 0 < w.bits_per_sample / 8
    → 0 < w.num_channels
    → (frames : ℕ) × (buffer_frames w wanted ≡ some frames) × (0 < frames)
unfolding buffer_frames
buffer_frames-some w wanted h k =
    let bits : (w.bits_per_sample / 8 == 0) ≡ false = ground arith in
    let channels : (w.num_channels == 0) ≡ false = ground arith in
    (
      max (min (max_buffer_size / (w.bits_per_sample / 8) / w.num_channels) wanted) 1,
      rw (bits, channels),
      omega arith,
    )

-- The writer with a file of some values.
abbrev pub writer : File ℕ → WaveInfo → WaveWriter
writer file w = record { file = some file; info = w }

abbrev pub counted : WaveInfo → ℕ → WaveInfo
counted w n = record w { num_samples = w.num_samples + n }

module _ {F : Type 0} where
  abbrev pub total : List (AudioBlock F) → ℕ
  total [] = 0
  total (b ∷ bs) = b.num_samples + total bs

  abbrev pub AllHave : ℕ → List (AudioBlock F) → Type 0
  AllHave c [] = Unit
  AllHave c (b ∷ bs) = (b.num_channels ≡ c) × AllHave c bs

module _ {F : Type 0} (memory : ℕ → ℕ) (encode16 encode32 encode_float : F → ℕ) where
  module _ (encode : F → ℕ) where
    pub write-Wrote :
        (source : AudioBlock F) (file : File ℕ) (w : WaveInfo)
        → source.num_channels ≡ w.num_channels
        → 0 < w.num_channels
        → 0 < w.bits_per_sample / 8
        → encoder memory encode16 encode32 encode_float w ≡ some encode
        → file.pos ≤ file.size
        → source.num_samples * w.num_channels ≤ file.room
        → w.num_samples + source.num_samples < 2 ^ 32
        → (m : Option (Bool × File ℕ)) × (d : Wrote encode source m file.pos file) × (write memory
              encode16 encode32 encode_float source
              (writer file w)
            ≡ some (true, writer d.file (counted w source.num_samples)))
    unfolding write
    write-Wrote source file w same positive bits chosen inside room small =
        let (frames, enough, some_frame) = buffer_frames-some w source.num_samples bits positive in
        let buffer : Span ℕ = record { size = frames * w.num_channels; cell = memory } in
        let equal : (source.num_channels == w.num_channels) ≡ true = ground arith in
        let d =
          convert_interleave_write-Wrote encode source frames buffer file (omega arith) some_frame
            (ap (λ k. frames * k) (sym same)) inside
            (omega (arith, ap (λ k. source.num_samples * k) same)) in
        let count : (w.num_samples + source.num_samples) % 2 ^ 32
            ≡ w.num_samples + source.num_samples =
          omega arith in
        (_, d, rw (equal, enough, ◌>>=◌, chosen, ◌>>=◌, d.returns, ◌>>=◌, count))
