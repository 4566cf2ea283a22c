-- ===== src/Dsp/WaveIo/Samples/Tests.antt =====
-- Runs of the sample loops.
use v1util.Common.{
  ℕ, ◌+◌, ◌*◌, ◌/◌, ◌≡◌, ◌<◌, refl, false, Option, none, some, List, [], ◌∷◌, arith,
}
use v1util.Dsp.WaveIo.Samples.{
  File, Span, AudioBlock, fetch, store, get_sample, set_sample, fread, fwrite, deinterleave_samples,
  deinterleave_channels, deinterleave, read_frames, read_loop, read_deinterleave_convert,
  values_to_write, interleave_samples, interleave_channels, interleave, write_values, write_loop,
  convert_interleave_write,
}
use v1util.Dsp.WaveIo.Samples.Write.{
  Wrote, convert_interleave_write-Wrote, convert_interleave_write-short,
}
use v1util.Dsp.WaveIo.Samples.Read.{Loaded, read_deinterleave_convert-Loaded}
use v1util.Dsp.WaveIo.Samples.RoundTrip.{write_then_read, write_then_read-samples}

abbrev encode : ℕ → ℕ
encode x = x * 3

abbrev decode : ℕ → ℕ
decode v = v / 3 + 1

-- Two channels of three samples each.
abbrev pub stereo : AudioBlock ℕ
stereo = record { num_channels = 2; num_samples = 3; sample = λ chan i. 10 * chan + i }

abbrev pub silent : AudioBlock ℕ
silent = record { num_channels = 2; num_samples = 3; sample = λ chan i. 0 }

abbrev frames : ℕ → Span ℕ
frames n = record { size = n * 2; cell = λ i. 99 }

abbrev pub empty_file : File ℕ
empty_file = record { value_at = λ k. 0; size = 4; pos = 4; room = 6 }

abbrev full_file : File ℕ
full_file = record { value_at = λ k. 0; size = 4; pos = 4; room = 5 }

-- Eight whole frames.
abbrev long_file : File ℕ
long_file = record { value_at = λ k. 3 * k; size = 16; pos = 0; room = 0 }

back : Option (ℕ × AudioBlock ℕ) → Option (ℕ × List ℕ)
back none = none
back (some (n, b)) =
    some (n, b.sample 0 0 ∷ b.sample 0 1 ∷ b.sample 0 2 ∷ b.sample 1 0 ∷ b.sample 1 2 ∷ [])

write_then_read_run :
    back (write_then_read encode decode stereo (frames 2) (frames 1) silent empty_file)
    ≡ some (3, 1 ∷ 2 ∷ 3 ∷ 11 ∷ 13 ∷ [])
unfolding write_then_read convert_interleave_write write_loop write_values values_to_write
    interleave interleave_channels interleave_samples get_sample store fwrite
    read_deinterleave_convert read_loop read_frames deinterleave deinterleave_channels
    deinterleave_samples fetch set_sample fread back
write_then_read_run = refl

-- Three samples with a buffer of two frames from a file that goes on: the second turn reads two frames
-- again and writes behind the end of the block.
read_long_file : read_deinterleave_convert decode (frames 2) 3 2 silent long_file ≡ none
unfolding read_deinterleave_convert read_loop read_frames deinterleave deinterleave_channels
    deinterleave_samples fetch set_sample fread
read_long_file = refl

-- One of two channels of a file with an odd count of frames and three channels: the assertion on the
-- count of values divides by the channels of the block.
read_fewer_channels : deinterleave decode (record { size = 3; cell = λ i. i }) 3 silent 0 ≡ none
unfolding deinterleave
read_fewer_channels = refl

convert_interleave_write-Wrote_example :
    Wrote encode stereo (convert_interleave_write encode stereo (frames 2) empty_file) 4 empty_file
convert_interleave_write-Wrote_example =
    convert_interleave_write-Wrote encode stereo 2 (frames 2) empty_file (omega arith) (omega arith)
      refl (omega arith) (omega arith)

convert_interleave_write-short_example :
    (file' : File ℕ) × (convert_interleave_write encode stereo (frames 2) full_file
      ≡ some (false, file'))
convert_interleave_write-short_example =
    convert_interleave_write-short encode stereo 2 (frames 2) full_file (omega arith) (omega arith)
      refl (omega arith)

abbrev short_file : File ℕ
short_file = record { value_at = λ k. 3 * k; size = 4; pos = 0; room = 0 }

read_deinterleave_convert-Loaded_example :
    Loaded decode 2
      (omega arith)
      (read_deinterleave_convert decode (frames 1) 3 2 silent short_file)
      0
      2
      short_file
read_deinterleave_convert-Loaded_example =
    read_deinterleave_convert-Loaded decode 2 (omega arith) 3 2 1 (frames 1) silent short_file
      (omega arith) refl refl (omega arith) (omega arith) refl

write_then_read-samples_example :
    (read : AudioBlock ℕ) × (write_then_read encode decode stereo
        (frames 2)
        (frames 1)
        silent
        empty_file
      ≡ some (3, read))
    × ((chan i : ℕ) → chan < 2 → i < 3 → read.sample chan i ≡ decode (encode (10 * chan + i)))
write_then_read-samples_example =
    write_then_read-samples encode decode stereo silent 2 1 (frames 2) (frames 1) empty_file
      (omega arith) (omega arith) (omega arith) refl refl refl (omega arith) refl (omega arith)
