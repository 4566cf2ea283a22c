-- ===== src/Dsp/WaveIo/Writer/Tests.antt =====
-- Wave files that are written.
use v1util.Common.{ℕ, ◌++◌, ◌≡◌, refl, true, false, none, some, [], ◌∷◌, arith}
use v1util.Dsp.WaveIo.{
  read_info, write_wave_info, sample_bytes, wave_chunk_size, subchunks_size, block_align,
  wave_header,
}
use v1util.Dsp.WaveIo.RoundTrip.{info}
use v1util.Dsp.WaveIo.Samples.Tests.{stereo}
use v1util.Dsp.WaveIo.Streams.{encoder, no_info}
use v1util.Dsp.WaveIo.Writer.{WaveFile, fwrite_bytes, store_wave_info, open_writer}
use v1util.Dsp.WaveIo.Writer.Lifecycle.{data_bytes, write_file, write_file-read_info}

abbrev same : ℕ → ℕ
same x = x

abbrev empty_file : ℕ → WaveFile
empty_file limit = record { bytes = []; pos = 0; limit = limit }

-- Where the header does not fit, the writer has no file.
open_writer-short :
    open_writer (empty_file 43) (info 2 7 44100 2 false) ≡ record { file = none; info = no_info }
unfolding open_writer store_wave_info fwrite_bytes write_wave_info sample_bytes wave_chunk_size
    subchunks_size block_align wave_header
open_writer-short = refl

-- Two blocks of three samples; the count that the writer is given is 7.
write_file-read_info_example :
    (closed : WaveFile) × (write_file same same same same
        (empty_file 68)
        (info 2 7 44100 2 false)
        (stereo ∷ stereo ∷ [])
      ≡ some (true, closed))
    × (closed.bytes
        ≡ write_wave_info (info 2 6 44100 2 false) ++ data_bytes same 2 2 (stereo ∷ stereo ∷ []))
    × (read_info closed.bytes ≡ some (info 2 6 44100 2 false))
unfolding encoder write_wave_info sample_bytes wave_chunk_size subchunks_size block_align
    wave_header
write_file-read_info_example =
    write_file-read_info same same same same same 2 7 44100 2 false (stereo ∷ stereo ∷ []) 0 68 refl
      (omega arith) (omega arith) (omega arith) (omega arith) (omega arith) (omega arith)
      (omega arith) (omega arith) (refl, (refl, tt)) (omega arith)
