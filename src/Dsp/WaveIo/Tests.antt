-- ===== src/Dsp/WaveIo/Tests.antt =====
-- Wave headers.
use v1util.Common.{
  ◌+◌, ◌*◌, ◌/◌, ltb, if◌then◌else◌, ◌||◌, arith, ◌≡◌, refl, ◌++◌, some, true, false, [], ◌∷◌,
  length,
}
use v1util.Dsp.WaveIo.RoundTrip.{info, read_info-write_wave_info, subchunks_size-length}
use v1util.Dsp.WaveIo.{
  WaveInfo, write_wave_info, read_info, seek_to_chunk, sample_bytes, wave_chunk_size,
  subchunks_size, block_align, wave_header,
}

abbrev cd : WaveInfo
cd = record {
  num_channels = 2;
  num_samples = 1000;
  sample_rate = 44100;
  is_floating_point = false;
  bits_per_sample = 16;
}

abbrev float32 : WaveInfo
float32 = record {
  num_channels = 3;
  num_samples = 1001;
  sample_rate = 96000;
  is_floating_point = true;
  bits_per_sample = 32;
}

cd_run : read_info (write_wave_info cd) ≡ some cd
unfolding write_wave_info read_info seek_to_chunk sample_bytes wave_chunk_size subchunks_size
    block_align wave_header
cd_run = refl

float32_run : read_info (write_wave_info float32) ≡ some float32
unfolding write_wave_info read_info seek_to_chunk sample_bytes wave_chunk_size subchunks_size
    block_align wave_header
float32_run = refl

read_info-write_wave_info_example :
    read_info (write_wave_info (info 2 1000 44100 3 false) ++ 1 ∷ 2 ∷ [])
    ≡ some (info 2 1000 44100 3 false)
read_info-write_wave_info_example =
    read_info-write_wave_info 2 1000 44100 3 false (1 ∷ 2 ∷ []) (omega arith) (omega arith)
      (omega arith) (omega arith) (omega arith) (omega arith) (omega arith) (omega arith)

subchunks_size-length_example :
    subchunks_size float32 + 8 + (if ltb 16 32 || true then 12 else 0)
    ≡ length (write_wave_info float32) + (sample_bytes float32 + 1) / 2 * 2
unfolding sample_bytes
subchunks_size-length_example = subchunks_size-length float32 (omega arith)
