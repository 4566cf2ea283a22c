-- ===== src/Dsp/WaveIo/Streams/Tests.antt =====
-- Samples are written and read.
use v1util.Common.{ℕ, ◌≡◌, refl, Bool, true, false, Option, some, List, [], ◌∷◌, ◌>>=◌}
use v1util.Dsp.WaveIo.{WaveInfo}
use v1util.Dsp.WaveIo.Samples.{
  fetch, store, get_sample, set_sample, fread, fwrite, deinterleave_samples, deinterleave_channels,
  deinterleave, read_frames, read_loop, read_deinterleave_convert, values_to_write,
  interleave_samples, interleave_channels, interleave, write_values, write_loop,
  convert_interleave_write,
}
use v1util.Dsp.WaveIo.Samples.Tests.{stereo, silent, empty_file}
use v1util.Dsp.WaveIo.Streams.Writes.{writer}
use v1util.Dsp.WaveIo.Streams.{
  write, encoder, buffer_frames, is_valid, open_reader, read, decoder, is_open, empty,
}

abbrev same : ℕ → ℕ
same x = x

abbrev cd : WaveInfo
cd = record {
  num_channels = 2;
  num_samples = 0;
  sample_rate = 44100;
  is_floating_point = false;
  bits_per_sample = 16;
}

-- Three samples are written; they are counted, and a reader finds them and then is empty.
write_then_read : Option (ℕ × List ℕ × ℕ × Bool)
unfolding fetch store get_sample set_sample fread fwrite deinterleave_samples deinterleave_channels
    deinterleave read_frames read_loop read_deinterleave_convert values_to_write interleave_samples
    interleave_channels interleave write_values write_loop convert_interleave_write write encoder
    buffer_frames is_valid open_reader read decoder is_open empty
write_then_read = do
  (ok, w) ← write same same same same stereo (writer empty_file cd)
  file ← w.file
  (count, block, r) ← read same same same same silent (open_reader w.info (record file { pos = 4 }))
  some (count, block.sample 1 0 ∷ block.sample 1 2 ∷ [], w.info.num_samples, empty r)

write_then_read_run : write_then_read ≡ some (3, 10 ∷ 12 ∷ [], 3, true)
unfolding write_then_read
write_then_read_run = refl
