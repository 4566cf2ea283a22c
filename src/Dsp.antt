-- ===== src/Dsp.antt =====
-- The signal processing of dsp/.
pub mod PeakFinder
pub mod WaveIo
