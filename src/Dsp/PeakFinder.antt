-- ===== src/Dsp/PeakFinder.antt =====
-- dsp/peakfinder.hpp, one module for each class or group of functions. `Value` is an unsigned integer
-- type, so that `std::numeric_limits<Value>::min()` is 0; the code only compares values, and a signed
-- type is the same up to a shift by its smallest value.
pub mod MaximaFinder
pub mod Detector
pub mod FindPeak
pub mod Isolator
pub mod Streaming
