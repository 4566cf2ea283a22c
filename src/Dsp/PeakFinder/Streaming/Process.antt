-- ===== src/Dsp/PeakFinder/Streaming/Process.antt =====
-- `StreamingPeakFinder::process` on the first block of a stream.
use v1util.Common.{List}
use v1util.Container.Deque.{Deque}
use v1util.Dsp.PeakFinder.Detector.{Detector}
use v1util.Dsp.PeakFinder.Isolator.{Isolator}
