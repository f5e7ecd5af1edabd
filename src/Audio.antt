-- ===== src/Audio.antt =====
-- board/audio_frame.hpp, and the floating-point operations of the C++ implementation, which the
-- program uses and does not define. Samples are the bit patterns of `int16_t`.
pub mod FixedPoint
use voice_edge_monitor.Base.{ℕ, Bool, List}
use voice_edge_monitor.Base.Int.{ℤ}

pub record AudioFrame : Type 0 where
  pub sequence : ℕ
  pub timestamp_ms : ℕ
  pub sample_rate : ℕ
  pub channels : ℕ
  pub samples : List ℕ

pub record SpeechSegment : Type 0 where
  pub id : ℕ
  pub start_timestamp_ms : ℕ
  pub end_timestamp_ms : ℕ
  pub sample_rate : ℕ
  pub channels : ℕ
  pub samples : List ℕ

-- `double`, `long double`, `float` and `std::sqrt`. Comparisons are Boolean, so that a NaN may fail both
-- `lt a b` and `le b a`; no law is assumed.
pub record Floats : Type 1 where
  pub Double : Type 0
  pub LongDouble : Type 0
  pub zero_double : Double
  pub one_double : Double
  pub lt : Double → Double → Bool
  pub le : Double → Double → Bool
  pub sqrt : Double → Double
  pub zero_long : LongDouble
  pub of_int : ℤ → LongDouble
  pub of_size : ℕ → LongDouble
  pub add_long : LongDouble → LongDouble → LongDouble
  pub mul_long : LongDouble → LongDouble → LongDouble
  pub div_long : LongDouble → LongDouble → LongDouble
  pub narrow : LongDouble → Double
  pub Float : Type 0
  pub float_of : ℤ → Float
  pub mul_float : Float → Float → Float
  pub div_float : Float → Float → Float
