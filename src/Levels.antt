-- ===== src/Levels.antt =====
-- Signal levels: `dbfs` and `update_level_stats` of board/ws_server.cpp, whose loop also stands in
-- `processing_worker` of board/pipeline_probe.cpp, and `IntervalStats` of board/capture_probe.cpp.
pub mod Peak
use voice_edge_monitor.Base.{
  ℕ, zero, suc, ◌+◌, ◌%◌, ◌^◌, max, Bool, List, [], ◌∷◌, ◌==◌, if◌then◌else◌, length,
}
use voice_edge_monitor.Base.Int.{ℤ, pos, negsuc, signed16}
use voice_edge_monitor.Audio.{AudioFrame, Floats}

-- The constant -120.0, `20.0 * std::log10(amplitude / 32768.0)`, and `std::llround(x * 10.0)`.
pub record Meter (f : Floats) : Type 0 where
  pub floor_dbfs : f.Double
  pub decibels : f.Double → f.Double
  pub tenths : f.Double → ℤ

-- `value < 0 ? -value : value`.
unfoldable pub magnitude : ℤ → ℕ
magnitude (pos n) = n
magnitude (negsuc n) = suc n

module _ (f : Floats) where
  open f use {Double, LongDouble}

  -- `static_cast<long double>(value) * static_cast<long double>(value)`, added on.
  unfoldable pub add_square : LongDouble → ℕ → LongDouble
  add_square acc s = f.add_long acc (f.mul_long (f.of_int (signed16 s)) (f.of_int (signed16 s)))

  -- The loop over the samples, from a peak and a sum.
  unfoldable pub scan_levels : List ℕ → ℕ × LongDouble → ℕ × LongDouble
  unfolding magnitude add_square
  scan_levels [] r = r
  scan_levels (s ∷ ss) (peak, sum_squared) =
      scan_levels ss (max peak (magnitude (signed16 s)), add_square sum_squared s)

  -- The root of the mean of `n` squares; 0.0 if there are none.
  unfoldable pub rms_over : ℕ → LongDouble → Double
  rms_over n sum_squared =
      if n == 0 then f.zero_double else f.sqrt (f.narrow (f.div_long sum_squared (f.of_size n)))

  unfoldable pub dbfs : Meter f → Double → Double
  dbfs m amplitude = if f.le amplitude f.zero_double then m.floor_dbfs else m.decibels amplitude

  -- The two values that are stored, `last_rms_dbfs_x10` and `last_peak_dbfs_x10`.
  unfoldable pub update_level_stats : Meter f → AudioFrame → ℤ × ℤ
  unfolding scan_levels rms_over dbfs
  update_level_stats m frame =
      let (peak, sum_squared) = scan_levels frame.samples (0, f.zero_long) in
      let rms = rms_over (length frame.samples) sum_squared in
      (m.tenths (dbfs m rms), m.tenths (dbfs m (f.narrow (f.of_int (pos peak)))))

  pub record IntervalStats : Type 0 where
    pub samples : ℕ
    pub sum_squared : LongDouble
    pub peak : ℕ

  unfoldable pub no_samples : IntervalStats
  no_samples = record { samples = 0; sum_squared = f.zero_long; peak = 0 }

  unfoldable pub add : List ℕ → IntervalStats → IntervalStats
  unfolding scan_levels
  add block s =
      let (peak, sum_squared) = scan_levels block (s.peak, s.sum_squared) in
      record {
        samples = (s.samples + length block) % 2 ^ 64;
        sum_squared = sum_squared;
        peak = peak;
      }

  unfoldable pub rms : IntervalStats → Double
  unfolding rms_over
  rms s = rms_over s.samples s.sum_squared
