-- ===== src/Cli/Capture.antt =====
-- The command line of board/capture_probe.cpp: its `Options` and the branches of its `parse_options`, in order.
-- `environment` is the value of VOICEEDGE_CAPTURE_DEVICE.
pub mod Bounds
use voice_edge_monitor.Base.{
  ℕ, ◌%◌, ◌^◌, Bool, true, false, List, [], ◌∷◌, Result, ok, Option, none, some, if◌then◌else◌,
}
use voice_edge_monitor.Base.Int.{ℤ, pos, signed32}
use voice_edge_monitor.Audio.{Floats}
use voice_edge_monitor.Vad.{VadConfig}
use voice_edge_monitor.Cli.{
  Text, bytes, Setting, valued, flag, Parsed, parse, Numbers, parse_uint64, parse_double, store,
  is_nonzero, is_between_1_and, any_value, default_device, is_positive, starts_with_slash,
}

pub record Options : Type 0 where
  pub device : Text
  pub rate : ℕ
  pub channels : ℕ
  pub period_frames : ℕ
  pub buffer_frames : ℕ
  pub run_ms : ℕ
  pub report_ms : ℕ
  pub wav_path : Text

module _ {F : Floats} where
  -- The initial values.
  unfoldable pub defaults : Numbers F → Option Text → Options
  unfolding default_device
  defaults N environment = record {
    device = default_device environment;
    rate = 16000;
    channels = 1;
    period_frames = 2000;
    buffer_frames = 8000;
    run_ms = 0;
    report_ms = 1000;
    wav_path = [];
  }

  unfoldable pub settings : Numbers F → List (Setting Options)
  unfolding store parse_uint64 parse_double is_nonzero is_between_1_and any_value is_positive
      starts_with_slash
  settings N =
      (valued (bytes "--device") (λ v o. ok (record o { device = v })))
      ∷ (valued (bytes "--rate") (λ v o.
          store (is_between_1_and 0xffff_ffff) (λ n o. record o { rate = n % 2 ^ 32 }) o
            (parse_uint64 N v)))
      ∷ (valued (bytes "--channels") (λ v o.
          store (is_between_1_and 8) (λ n o. record o { channels = n % 2 ^ 32 }) o
            (parse_uint64 N v)))
      ∷ (valued (bytes "--period-frames") (λ v o.
          store (is_between_1_and 0xffff_ffff_ffff_ffff) (λ n o. record o { period_frames = n }) o
            (parse_uint64 N v)))
      ∷ (valued (bytes "--buffer-frames") (λ v o.
          store (is_between_1_and 0xffff_ffff_ffff_ffff) (λ n o. record o { buffer_frames = n }) o
            (parse_uint64 N v)))
      ∷ (valued (bytes "--run-ms")
          (λ v o. store any_value (λ n o. record o { run_ms = n }) o (parse_uint64 N v)))
      ∷ (valued (bytes "--report-ms")
          (λ v o. store is_nonzero (λ n o. record o { report_ms = n }) o (parse_uint64 N v)))
      ∷ (valued (bytes "--wav") (λ v o. ok (record o { wav_path = v })))
      ∷ []

  unfoldable pub parse_options : Numbers F → Option Text → List Text → Parsed Options
  unfolding parse settings defaults
  parse_options N environment args = parse (settings N) false args (defaults N environment)
