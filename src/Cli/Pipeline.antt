-- ===== src/Cli/Pipeline.antt =====
-- The command line of board/pipeline_probe.cpp: its `Options` and the branches of its `parse_options`, in order.
-- `environment` is the value of VOICEEDGE_CAPTURE_DEVICE.
pub mod Bounds
use voice_edge_monitor.Base.{
  ℕ, ◌%◌, ◌^◌, Bool, true, false, List, [], ◌∷◌, Result, ok, Option, none, some, if◌then◌else◌,
}
use voice_edge_monitor.Base.Int.{ℤ, pos, signed32}
use voice_edge_monitor.Audio.{Floats}
use voice_edge_monitor.Vad.{VadConfig}
use voice_edge_monitor.Cli.{
  Text, bytes, Setting, valued, flag, Parsed, parse, Numbers, parse_uint64, parse_double, store,
  is_nonzero, is_between_1_and, any_value, default_device, is_positive, starts_with_slash,
}

module _ (F : Floats) where
  pub record Options : Type 0 where
    pub device : Text
    pub rate : ℕ
    pub channels : ℕ
    pub period_frames : ℕ
    pub buffer_frames : ℕ
    pub run_ms : ℕ
    pub report_ms : ℕ
    pub processing_capacity : ℕ
    pub monitor_capacity : ℕ
    pub processing_delay_ms : ℕ
    pub monitor_delay_ms : ℕ
    pub vad_config : VadConfig F
    pub asr_queue_capacity : ℕ
    pub max_segment_ms : ℕ
    pub asr_model : Text
    pub asr_tokens : Text
    pub asr_language : Text
    pub asr_provider : Text
    pub asr_threads : ℤ
    pub persist_dir : Text
    pub persist_audio : Bool
    pub persist_transcript : Bool
    pub persist_queue_capacity : ℕ

module _ {F : Floats} where
  unfoldable pub vad_defaults : Numbers F → VadConfig F
  vad_defaults N = record {
    start_rms = N.double_0_015;
    end_rms = N.double_0_012;
    min_speech_ms = 125;
    silence_ms = 1000;
  }

  -- The initial values.
  unfoldable pub defaults : Numbers F → Option Text → (Options F)
  unfolding default_device vad_defaults
  defaults N environment = record {
    device = default_device environment;
    rate = 16000;
    channels = 1;
    period_frames = 2000;
    buffer_frames = 8000;
    run_ms = 0;
    report_ms = 1000;
    processing_capacity = 32;
    monitor_capacity = 64;
    processing_delay_ms = 0;
    monitor_delay_ms = 0;
    vad_config = vad_defaults N;
    asr_queue_capacity = 4;
    max_segment_ms = 30000;
    asr_model = [];
    asr_tokens = [];
    asr_language = bytes "zh";
    asr_provider = bytes "cpu";
    asr_threads = pos 2;
    persist_dir = [];
    persist_audio = false;
    persist_transcript = false;
    persist_queue_capacity = 32;
  }

  unfoldable pub settings : Numbers F → List (Setting (Options F))
  unfolding store parse_uint64 parse_double is_nonzero is_between_1_and any_value is_positive
      starts_with_slash
  settings N =
      (valued (bytes "--device") (λ v o. ok (record o { device = v })))
      ∷ (valued (bytes "--rate") (λ v o.
          store (is_between_1_and 0xffff_ffff) (λ n o. record o { rate = n % 2 ^ 32 }) o
            (parse_uint64 N v)))
      ∷ (valued (bytes "--channels") (λ v o.
          store (is_between_1_and 8) (λ n o. record o { channels = n % 2 ^ 32 }) o
            (parse_uint64 N v)))
      ∷ (valued (bytes "--period-frames") (λ v o.
          store (is_between_1_and 0xffff_ffff_ffff_ffff) (λ n o. record o { period_frames = n }) o
            (parse_uint64 N v)))
      ∷ (valued (bytes "--buffer-frames") (λ v o.
          store (is_between_1_and 0xffff_ffff_ffff_ffff) (λ n o. record o { buffer_frames = n }) o
            (parse_uint64 N v)))
      ∷ (valued (bytes "--run-ms")
          (λ v o. store any_value (λ n o. record o { run_ms = n }) o (parse_uint64 N v)))
      ∷ (valued (bytes "--report-ms")
          (λ v o. store is_nonzero (λ n o. record o { report_ms = n }) o (parse_uint64 N v)))
      ∷ (valued (bytes "--processing-capacity") (λ v o.
          store is_nonzero (λ n o. record o { processing_capacity = n }) o (parse_uint64 N v)))
      ∷ (valued (bytes "--monitor-capacity")
          (λ v o. store is_nonzero (λ n o. record o { monitor_capacity = n }) o (parse_uint64 N v)))
      ∷ (valued (bytes "--processing-delay-ms") (λ v o.
          store any_value (λ n o. record o { processing_delay_ms = n }) o (parse_uint64 N v)))
      ∷ (valued (bytes "--monitor-delay-ms")
          (λ v o. store any_value (λ n o. record o { monitor_delay_ms = n }) o (parse_uint64 N v)))
      ∷ (valued (bytes "--vad-start-rms") (λ v o.
          store any_value (λ d o. record o { vad_config = record o.vad_config { start_rms = d } }) o
            (parse_double N v)))
      ∷ (valued (bytes "--vad-end-rms") (λ v o.
          store any_value (λ d o. record o { vad_config = record o.vad_config { end_rms = d } }) o
            (parse_double N v)))
      ∷ (valued (bytes "--vad-min-speech-ms") (λ v o.
          store any_value
            (λ n o. record o { vad_config = record o.vad_config { min_speech_ms = n } }) o
            (parse_uint64 N v)))
      ∷ (valued (bytes "--vad-silence-ms") (λ v o.
          store any_value (λ n o. record o { vad_config = record o.vad_config { silence_ms = n } })
            o (parse_uint64 N v)))
      ∷ (valued (bytes "--asr-model") (λ v o. ok (record o { asr_model = v })))
      ∷ (valued (bytes "--asr-tokens") (λ v o. ok (record o { asr_tokens = v })))
      ∷ (valued (bytes "--asr-language") (λ v o. ok (record o { asr_language = v })))
      ∷ (valued (bytes "--asr-provider") (λ v o. ok (record o { asr_provider = v })))
      ∷ (valued (bytes "--asr-threads") (λ v o.
          store (λ n. is_positive (signed32 (n % 2 ^ 32)))
            (λ n o. record o { asr_threads = signed32 (n % 2 ^ 32) }) o (parse_uint64 N v)))
      ∷ (valued (bytes "--asr-queue-capacity") (λ v o.
          store is_nonzero (λ n o. record o { asr_queue_capacity = n }) o (parse_uint64 N v)))
      ∷ (valued (bytes "--max-segment-ms")
          (λ v o. store is_nonzero (λ n o. record o { max_segment_ms = n }) o (parse_uint64 N v)))
      ∷ (valued (bytes "--persist-dir") (λ v o. ok (record o { persist_dir = v })))
      ∷ (flag (bytes "--persist-audio") (λ o. record o { persist_audio = true }))
      ∷ (flag (bytes "--persist-transcript") (λ o. record o { persist_transcript = true }))
      ∷ (valued (bytes "--persist-queue-capacity") (λ v o.
          store is_nonzero (λ n o. record o { persist_queue_capacity = n }) o (parse_uint64 N v)))
      ∷ []

  unfoldable pub parse_options : Numbers F → Option Text → List Text → Parsed (Options F)
  unfolding parse settings defaults
  parse_options N environment args = parse (settings N) false args (defaults N environment)
