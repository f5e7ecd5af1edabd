-- ===== src/Pipeline/Tests.antt =====
-- Runs of the pipeline probe (board/pipeline_probe.cpp), and its theorems at concrete frames.
use voice_edge_monitor.Base.{
  ℕ, ◌+◌, ◌%◌, ◌^◌, length, ◌≡◌, refl, true, false, List, [], ◌∷◌, ok, Option, none, some,
}
use voice_edge_monitor.Audio.{AudioFrame, SpeechSegment}
use voice_edge_monitor.Audio.FixedPoint.{fixed}
use voice_edge_monitor.Base.Int.{pos}
use voice_edge_monitor.Queue.{Queue, make, try_push, push_drop_oldest}
use voice_edge_monitor.Vad.{EnergyVad, idle, process, reset}
use voice_edge_monitor.Levels.{Meter}
use voice_edge_monitor.Alsa.{AlsaCapture}
use voice_edge_monitor.Segment
use voice_edge_monitor.Pipeline.Cut.{Cutter, hear, silenced, hear-silenced}
use voice_edge_monitor.Pipeline.Cut
use voice_edge_monitor.Pipeline.{Pipeline, initial, capture_step, Input, got}
use voice_edge_monitor.Pipeline.Steps.{Reach, here, next, captures}
use voice_edge_monitor.Pipeline.Accounting.{captured_frames_accounted}
use voice_edge_monitor.Pipeline.Accounting.Counts.{uncounted, unprocessed, unmonitored}

abbrev vad : EnergyVad fixed
vad = record {
  config = record { start_rms = 491; end_rms = 393; min_speech_ms = 125; silence_ms = 1000 };
  state = idle;
  candidate_start_ms = 0;
  speech_start_ms = 0;
  silence_start_ms = 0;
}

abbrev asr_queue : Queue SpeechSegment
asr_queue = record { capacity = 4; queue = []; dropped_items = 0; closed = false }

abbrev loud : ℕ → AudioFrame
loud now = record {
  sequence = 0;
  timestamp_ms = now;
  sample_rate = 16000;
  channels = 1;
  samples = 3000 ∷ 62536 ∷ [];
}

abbrev silent : ℕ → AudioFrame
silent now = record {
  sequence = 0;
  timestamp_ms = now;
  sample_rate = 16000;
  channels = 1;
  samples = 0 ∷ 0 ∷ [];
}

abbrev speech : List AudioFrame
speech = loud 100 ∷ loud 250 ∷ silent 300 ∷ silent 1300 ∷ []

speech_cut : (hear fixed (Cut.initial fixed true 30000 vad asr_queue) speech).asr_segments ≡ 1
unfolding hear Cut.initial Cut.hear_frame process try_push reset Segment.is_idle
speech_cut = refl

hear-silenced_example :
    silenced fixed (Segment.hear fixed (Segment.initial fixed true 30000 vad asr_queue) speech)
    ≡ hear fixed (Cut.initial fixed true 30000 vad asr_queue) speech
hear-silenced_example = hear-silenced fixed true 30000 vad asr_queue speech

abbrev frame_queue : Queue AudioFrame
frame_queue = record { capacity = 1; queue = []; dropped_items = 0; closed = false }

frame_queue_made : make 1 ≡ ok frame_queue
unfolding make
frame_queue_made = refl

abbrev meter : Meter fixed
meter = record { floor_dbfs = 0; decibels = λ x. x; tenths = λ x. pos x }

abbrev device : AlsaCapture
device = record { rate = 16000; channels = 1; period_frames = 4; buffer_frames = 16 }

abbrev at_start : Pipeline fixed
at_start = initial fixed device frame_queue frame_queue (Cut.initial fixed true 30000 vad asr_queue)

abbrev period : Input
period = got 1 (7 ∷ 0 ∷ 0 ∷ 0 ∷ []) 20

abbrev Reached : Type 0
Reached = (s : Pipeline fixed) × Reach fixed meter at_start s

-- The capture thread alone, for as many steps as there are inputs.
abbrev advance : Input → Reached → Reached
advance i (s, r) = go (capture_step fixed i s) refl
  where
    go : (o : Option (Pipeline fixed)) → capture_step fixed i s ≡ o → Reached
    go none e = (s, r)
    go (some t) e = (t, next r (captures i t e))

abbrev advance_all : List Input → Reached → Reached
advance_all [] p = p
advance_all (i ∷ is) p = advance_all is (advance i p)

-- Two rounds of the loop, while no other thread takes a step.
abbrev two_rounds : Reached
two_rounds =
    advance_all
      (period ∷ period ∷ period ∷ period ∷ period ∷ period ∷ period ∷ period ∷ period ∷ [])
      (at_start, here)

second_frame_refused : two_rounds.0.processing_drops ≡ 1
unfolding initial capture_step try_push push_drop_oldest
second_frame_refused = refl

captured_frames_accounted_example :
    (two_rounds.0.sequence
      ≡ (two_rounds.0.processing_popped
          + uncounted two_rounds.0.processing
          + length two_rounds.0.processing_queue.queue
          + two_rounds.0.processing_drops
          + unprocessed two_rounds.0.capture)
        % 2 ^ 64)
    × (two_rounds.0.sequence
        ≡ (two_rounds.0.monitor_popped
            + uncounted two_rounds.0.monitor
            + length two_rounds.0.monitor_queue.queue
            + two_rounds.0.monitor_drops
            + unmonitored two_rounds.0.capture)
          % 2 ^ 64)
unfolding initial capture_step try_push push_drop_oldest
captured_frames_accounted_example =
    captured_frames_accounted meter device frame_queue frame_queue
      (Cut.initial fixed true 30000 vad asr_queue) 1 1 two_rounds.0 frame_queue_made
      frame_queue_made two_rounds.1 refl
