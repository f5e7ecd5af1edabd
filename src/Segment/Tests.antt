-- ===== src/Segment/Tests.antt =====
-- A run of the segmenter (board/ws_server.cpp), and its theorems at a concrete capture.
use voice_edge_monitor.Base.{ℕ, ◌≡◌, refl, true, false, List, [], ◌∷◌, ok, All}
use voice_edge_monitor.Audio.{AudioFrame, SpeechSegment}
use voice_edge_monitor.Audio.FixedPoint.{fixed}
use voice_edge_monitor.Queue.{Queue}
use voice_edge_monitor.Queue
use voice_edge_monitor.Vad
use voice_edge_monitor.Vad.{VadConfig, EnergyVad, idle, make}
use voice_edge_monitor.Segment.{initial, hear, hear_frame, segment_overflow}
use voice_edge_monitor.Segment.Cut.{IsCut, queued_segments-IsCut}

abbrev config : VadConfig fixed
config = record { start_rms = 491; end_rms = 393; min_speech_ms = 125; silence_ms = 1000 }

abbrev fresh : EnergyVad fixed
fresh = record {
  config = config;
  state = idle;
  candidate_start_ms = 0;
  speech_start_ms = 0;
  silence_start_ms = 0;
}

made : make fixed config ≡ ok fresh
unfolding make
made = refl

abbrev asr_queue : Queue SpeechSegment
asr_queue = record { capacity = 4; queue = []; dropped_items = 0; closed = false }

queue_made : Queue.make 4 ≡ ok asr_queue
unfolding Queue.make
queue_made = refl

abbrev frame_at : ℕ → List ℕ → AudioFrame
frame_at now samples = record {
  sequence = 0;
  timestamp_ms = now;
  sample_rate = 16000;
  channels = 1;
  samples = samples;
}

abbrev loud : ℕ → AudioFrame
loud now = frame_at now (3000 ∷ 62536 ∷ 3000 ∷ [])

abbrev silent : ℕ → AudioFrame
silent now = frame_at now (0 ∷ 0 ∷ 0 ∷ [])

abbrev speech : List AudioFrame
speech = silent 0 ∷ loud 100 ∷ loud 250 ∷ silent 300 ∷ silent 1300 ∷ silent 1400 ∷ []

abbrev spoken : SpeechSegment
spoken = record {
  id = 0;
  start_timestamp_ms = 100;
  end_timestamp_ms = 1300;
  sample_rate = 16000;
  channels = 1;
  samples = 3000 ∷ 62536 ∷ 3000 ∷ 3000 ∷ 62536 ∷ 3000 ∷ 0 ∷ 0 ∷ 0 ∷ 0 ∷ 0 ∷ 0 ∷ [];
}

speech_cut :
    (hear fixed (initial fixed true 30000 fresh asr_queue) speech).asr_queue.queue ≡ spoken ∷ []
unfolding hear hear_frame initial Vad.process Queue.try_push Vad.reset
speech_cut = refl

-- With a limit of 200 ms the segment is given up, and the detector starts again.
too_long :
    (hear fixed (initial fixed true 200 fresh asr_queue) speech).notices ≡ segment_overflow ∷ []
unfolding hear hear_frame initial Vad.process Queue.try_push Vad.reset
too_long = refl

queued_segments-IsCut_example :
    All
      (IsCut 30000 speech)
      (hear fixed (initial fixed true 30000 fresh asr_queue) speech).asr_queue.queue
queued_segments-IsCut_example =
    queued_segments-IsCut fixed 30000 4 config fresh asr_queue made queue_made speech
