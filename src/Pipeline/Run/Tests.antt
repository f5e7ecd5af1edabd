-- ===== src/Pipeline/Run/Tests.antt =====
-- A run of the pipeline probe from the start of its threads to the end (board/pipeline_probe.cpp).
use voice_edge_monitor.Base.{◌≡◌, refl, true, false, Option, none, some, List, [], ◌∷◌, ok, err}
use voice_edge_monitor.Base.Int.{pos}
use voice_edge_monitor.Audio.{AudioFrame, SpeechSegment}
use voice_edge_monitor.Audio.FixedPoint.{fixed}
use voice_edge_monitor.Cli.{bytes}
use voice_edge_monitor.Cli.Pipeline.{Options}
use voice_edge_monitor.Queue.{Queue, push_drop_oldest}
use voice_edge_monitor.Vad.{EnergyVad, idle, process}
use voice_edge_monitor.Segment.{is_idle}
use voice_edge_monitor.Levels.{Meter}
use voice_edge_monitor.Alsa.{AlsaCapture}
use voice_edge_monitor.Recorder.{Environment, Recording, Store, worker_step}
use voice_edge_monitor.Server.Lifetime.{ended}
use voice_edge_monitor.Server.Lifetime.Start.{Surroundings}
use voice_edge_monitor.Server.Lifetime.Order.{is_off}
use voice_edge_monitor.Pipeline.{
  Pipeline, initial, Input, got, returned, finished, capture_step, processing_step, monitor_step,
}
use voice_edge_monitor.Pipeline.Cut
use voice_edge_monitor.Pipeline.Run.{Run, over, main_step, asr_step, start}
use voice_edge_monitor.Pipeline.Run.Steps.{
  Runs, begun, next, ends, captures, processes, monitors, recognises, persists,
}
use voice_edge_monitor.Pipeline.Run.Shutdown.{run_joins}

abbrev vad : EnergyVad fixed
vad = record {
  config = record { start_rms = 491; end_rms = 393; min_speech_ms = 125; silence_ms = 1000 };
  state = idle;
  candidate_start_ms = 0;
  speech_start_ms = 0;
  silence_start_ms = 0;
}

abbrev asr_queue : Queue SpeechSegment
asr_queue = record { capacity = 4; queue = []; dropped_items = 0; closed = false }

abbrev frame_queue : Queue AudioFrame
frame_queue = record { capacity = 1; queue = []; dropped_items = 0; closed = false }

abbrev meter : Meter fixed
meter = record { floor_dbfs = 0; decibels = λ x. x; tenths = λ x. pos x }

abbrev device : AlsaCapture
device = record { rate = 16000; channels = 1; period_frames = 4; buffer_frames = 16 }

abbrev pipeline : Pipeline fixed
pipeline = initial fixed device frame_queue frame_queue (Cut.initial fixed true 30000 vad asr_queue)

abbrev options : Options fixed
options = record {
  device = bytes "hw:0";
  rate = 16000;
  channels = 1;
  period_frames = 4;
  buffer_frames = 16;
  run_ms = 0;
  report_ms = 1000;
  processing_capacity = 1;
  monitor_capacity = 1;
  processing_delay_ms = 0;
  monitor_delay_ms = 0;
  vad_config = record { start_rms = 491; end_rms = 393; min_speech_ms = 125; silence_ms = 1000 };
  asr_queue_capacity = 4;
  max_segment_ms = 30000;
  asr_model = bytes "m";
  asr_tokens = bytes "t";
  asr_language = bytes "zh";
  asr_provider = bytes "cpu";
  asr_threads = pos 2;
  persist_dir = bytes "/data";
  persist_audio = false;
  persist_transcript = true;
  persist_queue_capacity = 32;
}

abbrev surroundings : Surroundings
surroundings = record {
  created = true;
  makes_root = true;
  opens = true;
  transcript = [];
  disk = λ path. none;
  fails = λ c. false;
}

abbrev here : Environment
here = record {
  wav_path = λ n. bytes "segment.wav";
  relative = λ path. path;
  makes_directory = λ n. true;
  fate =
      λ n. record { opens = true; completes = true; partial = []; removes = true; renames = true };
  decimal = λ n. bytes "7";
  print_audio_ms = λ n d. bytes "1.0";
  cut_off = λ held line. none;
}

abbrev silence : Recording
silence = record {
  segment = none;
  text = [];
  status = bytes "final";
  processing_ms = 7;
  rtf = bytes "0.1000";
  error = [];
}

-- Which thread takes the next step.
data Move : Type 0 where
  main_thread capture_thread processing_thread monitor_thread asr_thread recorder_thread : Move

abbrev begin : Run fixed
begin = elim (start fixed options surroundings pipeline) [
  | ok s ↦ s
  | err e ↦ record { main = over; pipeline = pipeline; asr = ended; recording_store = none }
]

begins : start fixed options surroundings pipeline ≡ ok begin
unfolding start initial Cut.initial
begins = refl

abbrev Reached : Type 0
Reached = (t : Run fixed) × Runs fixed meter begin t

abbrev period : Input
period = got 1 (7 ∷ 0 ∷ 0 ∷ 0 ∷ []) 20

abbrev advance : Move → Reached → Reached
advance main_thread (s, r) = go (main_step fixed s) refl
  where
    go : (o : Option (Run fixed)) → main_step fixed s ≡ o → Reached
    go none e = (s, r)
    go (some t) e = (t, next r (ends t e))
advance capture_thread (s, r) = go (capture_step fixed period s.pipeline) refl
  where
    go : (o : Option (Pipeline fixed)) → capture_step fixed period s.pipeline ≡ o → Reached
    go none e = (s, r)
    go (some p) e = (record s { pipeline = p }, next r (captures period p e))
advance processing_thread (s, r) = go (processing_step fixed meter true s.pipeline) refl
  where
    go : (o : Option (Pipeline fixed)) → processing_step fixed meter true s.pipeline ≡ o → Reached
    go none e = (s, r)
    go (some p) e = (record s { pipeline = p }, next r (processes true p e))
advance monitor_thread (s, r) = go (monitor_step fixed true s.pipeline) refl
  where
    go : (o : Option (Pipeline fixed)) → monitor_step fixed true s.pipeline ≡ o → Reached
    go none e = (s, r)
    go (some p) e = (record s { pipeline = p }, next r (monitors true p e))
advance asr_thread (s, r) = go (asr_step fixed true silence s) refl
  where
    go : (o : Option (Run fixed)) → asr_step fixed true silence s ≡ o → Reached
    go none e = (s, r)
    go (some t) e = (t, next r (recognises true silence t e))
advance recorder_thread (s, r) = stored s.recording_store refl
  where
    go :
        (store : Store)
        → s.recording_store ≡ some store
        → (o : Option Store) → worker_step here true store ≡ o
        → Reached
    go store q none e = (s, r)
    go store q (some kept) e =
        (record s { recording_store = some kept }, next r (persists here true store kept q e))

    stored : (o : Option Store) → s.recording_store ≡ o → Reached
    stored none q = (s, r)
    stored (some store) q = go store q (worker_step here true store) refl

abbrev advance_all : List Move → Reached → Reached
advance_all [] p = p
advance_all (m ∷ ms) p = advance_all ms (advance m p)

-- A frame is captured and processed; then all threads are ended.
abbrev schedule : List Move
schedule =
    capture_thread ∷ capture_thread ∷ capture_thread ∷ capture_thread ∷ capture_thread
    ∷ processing_thread ∷ processing_thread ∷ processing_thread ∷ main_thread ∷ main_thread
    ∷ main_thread ∷ main_thread ∷ main_thread ∷ capture_thread ∷ capture_thread ∷ capture_thread
    ∷ capture_thread ∷ main_thread ∷ processing_thread ∷ processing_thread ∷ main_thread
    ∷ monitor_thread ∷ monitor_thread ∷ monitor_thread ∷ monitor_thread ∷ monitor_thread
    ∷ main_thread ∷ asr_thread ∷ asr_thread ∷ main_thread ∷ main_thread ∷ recorder_thread
    ∷ recorder_thread ∷ main_thread ∷ []

abbrev done : Reached
done = advance_all schedule (begin, begun)

all_over : done.0.main ≡ over
unfolding start initial Cut.initial main_step asr_step capture_step processing_step monitor_step
    worker_step process push_drop_oldest is_idle
all_over = refl

run_joins_example :
    (done.0.pipeline.capture ≡ returned)
    × (done.0.pipeline.processing ≡ finished)
    × (done.0.pipeline.monitor ≡ finished)
    × (done.0.asr ≡ ended)
    × (is_off done.0.recording_store ≡ true)
run_joins_example =
    run_joins fixed meter options surroundings pipeline begin done.0 begins done.1 all_over
