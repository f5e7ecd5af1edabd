-- ===== src/Segment.antt =====
-- board/ws_server.cpp: `ServerRuntime::handle_vad_segment`, which cuts the captured frames into
-- speech segments for the recogniser, and the part of the server's state that it works on. The
-- build is the one with `VOICEEDGE_HAS_ASR`. Counters are `uint64_t`.
pub mod Sync
pub mod Change
pub mod Cut
mod Tests
use voice_edge_monitor.Base.{
  ℕ, zero, suc, ◌+◌, ◌-◌, ◌%◌, ◌^◌, Bool, true, false, ◌&&◌, not, Option, none, some, List, [], ◌∷◌,
  ◌++◌, leb, ltb, if◌then◌else◌,
}
use voice_edge_monitor.Audio.{AudioFrame, SpeechSegment, Floats}
use voice_edge_monitor.Queue.{Queue, try_push}
use voice_edge_monitor.Vad.{
  VadState, idle, starting, speaking, ending, VadEventType, started, ended, VadEvent, VadDecision,
  EnergyVad, process, reset,
}

-- The `asr_event` messages that are broadcast from here.
pub data Notice : Type 0 where
  segment_overflow segment_dropped : Notice

abbrev pub incr : ℕ → ℕ
incr n = (n + 1) % 2 ^ 64

unfoldable pub is_idle : VadState → Bool
is_idle idle = true
is_idle starting = false
is_idle speaking = false
is_idle ending = false

module _ (f : Floats) where
  -- `asr` says whether a recogniser is open; `notices` are the messages broadcast so far.
  pub record Segmenter : Type 0 where
    pub asr : Bool
    pub max_segment_ms : ℕ
    pub vad : EnergyVad f
    pub segment_active : Bool
    pub next_segment_id : ℕ
    pub segment_start_ms : ℕ
    pub segment_samples : List ℕ
    pub asr_queue : Queue SpeechSegment
    pub asr_segments : ℕ
    pub asr_drops : ℕ
    pub asr_overflows : ℕ
    pub notices : List Notice

  -- The members' initial values; the detector and the queue come from their constructors.
  unfoldable pub initial : Bool → ℕ → EnergyVad f → Queue SpeechSegment → Segmenter
  initial asr limit vad queue = record {
    asr = asr;
    max_segment_ms = limit;
    vad = vad;
    segment_active = false;
    next_segment_id = 0;
    segment_start_ms = 0;
    segment_samples = [];
    asr_queue = queue;
    asr_segments = 0;
    asr_drops = 0;
    asr_overflows = 0;
    notices = [];
  }

  unfoldable pub begin_segment : Segmenter → AudioFrame → VadDecision f → Segmenter
  unfolding is_idle
  begin_segment g frame decision =
      if not g.segment_active && not (is_idle decision.state)
      then record g {
        segment_active = true;
        segment_start_ms = frame.timestamp_ms;
        segment_samples = [];
      }
      else g

  unfoldable pub overflow_segment : Segmenter → Segmenter
  overflow_segment g = record g {
    asr_overflows = incr g.asr_overflows;
    segment_active = false;
    segment_samples = [];
    vad = reset f g.vad;
    notices = g.notices ++ segment_overflow ∷ [];
  }

  -- The segment made when the utterance ends.
  unfoldable pub finished_segment : Segmenter → AudioFrame → VadEvent → SpeechSegment
  finished_segment g frame event = record {
    id = g.next_segment_id;
    start_timestamp_ms = g.segment_start_ms;
    end_timestamp_ms = event.timestamp_ms;
    sample_rate = frame.sample_rate;
    channels = frame.channels;
    samples = g.segment_samples;
  }

  unfoldable pub submit_segment : Segmenter → SpeechSegment → Segmenter
  submit_segment g segment =
      let (queue, pushed) = try_push segment g.asr_queue in
      let g' = record g {
        next_segment_id = incr g.next_segment_id;
        segment_samples = [];
        segment_active = false;
        asr_segments = incr g.asr_segments;
        asr_queue = queue;
      } in
      if pushed
      then g'
      else record g' { asr_drops = incr g.asr_drops; notices = g.notices ++ segment_dropped ∷ [] }

  unfoldable pub on_event : Segmenter → AudioFrame → VadEvent → VadEventType → Segmenter
  unfolding finished_segment submit_segment
  on_event g frame event started = g
  on_event g frame event ended = submit_segment g (finished_segment g frame event)

  -- The branch on the decision's event, after the overflow check.
  unfoldable pub conclude_segment : Segmenter → AudioFrame → VadDecision f → Segmenter
  unfolding on_event is_idle
  conclude_segment g frame decision = elim decision.event [
    | some event ↦ on_event g frame event event.type
    | none ↦
        if is_idle decision.state
        then record g { segment_active = false; segment_samples = [] }
        else g
  ]

  unfoldable pub extend_segment : Segmenter → AudioFrame → VadDecision f → Segmenter
  unfolding overflow_segment conclude_segment
  extend_segment g frame decision =
      let g' = record g { segment_samples = g.segment_samples ++ frame.samples } in
      if leb g.segment_start_ms frame.timestamp_ms
        && ltb g.max_segment_ms (frame.timestamp_ms - g.segment_start_ms)
      then overflow_segment g'
      else conclude_segment g' frame decision

  unfoldable pub handle_vad_segment : Segmenter → AudioFrame → VadDecision f → Segmenter
  unfolding begin_segment extend_segment
  handle_vad_segment g frame decision =
      if not g.asr
      then g
      else let g' = begin_segment g frame decision in
        if not g'.segment_active then g' else extend_segment g' frame decision

  -- A frame of the capture loop: `vad_.process(*frame)`, then `handle_vad_segment`.
  unfoldable pub hear_frame : Segmenter → AudioFrame → Segmenter
  unfolding handle_vad_segment
  hear_frame g frame =
      let (vad, decision) = process f g.vad frame in
      handle_vad_segment (record g { vad = vad }) frame decision

  unfoldable pub hear : Segmenter → List AudioFrame → Segmenter
  hear g [] = g
  hear g (frame ∷ frames) = hear (hear_frame g frame) frames
