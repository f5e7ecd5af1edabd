-- ===== src/Pipeline.antt =====
-- board/pipeline_probe.cpp: `PipelineContext` and its threads (`capture_worker`, `processing_worker`,
-- `monitor_worker`, `request_stop`), each as its next step on the state that they share. A step is one
-- access to what is shared: a queue's critical section, or an atomic. Counters are `uint64_t`. The
-- workers' `catch` blocks are left out: but for a lack of memory, nothing in their loops throws.
pub mod Cut
pub mod Steps
pub mod Accounting
pub mod Recognition
pub mod Run
mod Tests
use voice_edge_monitor.Base.{
  ℕ, zero, suc, ◌+◌, ◌*◌, ◌/◌, ◌%◌, ◌^◌, Bool, true, false, ◌||◌, not, Option, none, some, List, [],
  ◌∷◌, ◌==◌, if◌then◌else◌, length, take,
}
use voice_edge_monitor.Base.Int.{ℤ, negsuc}
use voice_edge_monitor.Audio.{AudioFrame, Floats}
use voice_edge_monitor.Queue.{Queue, try_push, push_drop_oldest, pop_for, close}
use voice_edge_monitor.Vad.{VadState, idle, VadEvent, VadEventType, started, ended, process}
use voice_edge_monitor.Segment.{incr}
use voice_edge_monitor.Levels.{Meter, update_level_stats}
use voice_edge_monitor.Alsa.{AlsaCapture}
use voice_edge_monitor.Pipeline.Cut.{Cutter, handle_vad_segment}

-- Where `capture_worker` stands. With a frame: behind the count of captured frames, before `try_push`,
-- behind a `try_push` that has returned false, before the second test of the stop flag, before
-- `push_drop_oldest`, behind one that has returned true. Without: before the read, or behind the loop,
-- where it has still to set `capture_finished` and to close two queues, or one.
pub data Capture : Type 0 where
  reading : Capture
  counted pushing refused pushed mirroring : AudioFrame → Capture
  evicted : Capture
  leaving closing_both closing_monitor returned : Capture

-- Where `processing_worker` and `monitor_worker` stand: before `pop_for`, behind one that has returned
-- false, with a frame that is not counted yet, with one that is, or behind the loop.
pub data Worker : Type 0 where
  polling missed : Worker
  taken working : AudioFrame → Worker
  finished : Worker

-- How far `request_stop` has come, which the main thread calls.
pub data Stopper : Type 0 where
  unrequested requested closed_processing closed_both : Stopper

-- What `capture_worker` meets in one round: `g_signal_stop`; or frames, with the buffer that holds their
-- samples and the clock; or none; or an error: whether it is `-EPIPE`, whether `g_signal_stop` is set
-- by then, and whether ALSA recovers from it.
pub data Input : Type 0 where
  signalled : Input
  got : ℕ → List ℕ → ℕ → Input
  got_none : Input
  failed : Bool → Bool → Bool → Input

-- `stop_requested`.
abbrev pub is_requested : Stopper → Bool
is_requested unrequested = false
is_requested requested = true
is_requested closed_processing = true
is_requested closed_both = true

-- The frames of a packet, one sample for each channel.
unfoldable pub frames_in : AudioFrame → ℕ
frames_in x = if x.channels == 0 then 0 else length x.samples / x.channels

abbrev pub after_pop : Option AudioFrame → Worker
after_pop none = missed
after_pop (some x) = taken x

module _ (f : Floats) where
  -- `sequence` is `capture_worker`'s own. `stopper` holds `stop_requested`, too.
  pub record Pipeline : Type 0 where
    pub audio : AlsaCapture
    pub processing_queue : Queue AudioFrame
    pub monitor_queue : Queue AudioFrame
    pub cutter : Cutter f
    pub capture : Capture
    pub processing : Worker
    pub monitor : Worker
    pub stopper : Stopper
    pub sequence : ℕ
    pub capture_finished : Bool
    pub captured_frames : ℕ
    pub processed_frames : ℕ
    pub monitor_frames : ℕ
    pub processing_drops : ℕ
    pub monitor_drops : ℕ
    pub processing_popped : ℕ
    pub monitor_popped : ℕ
    pub xruns : ℕ
    pub recoveries : ℕ
    pub read_errors : ℕ
    pub vad_started : ℕ
    pub vad_ended : ℕ
    pub vad_state : VadState
    pub last_rms_dbfs_x10 : ℤ
    pub last_peak_dbfs_x10 : ℤ

  -- The state in which the threads start; the queues and the cutter come from their constructors.
  unfoldable pub initial : AlsaCapture → Queue AudioFrame → Queue AudioFrame → Cutter f → Pipeline
  initial audio processing_queue monitor_queue cutter = record {
    audio = audio;
    processing_queue = processing_queue;
    monitor_queue = monitor_queue;
    cutter = cutter;
    capture = reading;
    processing = polling;
    monitor = polling;
    stopper = unrequested;
    sequence = 0;
    capture_finished = false;
    captured_frames = 0;
    processed_frames = 0;
    monitor_frames = 0;
    processing_drops = 0;
    monitor_drops = 0;
    processing_popped = 0;
    monitor_popped = 0;
    xruns = 0;
    recoveries = 0;
    read_errors = 0;
    vad_started = 0;
    vad_ended = 0;
    vad_state = idle;
    last_rms_dbfs_x10 = negsuc 1199;
    last_peak_dbfs_x10 = negsuc 1199;
  }

  unfoldable pub request_stop : Pipeline → Option Pipeline
  request_stop s = elim s.stopper [
    | unrequested ↦ some (record s { stopper = requested })
    | requested ↦
        some (record s { stopper = closed_processing; processing_queue = close s.processing_queue })
    | closed_processing ↦
        some (record s { stopper = closed_both; monitor_queue = close s.monitor_queue })
    | closed_both ↦ none
  ]

  unfoldable pub make_frame : Pipeline → ℕ → List ℕ → ℕ → AudioFrame
  make_frame s count buffer now = record {
    sequence = s.sequence;
    timestamp_ms = now % 2 ^ 64;
    sample_rate = s.audio.rate;
    channels = s.audio.channels;
    samples = take (count * s.audio.channels) buffer;
  }

  -- One round of the loop, up to the count of captured frames.
  unfoldable pub read_step : Input → Pipeline → Pipeline
  unfolding make_frame
  read_step signalled s = record s { capture = leaving }
  read_step (got count buffer now) s = record s {
    capture = counted (make_frame s count buffer now);
    sequence = incr s.sequence;
    captured_frames = (s.captured_frames + count) % 2 ^ 64;
  }
  read_step got_none s = s
  read_step (failed overrun signal recovers) s =
      let xruns = if overrun then incr s.xruns else s.xruns in
      if is_requested s.stopper || signal
      then record s { capture = leaving }
      else if recovers
      then record s { xruns = xruns; recoveries = incr s.recoveries }
      else record s { xruns = xruns; read_errors = incr s.read_errors; capture = leaving }

  unfoldable pub capture_step : Input → Pipeline → Option Pipeline
  unfolding read_step
  capture_step input s = elim s.capture [
    | reading ↦
        some (if is_requested s.stopper then record s { capture = leaving } else read_step input s)
    | counted x ↦
        some (record s { capture = if is_requested s.stopper then leaving else pushing x })
    | pushing x ↦
        let (queue, done) = try_push x s.processing_queue in
        some (record s { processing_queue = queue; capture = if done then pushed x else refused x })
    | refused x ↦ some (record s {
      capture = pushed x;
      processing_drops =
          if is_requested s.stopper then s.processing_drops else incr s.processing_drops;
    })
    | pushed x ↦
        some (record s { capture = if is_requested s.stopper then leaving else mirroring x })
    | mirroring x ↦
        let (queue, dropped) = push_drop_oldest x s.monitor_queue in
        some (record s { monitor_queue = queue; capture = if dropped then evicted else reading })
    | evicted ↦ some (record s {
      capture = reading;
      monitor_drops = if is_requested s.stopper then s.monitor_drops else incr s.monitor_drops;
    })
    | leaving ↦ some (record s { capture = closing_both; capture_finished = true })
    | closing_both ↦
        some (record s { capture = closing_monitor; processing_queue = close s.processing_queue })
    | closing_monitor ↦
        some (record s { capture = returned; monitor_queue = close s.monitor_queue })
    | returned ↦ none
  ]

  unfoldable pub count_type : VadEventType → Pipeline → Pipeline
  count_type started s = record s { vad_started = incr s.vad_started }
  count_type ended s = record s { vad_ended = incr s.vad_ended }

  unfoldable pub count_event : Option VadEvent → Pipeline → Pipeline
  unfolding count_type
  count_event none s = s
  count_event (some event) s = count_type event.type s

  -- What `processing_worker` does with a frame.
  unfoldable pub process_frame : Meter f → AudioFrame → Pipeline → Pipeline
  unfolding update_level_stats count_event handle_vad_segment frames_in
  process_frame m x s =
      let (rms_level, peak_level) = update_level_stats f m x in
      let (vad, decision) = process f s.cutter.vad x in
      count_event decision.event (record s {
        last_rms_dbfs_x10 = rms_level;
        last_peak_dbfs_x10 = peak_level;
        vad_state = decision.state;
        cutter = handle_vad_segment f (record s.cutter { vad = vad }) x decision;
        processed_frames = (s.processed_frames + frames_in x) % 2 ^ 64;
      })

  -- Behind the loop `asr_queue` is closed.
  unfoldable pub processing_step : Meter f → Bool → Pipeline → Option Pipeline
  unfolding process_frame
  processing_step m timed_out s = elim s.processing [
    | polling ↦ elim (pop_for timed_out s.processing_queue) [
      | none ↦ none
      | some (queue, x) ↦ some (record s { processing_queue = queue; processing = after_pop x })
    ]
    | missed ↦ some (
        if s.processing_queue.closed
        then record s {
          processing = finished;
          cutter = record s.cutter { asr_queue = close s.cutter.asr_queue };
        }
        else record s { processing = polling })
    | taken x ↦
        some (record s { processing = working x; processing_popped = incr s.processing_popped })
    | working x ↦ some (record (process_frame m x s) { processing = polling })
    | finished ↦ none
  ]

  unfoldable pub monitor_step : Bool → Pipeline → Option Pipeline
  unfolding frames_in
  monitor_step timed_out s = elim s.monitor [
    | polling ↦ elim (pop_for timed_out s.monitor_queue) [
      | none ↦ none
      | some (queue, x) ↦ some (record s { monitor_queue = queue; monitor = after_pop x })
    ]
    | missed ↦ some (record s { monitor = if s.monitor_queue.closed then finished else polling })
    | taken x ↦ some (record s { monitor = working x; monitor_popped = incr s.monitor_popped })
    | working x ↦
        some (record s {
          monitor = polling;
          monitor_frames = (s.monitor_frames + frames_in x) % 2 ^ 64;
        })
    | finished ↦ none
  ]
