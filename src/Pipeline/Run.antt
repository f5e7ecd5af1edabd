-- ===== src/Pipeline/Run.antt =====
-- board/pipeline_probe.cpp: `run_pipeline`, from the point where the device is open: what it starts, the
-- loop of reports, and how it ends its threads. Their loops are in Pipeline.antt; of `asr_worker` (see
-- Pipeline/Recognition.antt) only the queue and the recorder matter here.
pub mod Steps
pub mod Shutdown
mod Tests
use voice_edge_monitor.Base.{
  ℕ, ◌*◌, Bool, true, false, ◌&&◌, ◌||◌, not, Option, none, some, List, ◌==◌, if◌then◌else◌, Result,
  Error, ok, err,
}
use voice_edge_monitor.Audio.{SpeechSegment, Floats}
use voice_edge_monitor.Cli.{is_empty}
use voice_edge_monitor.Cli.Pipeline.{Options}
use voice_edge_monitor.Queue.{Queue, pop_for, make}
use voice_edge_monitor.Asr.{open_recogniser}
use voice_edge_monitor.Recorder.{Config, Recording, Store, begin_stop, end_stop}
use voice_edge_monitor.Recorder
use voice_edge_monitor.Server.Status.{Pass, run_from}
use voice_edge_monitor.Server.Lifetime.{
  AsrLoop, popping, unanswered, transcribing, ended, terminated, has_ended, is_worked_off,
  record_all, begin_all,
}
use voice_edge_monitor.Server.Lifetime.Start.{Surroundings, make_store}
use voice_edge_monitor.Pipeline.{
  Capture, reading, counted, pushing, refused, pushed, mirroring, evicted, leaving, closing_both,
  closing_monitor, returned, Worker, polling, missed, taken, working, finished, Pipeline,
  request_stop,
}

-- Where the main thread stands: in the loop of reports, in `request_stop`, before the ends of the threads
-- and of the recorder, and behind them.
pub data Main : Type 0 where
  reporting requesting joining_capture joining_processing joining_monitor joining_asr : Main
  stopping_store joining_store over : Main

abbrev pub has_returned : Capture → Bool
has_returned reading = false
has_returned (counted x) = false
has_returned (pushing x) = false
has_returned (refused x) = false
has_returned (pushed x) = false
has_returned (mirroring x) = false
has_returned evicted = false
has_returned leaving = false
has_returned closing_both = false
has_returned closing_monitor = false
has_returned returned = true

abbrev pub has_finished : Worker → Bool
has_finished polling = false
has_finished missed = false
has_finished (taken x) = false
has_finished (working x) = false
has_finished finished = true

-- The times of the reports of the loop, and whether it is left; the loop is that of the server's `run`,
-- which begins with a report.
unfoldable pub report_loop : ℕ → ℕ → List Pass → List ℕ × Bool
unfolding run_from
report_loop run_ms report_ms passes = run_from run_ms report_ms (report_ms * 1000000) passes

-- What `run_pipeline` returns.
unfoldable pub exit_code : ℕ → ℕ
exit_code read_errors = if read_errors == 0 then 0 else 1

module _ (f : Floats) where
  pub record Run : Type 0 where
    pub main : Main
    pub pipeline : Pipeline f
    pub asr : AsrLoop
    pub recording_store : Option Store

  unfoldable pub started : Pipeline f → Bool → Option Store → Run
  started pipeline asr store = record {
    main = reporting;
    pipeline = pipeline;
    asr = if asr then popping else ended;
    recording_store = store;
  }

  abbrev pub with_store : Pipeline f → Bool → Store × Result (Unit {0}) → Result Run
  unfolding started
  with_store pipeline asr (store, ok u) = ok (started pipeline asr (some store))
  with_store pipeline asr (store, err x) = err x

  unfoldable pub start_made :
      Surroundings → Pipeline f → Bool → Config → Result (Queue Recording) → Result Run
  unfolding Recorder.start make_store with_store
  start_made e pipeline asr config (err x) = err x
  start_made e pipeline asr config (ok queue) =
      with_store pipeline asr
        (Recorder.start e.makes_root e.opens (make_store config e.transcript e.disk queue))

  unfoldable pub start_store : Options f → Surroundings → Pipeline f → Result Bool → Result Run
  unfolding start_made started make is_empty
  start_store o e pipeline (err x) = err x
  start_store o e pipeline (ok asr) =
      if not (o.persist_audio || o.persist_transcript)
      then ok (started pipeline asr none)
      else if is_empty o.persist_dir
      then err Error.invalid_argument
      else start_made e pipeline asr
          (record {
            root = o.persist_dir;
            save_audio = o.persist_audio;
            save_transcript = o.persist_transcript;
            queue_capacity = o.persist_queue_capacity;
          })
          (make o.persist_queue_capacity)

  -- Up to the start of the threads; an exception leaves `run_pipeline`.
  unfoldable pub start : Options f → Surroundings → Pipeline f → Result Run
  unfolding start_store open_recogniser is_empty
  start o e pipeline = start_store o e pipeline (
      if is_empty o.asr_model && is_empty o.asr_tokens
      then ok false
      else open_recogniser o.asr_model o.asr_tokens e.created)

  abbrev pub after_request : Run → Option (Pipeline f) → Run
  after_request s none = record s { main = joining_capture }
  after_request s (some p) = record s { pipeline = p }

  unfoldable pub join_store : Run → Option Store → Option Run
  unfolding end_stop
  join_store s none = some (record s { main = over })
  join_store s (some store) =
      if not store.worker
      then some (record s { main = over })
      else if is_worked_off store.phase
      then some (record s { main = over; recording_store = some (end_stop store) })
      else none

  -- The main thread's next step; `none` while it waits in a `join`, and at the end.
  unfoldable pub main_step : Run → Option Run
  unfolding request_stop begin_stop join_store
  main_step s = elim s.main [
    | reporting ↦ some (record s { main = requesting })
    | requesting ↦ some (after_request s (request_stop f s.pipeline))
    | joining_capture ↦
        if has_returned s.pipeline.capture
        then some (record s { main = joining_processing })
        else none
    | joining_processing ↦
        if has_finished s.pipeline.processing
        then some (record s { main = joining_monitor })
        else none
    | joining_monitor ↦
        if has_finished s.pipeline.monitor then some (record s { main = joining_asr }) else none
    | joining_asr ↦ if has_ended s.asr then some (record s { main = stopping_store }) else none
    | stopping_store ↦
        some (record s { main = joining_store; recording_store = begin_all s.recording_store })
    | joining_store ↦ join_store s s.recording_store
    | over ↦ none
  ]

  abbrev pub with_queue : Run → Queue SpeechSegment → AsrLoop → Run
  with_queue s q a = record s {
    pipeline = record (s.pipeline) { cutter = record (s.pipeline.cutter) { asr_queue = q } };
    asr = a;
  }

  abbrev pub asr_popped : Run → Option (Queue SpeechSegment × Option SpeechSegment) → Option Run
  asr_popped s none = none
  asr_popped s (some (q, none)) = some (with_queue s q unanswered)
  asr_popped s (some (q, some segment)) = some (with_queue s q (transcribing segment))

  -- The next step of `asr_worker`, with the record that a round makes.
  unfoldable pub asr_step : Bool → Recording → Run → Option Run
  unfolding pop_for record_all
  asr_step timed_out r s = elim s.asr [
    | popping ↦ asr_popped s (pop_for timed_out s.pipeline.cutter.asr_queue)
    | unanswered ↦
        some (record s { asr = if s.pipeline.cutter.asr_queue.closed then ended else popping })
    | transcribing segment ↦
        let (store, returns) = record_all r s.recording_store in
        some (record s { asr = if returns then popping else terminated; recording_store = store })
    | ended ↦ none
    | terminated ↦ none
  ]
