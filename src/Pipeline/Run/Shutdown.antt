-- ===== src/Pipeline/Run/Shutdown.antt =====
-- What `run_pipeline` has ended when it returns (board/pipeline_probe.cpp).
use voice_edge_monitor.Base.{◌≡◌, Bool, true, false, ◌||◌, not, some, ok, arith}
use voice_edge_monitor.Audio.{Floats}
use voice_edge_monitor.Levels.{Meter}
use voice_edge_monitor.Cli.Pipeline.{Options}
use voice_edge_monitor.Queue.{pop_for, make}
use voice_edge_monitor.Queue
use voice_edge_monitor.Asr.{open_recogniser}
use voice_edge_monitor.Recorder.{Recording, Store, begin_stop, end_stop, enabled}
use voice_edge_monitor.Recorder
use voice_edge_monitor.Recorder.Keeping.{Keeps, worker_step-Keeps}
use voice_edge_monitor.Server.Lifetime.{AsrLoop, ended, terminated, has_ended}
use voice_edge_monitor.Server.Lifetime.Start.{Surroundings, make_store}
use voice_edge_monitor.Server.Lifetime.Order.{takes, is_off, is_terminated, record_all-takes}
use voice_edge_monitor.Pipeline.{
  Input, Pipeline, Capture, returned, Worker, finished, capture_step, processing_step, monitor_step,
  request_stop, read_step,
}
use voice_edge_monitor.Pipeline.Run.{
  Main, reporting, requesting, joining_capture, joining_processing, joining_monitor, joining_asr,
  stopping_store, joining_store, over, has_returned, has_finished, Run, main_step, asr_step, start,
  start_store, start_made, started, join_store,
}
use voice_edge_monitor.Pipeline.Run.Steps.{
  RunStep, ends, captures, processes, monitors, recognises, persists, Runs, runs_inv,
}

-- Which joins the main thread has behind it.
abbrev past_store : Main → Bool
past_store reporting = false
past_store requesting = false
past_store joining_capture = false
past_store joining_processing = false
past_store joining_monitor = false
past_store joining_asr = false
past_store stopping_store = false
past_store joining_store = false
past_store over = true

abbrev past_asr : Main → Bool
past_asr reporting = false
past_asr requesting = false
past_asr joining_capture = false
past_asr joining_processing = false
past_asr joining_monitor = false
past_asr joining_asr = false
past_asr stopping_store = true
past_asr joining_store = true
past_asr over = true

abbrev past_monitor : Main → Bool
past_monitor reporting = false
past_monitor requesting = false
past_monitor joining_capture = false
past_monitor joining_processing = false
past_monitor joining_monitor = false
past_monitor joining_asr = true
past_monitor stopping_store = true
past_monitor joining_store = true
past_monitor over = true

abbrev past_processing : Main → Bool
past_processing reporting = false
past_processing requesting = false
past_processing joining_capture = false
past_processing joining_processing = false
past_processing joining_monitor = true
past_processing joining_asr = true
past_processing stopping_store = true
past_processing joining_store = true
past_processing over = true

abbrev past_capture : Main → Bool
past_capture reporting = false
past_capture requesting = false
past_capture joining_capture = false
past_capture joining_processing = true
past_capture joining_monitor = true
past_capture joining_asr = true
past_capture stopping_store = true
past_capture joining_store = true
past_capture over = true

module _ (f : Floats) (m : Meter f) where
  record Ordered (s : Run f) : Type 0 where
    capture_left : (not (past_capture s.main) || has_returned s.pipeline.capture) ≡ true
    processing_left : (not (past_processing s.main) || has_finished s.pipeline.processing) ≡ true
    monitor_left : (not (past_monitor s.main) || has_finished s.pipeline.monitor) ≡ true
    asr_ended : (not (past_asr s.main) || has_ended s.asr) ≡ true
    store_takes : (has_ended s.asr || takes s.recording_store) ≡ true
    store_off : (not (past_store s.main) || is_off s.recording_store) ≡ true
    asr_lives : is_terminated s.asr ≡ false

  request_stop-keeps :
      (p q : Pipeline f)
      → request_stop f p ≡ some q
      → (q.capture ≡ p.capture) × (q.processing ≡ p.processing) × (q.monitor ≡ p.monitor)
  unfolding request_stop
  request_stop-keeps p q e = ground arith

  capture_step-keeps :
      (i : Input) (p q : Pipeline f)
      → capture_step f i p ≡ some q
      → (has_returned p.capture ≡ false) × (q.processing ≡ p.processing) × (q.monitor ≡ p.monitor)
  unfolding capture_step read_step
  capture_step-keeps i p q e = ground arith

  processing_step-keeps :
      (timed_out : Bool) (p q : Pipeline f)
      → processing_step f m timed_out p ≡ some q
      → (q.capture ≡ p.capture) × (has_finished p.processing ≡ false) × (q.monitor ≡ p.monitor)
  unfolding processing_step
  processing_step-keeps timed_out p q e = ground arith

  monitor_step-keeps :
      (timed_out : Bool) (p q : Pipeline f)
      → monitor_step f timed_out p ≡ some q
      → (q.capture ≡ p.capture) × (q.processing ≡ p.processing) × (has_finished p.monitor ≡ false)
  unfolding monitor_step
  monitor_step-keeps timed_out p q e = ground arith

  main_step-Ordered : (s t : Run f) → main_step f s ≡ some t → Ordered s → Ordered t
  unfolding main_step join_store begin_stop end_stop
  main_step-Ordered s t e o = ground (arith, request_stop-keeps s.pipeline)

  asr_step-Ordered :
      (timed_out : Bool) (r : Recording) (s t : Run f)
      → asr_step f timed_out r s ≡ some t
      → Ordered s
      → Ordered t
  unfolding asr_step pop_for Queue.after_wait
  asr_step-Ordered timed_out r s t e o = ground (arith, record_all-takes r s.recording_store)

  captures-Ordered :
      (i : Input) (s : Run f) (p : Pipeline f)
      → capture_step f i s.pipeline ≡ some p
      → Ordered s
      → Ordered (record s { pipeline = p })
  captures-Ordered i s p e o = ground (arith, capture_step-keeps i s.pipeline p e)

  processes-Ordered :
      (timed_out : Bool) (s : Run f) (p : Pipeline f)
      → processing_step f m timed_out s.pipeline ≡ some p
      → Ordered s
      → Ordered (record s { pipeline = p })
  processes-Ordered timed_out s p e o =
      ground (arith, processing_step-keeps timed_out s.pipeline p e)

  monitors-Ordered :
      (timed_out : Bool) (s : Run f) (p : Pipeline f)
      → monitor_step f timed_out s.pipeline ≡ some p
      → Ordered s
      → Ordered (record s { pipeline = p })
  monitors-Ordered timed_out s p e o = ground (arith, monitor_step-keeps timed_out s.pipeline p e)

  persists-Ordered :
      (s : Run f) (store kept : Store)
      → s.recording_store ≡ some store
      → Keeps store kept
      → Ordered s
      → Ordered (record s { recording_store = some kept })
  persists-Ordered s store kept e (config, worker) o = ground arith

  RunStep-Ordered : (s t : Run f) → RunStep f m s t → Ordered s → Ordered t
  RunStep-Ordered s t (ends u e) o = main_step-Ordered s u e o
  RunStep-Ordered s t (captures i p e) o = captures-Ordered i s p e o
  RunStep-Ordered s t (processes timed_out p e) o = processes-Ordered timed_out s p e o
  RunStep-Ordered s t (monitors timed_out p e) o = monitors-Ordered timed_out s p e o
  RunStep-Ordered s t (recognises timed_out r u e) o = asr_step-Ordered timed_out r s u e o
  RunStep-Ordered s t (persists env timed_out store kept e e') o =
      persists-Ordered s store kept e (worker_step-Keeps env timed_out store kept e') o

  start-Ordered :
      (options : Options f) (e : Surroundings) (p : Pipeline f) (s : Run f)
      → start f options e p ≡ ok s
      → Ordered s
  unfolding start open_recogniser start_store start_made started make make_store Recorder.start
      enabled
  start-Ordered options e p s q = ground arith

  has_returned-returned : (c : Capture) → has_returned c ≡ true → c ≡ returned
  has_returned-returned c h = ground arith

  has_finished-finished : (w : Worker) → has_finished w ≡ true → w ≡ finished
  has_finished-finished w h = ground arith

  has_ended-ended : (l : AsrLoop) → has_ended l ≡ true → l ≡ ended
  has_ended-ended l h = ground arith

  -- If `run_pipeline` comes to the start of its threads, then however these interleave, the recogniser's
  -- thread never hands a record to a recorder that is not started, which would end the program with an
  -- exception that nothing catches.
  asr_worker_lives :
      (options : Options f) (e : Surroundings) (p : Pipeline f) (s t : Run f)
      → start f options e p ≡ ok s
      → Runs f m s t
      → ¬ (t.asr ≡ terminated)
  asr_worker_lives options e p s t q r h =
      let o = runs_inv f m Ordered RunStep-Ordered s t r (start-Ordered options e p s q) in
      ground (arith, o.asr_lives)

  -- If `run_pipeline` comes to the start of its threads, then however these interleave: when the main
  -- thread has joined them, they have left their loops or were not started, and the recorder's thread is
  -- not running.
  pub run_joins :
      (options : Options f) (e : Surroundings) (p : Pipeline f) (s t : Run f)
      → start f options e p ≡ ok s
      → Runs f m s t
      → t.main ≡ over
      → (t.pipeline.capture ≡ returned)
        × (t.pipeline.processing ≡ finished)
        × (t.pipeline.monitor ≡ finished)
        × (t.asr ≡ ended)
        × (is_off t.recording_store ≡ true)
  run_joins options e p s t q r h =
      let o = runs_inv f m Ordered RunStep-Ordered s t r (start-Ordered options e p s q) in
      (
        has_returned-returned t.pipeline.capture (ground (arith, o.capture_left)),
        has_finished-finished t.pipeline.processing (ground (arith, o.processing_left)),
        has_finished-finished t.pipeline.monitor (ground (arith, o.monitor_left)),
        has_ended-ended t.asr (ground (arith, o.asr_ended)),
        ground (arith, o.store_off),
      )
