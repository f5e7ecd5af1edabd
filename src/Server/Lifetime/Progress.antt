-- ===== src/Server/Lifetime/Progress.antt =====
-- While `stop()` waits for a thread of the server, that comes nearer to its end (board/ws_server.cpp).
use voice_edge_monitor.Base.{
  ℕ, ◌+◌, ◌*◌, ◌≡◌, Bool, true, false, ◌||◌, not, Option, none, some, ltb, length, arith,
}
use voice_edge_monitor.Audio.{SpeechSegment, Floats}
use voice_edge_monitor.Cli.Server.{Options}
use voice_edge_monitor.Queue.{Queue, try_push, pop_for, close, make, take_front}
use voice_edge_monitor.Queue
use voice_edge_monitor.Asr.{open_recogniser}
use voice_edge_monitor.Recorder.{Recording, Store, enabled}
use voice_edge_monitor.Recorder
use voice_edge_monitor.Server.Lifetime.{
  Stop, serving, requested, stopping_client, joining_accept, joining_capture, joining_asr,
  stopping_store, joining_store, joining_client, stopped, Loop, testing, in_round, left, AsrLoop,
  popping, unanswered, transcribing, ended, terminated, Runtime, has_left, has_ended, join_store,
  join_client, stop_step, accept_step, capture_step, asr_step,
}
use voice_edge_monitor.Server.Lifetime.Start.{
  Surroundings, construct, make_store, start, after_asr, start_store, start_made, after_store,
  start_threads,
}
use voice_edge_monitor.Server.Lifetime.Steps.{
  RuntimeStep, accepts, captures, recognises, persists, client_steps, signals, Lives, lives_inv,
}
use voice_edge_monitor.Server.Lifetime.Steps
use voice_edge_monitor.Server.Lifetime.Order.{takes, is_terminated, past_capture, record_all-takes}
use voice_edge_monitor.Server.Lifetime.Shutdown.{started, Lives-Ordered}

abbrev pub is_serving : Stop → Bool
is_serving serving = true
is_serving requested = false
is_serving (stopping_client i) = false
is_serving joining_accept = false
is_serving joining_capture = false
is_serving joining_asr = false
is_serving stopping_store = false
is_serving joining_store = false
is_serving (joining_client i) = false
is_serving stopped = false

-- The stop flag is set, and behind the join of the capture thread the queue is closed.
record Closing (s : Runtime) : Type 0 where
  flagged : (is_serving s.stop || s.stopping) ≡ true
  queue_closed : (not (past_capture s.stop) || s.asr_queue.closed) ≡ true

stop_step-Closing : (s t : Runtime) → stop_step s ≡ some t → Closing s → Closing t
unfolding stop_step join_store join_client close
stop_step-Closing s t e o = ground arith

accept_step-Closing :
    (connects : Bool) (s t : Runtime) → accept_step connects s ≡ some t → Closing s → Closing t
unfolding accept_step
accept_step-Closing connects s t e o = ground arith

capture_step-Closing :
    (cut : Option SpeechSegment) (s t : Runtime)
    → capture_step cut s ≡ some t
    → Closing s
    → Closing t
unfolding capture_step try_push close
capture_step-Closing cut s t e o = ground arith

asr_step-Closing :
    (timed_out : Bool) (r : Recording) (s t : Runtime)
    → asr_step timed_out r s ≡ some t
    → Closing s
    → Closing t
unfolding asr_step pop_for Queue.after_wait take_front
asr_step-Closing timed_out r s t e o = ground arith

RuntimeStep-Closing : (s t : Runtime) → RuntimeStep s t → Closing s → Closing t
RuntimeStep-Closing s t (Steps.stops u e) o = stop_step-Closing s u e o
RuntimeStep-Closing s t (accepts connects u e) o = accept_step-Closing connects s u e o
RuntimeStep-Closing s t (captures cut u e) o = capture_step-Closing cut s u e o
RuntimeStep-Closing s t (recognises timed_out r u e) o = asr_step-Closing timed_out r s u e o
RuntimeStep-Closing s t (persists env timed_out store kept e e') o = ground arith
RuntimeStep-Closing s t (client_steps cs st) o = ground arith
RuntimeStep-Closing s t signals o = ground arith

-- How many steps a thread takes at most before it has left its loop, once it is to stop.
abbrev pub loop_distance : Loop → ℕ
loop_distance testing = 1
loop_distance in_round = 2
loop_distance left = 0

abbrev pub asr_distance : AsrLoop → ℕ → ℕ
asr_distance popping n = 2 * n + 2
asr_distance unanswered n = 1
asr_distance (transcribing segment) n = 2 * n + 3
asr_distance ended n = 0
asr_distance terminated n = 0

-- There is a next step, and it brings the thread nearer to its end than `n`.
abbrev pub accept_nears : ℕ → Option Runtime → Bool
accept_nears n none = false
accept_nears n (some t) = ltb (loop_distance t.accept) n

abbrev pub capture_nears : ℕ → Option Runtime → Bool
capture_nears n none = false
capture_nears n (some t) = ltb (loop_distance t.capture) n

abbrev pub asr_nears : ℕ → Option Runtime → Bool
asr_nears n none = false
asr_nears n (some t) = ltb (asr_distance t.asr (length t.asr_queue.queue)) n

accept_step-nears :
    (connects : Bool) (s : Runtime)
    → s.stopping ≡ true
    → (has_left s.accept || accept_nears (loop_distance s.accept) (accept_step connects s)) ≡ true
unfolding accept_step
accept_step-nears connects s h = ground arith

capture_step-nears :
    (cut : Option SpeechSegment) (s : Runtime)
    → s.stopping ≡ true
    → (has_left s.capture || capture_nears (loop_distance s.capture) (capture_step cut s)) ≡ true
unfolding capture_step
capture_step-nears cut s h = ground arith

asr_step-nears :
    (timed_out : Bool) (r : Recording) (s : Runtime)
    → s.asr_queue.closed ≡ true
    → is_terminated s.asr ≡ false
    → (has_ended s.asr || takes s.recording_store) ≡ true
    → (has_ended s.asr
        || asr_nears (asr_distance s.asr (length s.asr_queue.queue)) (asr_step timed_out r s))
      ≡ true
unfolding asr_step pop_for Queue.after_wait take_front Queue.ready
asr_step-nears timed_out r s h l k = ground (arith, record_all-takes r s.recording_store)

module _ {F : Floats} (options : Options F) (e : Surroundings)
    (asr_queue : Queue SpeechSegment) where
  started-Closing : Closing (started options e asr_queue)
  unfolding start after_asr open_recogniser start_store start_made after_store start_threads
      construct make make_store Recorder.start enabled
  started-Closing = ground arith

  -- Whatever `start()` has met and however the threads have interleaved: from the call of `stop()` on,
  -- `accept_loop` has been left, or it has a next step, and whether a client connects or not this brings it
  -- nearer to its end, of which it is two steps away at most; so with `capture_loop`, whatever a round
  -- captures; and when the capture thread has been joined, `asr_loop` has ended, or it has a next step,
  -- and this brings it nearer to its end, of which it is two steps for each queued segment and three more
  -- away at most.
  pub joins_end :
      (s : Runtime)
      → Lives (started options e asr_queue) s
      → (connects : Bool) (cut : Option SpeechSegment) (timed_out : Bool) (r : Recording)
      → ((is_serving s.stop
            || (has_left s.accept
                || accept_nears (loop_distance s.accept) (accept_step connects s)))
          ≡ true)
        × ((is_serving s.stop
              || (has_left s.capture
                  || capture_nears (loop_distance s.capture) (capture_step cut s)))
            ≡ true)
        × ((not (past_capture s.stop)
              || (has_ended s.asr
                  || asr_nears
                      (asr_distance s.asr (length s.asr_queue.queue))
                      (asr_step timed_out r s)))
            ≡ true)
  joins_end s lives connects cut timed_out r =
      let o = Lives-Ordered options e asr_queue s lives in
      let c =
        lives_inv Closing RuntimeStep-Closing (started options e asr_queue) s lives
          started-Closing in
      (
        ground (arith, c.flagged, accept_step-nears connects s),
        ground (arith, c.flagged, capture_step-nears cut s),
        ground (arith, c.queue_closed, o.asr_lives, o.store_takes, asr_step-nears timed_out r s),
      )
