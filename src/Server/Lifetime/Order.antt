-- ===== src/Server/Lifetime/Order.antt =====
-- The order of `stop()` (board/ws_server.cpp): what has ended where it stands.
use voice_edge_monitor.Base.{◌≡◌, refl, Bool, true, false, ◌||◌, not, Option, none, some, arith}
use voice_edge_monitor.Audio.{SpeechSegment}
use voice_edge_monitor.Queue.{Queue, try_push, pop_for, close}
use voice_edge_monitor.Queue
use voice_edge_monitor.Recorder.{
  Environment, Recording, Store, worker_step, enabled, begin_stop, end_stop, persist,
  persist_segment, append_transcript, after_wav, count_failure, handle_popped, popped, count_drop,
}
use voice_edge_monitor.Recorder
use voice_edge_monitor.Server.Lifetime.{
  Stop, serving, requested, stopping_client, joining_accept, joining_capture, joining_asr,
  stopping_store, joining_store, joining_client, stopped, AsrLoop, popping, unanswered,
  transcribing, ended, terminated, Runtime, has_left, has_ended, join_store, join_client, stop_step,
  accept_step, capture_step, asr_step, record_all, kept,
}
use voice_edge_monitor.Server.Lifetime.Steps.{
  RuntimeStep, accepts, captures, recognises, persists, client_steps, signals, Lives, lives_inv,
}
use voice_edge_monitor.Server.Lifetime.Steps
use voice_edge_monitor.Recorder.Keeping.{Keeps, worker_step-Keeps}

-- Which joins `stop()` has behind it.
abbrev pub past_store : Stop → Bool
past_store serving = false
past_store requested = false
past_store (stopping_client i) = false
past_store joining_accept = false
past_store joining_capture = false
past_store joining_asr = false
past_store stopping_store = false
past_store joining_store = false
past_store (joining_client i) = true
past_store stopped = true

abbrev pub past_asr : Stop → Bool
past_asr serving = false
past_asr requested = false
past_asr (stopping_client i) = false
past_asr joining_accept = false
past_asr joining_capture = false
past_asr joining_asr = false
past_asr stopping_store = true
past_asr joining_store = true
past_asr (joining_client i) = true
past_asr stopped = true

abbrev pub past_capture : Stop → Bool
past_capture serving = false
past_capture requested = false
past_capture (stopping_client i) = false
past_capture joining_accept = false
past_capture joining_capture = false
past_capture joining_asr = true
past_capture stopping_store = true
past_capture joining_store = true
past_capture (joining_client i) = true
past_capture stopped = true

abbrev pub past_accept : Stop → Bool
past_accept serving = false
past_accept requested = false
past_accept (stopping_client i) = false
past_accept joining_accept = false
past_accept joining_capture = true
past_accept joining_asr = true
past_accept stopping_store = true
past_accept joining_store = true
past_accept (joining_client i) = true
past_accept stopped = true

-- `enqueue` throws nothing; the recorder's thread is not joinable.
abbrev pub takes : Option Store → Bool
takes none = true
takes (some store) = not (enabled store.config) || store.worker

abbrev pub is_off : Option Store → Bool
is_off none = true
is_off (some store) = not store.worker

abbrev pub is_terminated : AsrLoop → Bool
is_terminated popping = false
is_terminated unanswered = false
is_terminated (transcribing segment) = false
is_terminated ended = false
is_terminated terminated = true

-- What `stop()` has waited for has ended, and the recorder takes records until `asr_loop` has ended.
pub record Ordered (s : Runtime) : Type 0 where
  pub accept_left : (not (past_accept s.stop) || has_left s.accept) ≡ true
  pub capture_left : (not (past_capture s.stop) || has_left s.capture) ≡ true
  pub asr_ended : (not (past_asr s.stop) || has_ended s.asr) ≡ true
  pub store_takes : (has_ended s.asr || takes s.recording_store) ≡ true
  pub store_off : (not (past_store s.stop) || is_off s.recording_store) ≡ true
  pub asr_lives : is_terminated s.asr ≡ false

accept_step-Ordered :
    (connects : Bool) (s t : Runtime) → accept_step connects s ≡ some t → Ordered s → Ordered t
unfolding accept_step
accept_step-Ordered connects s t e o = ground arith

capture_step-Ordered :
    (cut : Option SpeechSegment) (s t : Runtime)
    → capture_step cut s ≡ some t
    → Ordered s
    → Ordered t
unfolding capture_step
capture_step-Ordered cut s t e o = ground arith

-- `enqueue` on a store that takes records, or on none, returns, and leaves it so.
pub record_all-takes :
    (r : Recording) (store : Option Store)
    → takes store ≡ true
    → ((record_all r store).1 ≡ true)
      × (takes (record_all r store).0 ≡ true)
      × (is_off (record_all r store).0 ≡ is_off store)
unfolding record_all Recorder.enqueue enabled count_drop
record_all-takes r none h = (refl, refl, refl)
record_all-takes r (some store) h = ground arith

asr_step-Ordered :
    (timed_out : Bool) (r : Recording) (s t : Runtime)
    → asr_step timed_out r s ≡ some t
    → Ordered s
    → Ordered t
unfolding asr_step pop_for Queue.after_wait
asr_step-Ordered timed_out r s t e o = ground (arith, record_all-takes r s.recording_store)

stop_step-Ordered : (s t : Runtime) → stop_step s ≡ some t → Ordered s → Ordered t
unfolding stop_step begin_stop end_stop join_store join_client
stop_step-Ordered s t e o = ground arith

persists-Ordered :
    (s : Runtime) (store kept : Store)
    → s.recording_store ≡ some store
    → Keeps store kept
    → Ordered s
    → Ordered (record s { recording_store = some kept })
persists-Ordered s store kept e (config, worker) o = ground arith

pub RuntimeStep-Ordered : (s t : Runtime) → RuntimeStep s t → Ordered s → Ordered t
RuntimeStep-Ordered s t (Steps.stops u e) o = stop_step-Ordered s u e o
RuntimeStep-Ordered s t (accepts connects u e) o = accept_step-Ordered connects s u e o
RuntimeStep-Ordered s t (captures cut u e) o = capture_step-Ordered cut s u e o
RuntimeStep-Ordered s t (recognises timed_out r u e) o = asr_step-Ordered timed_out r s u e o
RuntimeStep-Ordered s t (persists env timed_out store kept e e') o =
    persists-Ordered s store kept e (worker_step-Keeps env timed_out store kept e') o
RuntimeStep-Ordered s t (client_steps cs st) o = ground arith
RuntimeStep-Ordered s t signals o = ground arith
