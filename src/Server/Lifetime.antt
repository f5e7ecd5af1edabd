-- ===== src/Server/Lifetime.antt =====
-- board/ws_server.cpp: how the threads of `ServerRuntime` end: `stop()`, which the main thread calls, also
-- from the destructor, against the loops of `accept_loop`, `capture_loop` and `asr_loop`. What a round of
-- these does to the state that they share is here, the rest of it in Server.antt, Server/Clients.antt and
-- Server/Recognition.antt.
pub mod Start
pub mod Steps
pub mod Joined
pub mod Order
pub mod Shutdown
pub mod Progress
mod Tests
use voice_edge_monitor.Base.{
  ℕ, zero, suc, Bool, true, false, ◌||◌, not, Option, none, some, List, [], ◌∷◌, ltb, if◌then◌else◌,
  length, Result, ok, err, Error,
}
use voice_edge_monitor.Base.Maybe.{get_elem?}
use voice_edge_monitor.Audio.{SpeechSegment}
use voice_edge_monitor.Queue.{Queue, try_push, pop_for, close}
use voice_edge_monitor.Session.{
  Session, Stopper, running, exchanged, notified, closed, Runner, handshaking, reading, leaving,
  joining, finished,
}
use voice_edge_monitor.Recorder.{
  Recording, Store, enqueue, begin_stop, end_stop, Phase, polling, missed,
}
use voice_edge_monitor.Recorder
use voice_edge_monitor.Server.Clients.{Clients, accept_client}

-- Where `stop()` stands: not called; behind `stopping_.exchange`; before `client->stop()` for a session of
-- the copy of `clients_`; before the ends of the threads and of the recorder; before `client->join()` for a
-- session of the copy; and behind it all.
pub data Stop : Type 0 where
  serving requested : Stop
  stopping_client : ℕ → Stop
  joining_accept joining_capture joining_asr stopping_store joining_store : Stop
  joining_client : ℕ → Stop
  stopped : Stop

-- Where a loop that tests the stop flags stands: before the test, in a round, or behind the loop, where
-- also a thread is that has not been started.
pub data Loop : Type 0 where
  testing in_round left : Loop

-- Where `asr_loop` stands: before `pop_for`, between a `pop_for` that has returned false and the call of
-- `closed()`, in `transcribe` and before the `enqueue` of its record, or behind the loop, where also a
-- thread is that has not been started; or an exception has left it, which ends the program.
pub data AsrLoop : Type 0 where
  popping unanswered : AsrLoop
  transcribing : SpeechSegment → AsrLoop
  ended terminated : AsrLoop

-- `copied` is how many sessions the copy of `clients_` in `stop()` has; `clients_` only grows at its end.
-- `signal` is `g_signal_stop`.
pub record Runtime : Type 0 where
  pub stop : Stop
  pub stopping : Bool
  pub signal : Bool
  pub accept : Loop
  pub capture : Loop
  pub asr : AsrLoop
  pub asr_queue : Queue SpeechSegment
  pub clients : Clients
  pub copied : ℕ
  pub recording_store : Option Store

abbrev pub has_left : Loop → Bool
has_left testing = false
has_left in_round = false
has_left left = true

abbrev pub has_ended : AsrLoop → Bool
has_ended popping = false
has_ended unanswered = false
has_ended (transcribing segment) = false
has_ended ended = true
has_ended terminated = false

-- `client->stop()` up to its exchange; what follows that is a step of the session.
abbrev pub exchange : Stopper → Stopper
exchange running = exchanged
exchange exchanged = exchanged
exchange notified = notified
exchange closed = closed

unfoldable pub stop_client : ℕ → List Session → List Session
stop_client i [] = []
stop_client zero (c ∷ cs) = record c { stopper = exchange c.stopper } ∷ cs
stop_client (suc i) (c ∷ cs) = c ∷ stop_client i cs

-- `client->join()` returns.
abbrev pub is_joined : Runner → Bool
is_joined handshaking = false
is_joined reading = false
is_joined leaving = false
is_joined joining = false
is_joined finished = true

-- `worker_.join()` returns.
abbrev pub is_worked_off : Phase → Bool
is_worked_off polling = false
is_worked_off missed = false
is_worked_off Recorder.finished = true

abbrev pub begin_all : Option Store → Option Store
begin_all none = none
begin_all (some store) = some (begin_stop store)

unfoldable pub join_store : Runtime → Option Store → Option Runtime
unfolding end_stop
join_store s none = some (record s { stop = joining_client 0 })
join_store s (some store) =
    if not store.worker
    then some (record s { stop = joining_client 0 })
    else if is_worked_off store.phase
    then some (record s { stop = joining_client 0; recording_store = some (end_stop store) })
    else none

unfoldable pub join_client : ℕ → Runtime → Option Session → Option Runtime
join_client i s none = none
join_client i s (some c) =
    if is_joined c.runner then some (record s { stop = joining_client (suc i) }) else none

-- The main thread's next step in `stop()`; `none` while it waits in a `join`, and behind it all.
unfoldable pub stop_step : Runtime → Option Runtime
unfolding stop_client begin_stop join_store join_client close
stop_step s = elim s.stop [
  | serving ↦ some (record s { stop = requested; stopping = true })
  | requested ↦ some (record s { stop = stopping_client 0; copied = length s.clients.clients })
  | stopping_client i ↦ some (
      if ltb i s.copied
      then record s {
        stop = stopping_client (suc i);
        clients = record (s.clients) { clients = stop_client i s.clients.clients };
      }
      else record s { stop = joining_accept })
  | joining_accept ↦ if has_left s.accept then some (record s { stop = joining_capture }) else none
  | joining_capture ↦
      if has_left s.capture
      then some (record s { stop = joining_asr; asr_queue = close s.asr_queue })
      else none
  | joining_asr ↦ if has_ended s.asr then some (record s { stop = stopping_store }) else none
  | stopping_store ↦
      some (record s { stop = joining_store; recording_store = begin_all s.recording_store })
  | joining_store ↦ join_store s s.recording_store
  | joining_client i ↦
      if ltb i s.copied
      then join_client i s (get_elem? s.clients.clients i)
      else some (record s { stop = stopped })
  | stopped ↦ none
]

-- The next step of `accept_loop`; `connects` says whether `accept` returns a connection.
unfoldable pub accept_step : Bool → Runtime → Option Runtime
unfolding accept_client
accept_step connects s = elim s.accept [
  | testing ↦ some (record s { accept = if s.stopping then left else in_round })
  | in_round ↦ some (record s {
    accept = testing;
    clients = if connects then accept_client s.clients else s.clients;
  })
  | left ↦ none
]

abbrev pub push_all : Option SpeechSegment → Queue SpeechSegment → Queue SpeechSegment
push_all none q = q
push_all (some segment) q = (try_push segment q).0

-- The next step of `capture_loop`; `cut` is the segment that a round queues, if it does.
unfoldable pub capture_step : Option SpeechSegment → Runtime → Option Runtime
unfolding close try_push
capture_step cut s = elim s.capture [
  | testing ↦ some (
      if s.stopping || s.signal
      then record s { capture = left; asr_queue = close s.asr_queue }
      else record s { capture = in_round })
  | in_round ↦ some (record s { capture = testing; asr_queue = push_all cut s.asr_queue })
  | left ↦ none
]

abbrev pub asr_popped :
    Runtime → Option (Queue SpeechSegment × Option SpeechSegment) → Option Runtime
asr_popped s none = none
asr_popped s (some (q, none)) = some (record s { asr_queue = q; asr = unanswered })
asr_popped s (some (q, some segment)) =
    some (record s { asr_queue = q; asr = transcribing segment })

-- The `enqueue` of a record, if there is a store. The flag says that no exception has left it.
abbrev pub kept : Store × Result Bool → Option Store × Bool
kept (store, ok pushed) = (some store, true)
kept (store, err e) = (some store, false)

unfoldable pub record_all : Recording → Option Store → Option Store × Bool
unfolding enqueue
record_all r none = (none, true)
record_all r (some store) = kept (enqueue r store)

-- The next step of `asr_loop`, with the record that a round makes. Where `enqueue` throws, the handler
-- calls it again.
unfoldable pub asr_step : Bool → Recording → Runtime → Option Runtime
unfolding pop_for record_all
asr_step timed_out r s = elim s.asr [
  | popping ↦ asr_popped s (pop_for timed_out s.asr_queue)
  | unanswered ↦ some (record s { asr = if s.asr_queue.closed then ended else popping })
  | transcribing segment ↦
      let (store, returns) = record_all r s.recording_store in
      some (record s { asr = if returns then popping else terminated; recording_store = store })
  | ended ↦ none
  | terminated ↦ none
]
