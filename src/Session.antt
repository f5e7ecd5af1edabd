-- ===== src/Session.antt =====
-- board/ws_server.cpp: `ClientSession`, one connected web client. Its threads share `queue_` under
-- `queue_mutex_`, the condition variable `queue_cv_`, and the atomic `stopped_`, which `stop()` sets
-- without the mutex. The network is left open: any read, write or handshake may fail.
pub mod Steps
pub mod Queueing
pub mod Wakeup
pub mod Delivery
mod Tests
use voice_edge_monitor.Base.{
  ℕ, zero, suc, ◌+◌, ◌%◌, ◌^◌, Bool, true, false, ◌||◌, not, Option, none, some, List, [], ◌∷◌,
  ◌++◌, leb, if◌then◌else◌, length,
}
use voice_edge_monitor.Queue.{pop_front, is_empty}
use voice_edge_monitor.Queue.History.{Fate, delivered, evicted, front_as}

pub record Message : Type 0 where
  pub bytes : List ℕ
  pub binary : Bool

-- Where `writer_loop` stands. `queue_cv_.wait(lock, pred)` is the loop that tests the predicate
-- under the mutex and, if it fails, releases the mutex and sleeps.
pub data Writer : Type 0 where
  unstarted : Writer
  locking : Writer  -- before the mutex is taken, also on waking up
  testing : Writer  -- with the mutex, before the predicate
  checked : Writer  -- with the mutex, the predicate has failed
  asleep : Writer
  sending : Message → Writer  -- in `websocket_.write`
  failing : Writer  -- a write has failed, in `stop()`
  returned : Writer

-- Where `run` stands: in the handshake, in the loop of reads, in its last `stop()`, in
-- `writer_thread_.join()`, or behind that.
pub data Runner : Type 0 where
  handshaking reading leaving joining finished : Runner

-- How far the one call of `stop()` that finds `stopped_` unset has come: behind the exchange, behind
-- `notify_all`, behind the closing of the socket.
pub data Stopper : Type 0 where
  running exchanged notified closed : Stopper

-- `notifying` counts the calls of `enqueue` that have left the mutex and not yet called `notify_one`.
-- `accepted` and `removed` are a log that the program does not keep.
pub record Session : Type 0 where
  pub queue_capacity : ℕ
  pub queue : List Message
  pub dropped_messages : ℕ
  pub stopper : Stopper
  pub notifying : ℕ
  pub writer : Writer
  pub runner : Runner
  pub accepted : List Message
  pub removed : List (Fate × Message)

-- A session that has just been started.
unfoldable pub make : ℕ → Session
make capacity = record {
  queue_capacity = capacity;
  queue = [];
  dropped_messages = 0;
  stopper = running;
  notifying = 0;
  writer = unstarted;
  runner = handshaking;
  accepted = [];
  removed = [];
}

-- `stopped_`.
abbrev pub is_stopped : Stopper → Bool
is_stopped running = false
is_stopped exchanged = true
is_stopped notified = true
is_stopped closed = true

unfoldable pub active : Session → Bool
active s = not (is_stopped s.stopper)

-- Whether the writer has the mutex between two of its steps.
abbrev pub has_mutex : Writer → Bool
has_mutex unstarted = false
has_mutex locking = false
has_mutex testing = true
has_mutex checked = true
has_mutex asleep = false
has_mutex (sending m) = false
has_mutex failing = false
has_mutex returned = false

-- The critical section of `enqueue`.
unfoldable pub enqueue : Message → Session → Session
unfolding pop_front
enqueue m s =
    if is_stopped s.stopper
    then s
    else if leb s.queue_capacity (length s.queue)
    then record s {
      queue = pop_front s.queue ++ m ∷ [];
      dropped_messages = (s.dropped_messages + 1) % 2 ^ 64;
      notifying = suc s.notifying;
      accepted = s.accepted ++ m ∷ [];
      removed = s.removed ++ front_as evicted s.queue;
    }
    else record s {
      queue = s.queue ++ m ∷ [];
      notifying = suc s.notifying;
      accepted = s.accepted ++ m ∷ [];
    }

-- What a notification does to the writer.
unfoldable pub wake : Writer → Writer
wake unstarted = unstarted
wake locking = locking
wake testing = testing
wake checked = checked
wake asleep = locking
wake (sending m) = sending m
wake failing = failing
wake returned = returned

-- The predicate of the wait: `stopped_ || !queue_.empty()`.
unfoldable pub ready : Session → Bool
unfolding is_empty
ready s = is_stopped s.stopper || not (is_empty s.queue)

unfoldable pub take_message : Session → List Message → Session
take_message s [] = record s { writer = returned }
take_message s (m ∷ rest) = record s {
  queue = rest;
  writer = sending m;
  removed = s.removed ++ (delivered, m) ∷ [];
}

-- Behind the wait: return if the queue is empty, or take its front.
unfoldable pub after_wait : Session → Session
unfolding take_message
after_wait s = take_message s s.queue

-- The writer's next step on its own; `fails` is the fate of a `websocket_.write`. `none`: it waits for
-- another thread, or has ended. (That the mutex is free is for `Steps.antt` to say.)
unfoldable pub writer_step : Bool → Session → Option Session
unfolding ready after_wait
writer_step fails s = elim s.writer [
  | unstarted ↦ none
  | locking ↦ some (record s { writer = testing })
  | testing ↦ some (if ready s then after_wait s else record s { writer = checked })
  | checked ↦ some (record s { writer = asleep })
  | asleep ↦ none
  | sending m ↦ some (record s { writer = if fails then failing else locking })
  | failing ↦ if is_stopped s.stopper then some (record s { writer = returned }) else none
  | returned ↦ none
]

-- `was_stopped = stopped_.exchange(true)`, and the two steps that follow if it was false.
unfoldable pub stop_step : Session → Option Session
unfolding wake
stop_step s = elim s.stopper [
  | running ↦ some (record s { stopper = exchanged })
  | exchanged ↦ some (record s { stopper = notified; writer = wake s.writer })
  | notified ↦ some (record s { stopper = closed })
  | closed ↦ none
]

unfoldable pub notify_one : Session → Option Session
unfolding wake
notify_one s = elim s.notifying [
  | zero ↦ none
  | suc n ↦ some (record s { notifying = n; writer = wake s.writer })
]

unfoldable pub has_returned : Writer → Bool
has_returned unstarted = true
has_returned locking = false
has_returned testing = false
has_returned checked = false
has_returned asleep = false
has_returned (sending m) = false
has_returned failing = false
has_returned returned = true

-- The next step of `run`; `fails` is the fate of the handshake or of the read. A thread that was not
-- started is not joined.
unfoldable pub run_step : Bool → Session → Option Session
unfolding has_returned
run_step fails s = elim s.runner [
  | handshaking ↦ some (
      if fails
      then record s { runner = leaving }
      else record s { runner = reading; writer = locking })
  | reading ↦ some (if fails || is_stopped s.stopper then record s { runner = leaving } else s)
  | leaving ↦ if is_stopped s.stopper then some (record s { runner = joining }) else none
  | joining ↦ if has_returned s.writer then some (record s { runner = finished }) else none
  | finished ↦ none
]
