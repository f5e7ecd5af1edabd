-- ===== src/Session/Wakeup.antt =====
-- The condition variable of a `ClientSession` (board/ws_server.cpp): `enqueue` notifies behind a change
-- under the mutex, `stop()` behind a change without it.
use voice_edge_monitor.Base.{ℕ, ◌<◌, ◌≡◌, refl, Bool, true, false, List, [], ◌∷◌, arith}
use voice_edge_monitor.Queue.{is_empty}
use voice_edge_monitor.Session.{
  Message, Writer, Runner, checked, asleep, handshaking, reading, leaving, joining, finished,
  closed, Session, make, enqueue, writer_step, stop_step, notify_one, run_step, take_message,
  has_mutex,
}
use voice_edge_monitor.Session.Steps.{
  Step, enqueues, notifies, stops, writes, runs, Reach, here, next, reach_inv,
}

abbrev pub sleeps : Writer → Bool
sleeps asleep = true
sleeps _ = false

abbrev pub has_checked : Writer → Bool
has_checked checked = true
has_checked _ = false

pub record IsHeard (s : Session) : Type 0 where
  pub coming : sleeps s.writer ≡ true → is_empty s.queue ≡ false → 0 < s.notifying
  pub seen : has_checked s.writer ≡ true → is_empty s.queue ≡ true

take_message-IsHeard : (s : Session) (l : List Message) → IsHeard (take_message s l)
unfolding take_message
take_message-IsHeard s [] = ground arith
take_message-IsHeard s (m ∷ l) = ground arith

enqueue-IsHeard :
    (m : Message) (s : Session) → has_mutex s.writer ≡ false → IsHeard s → IsHeard (enqueue m s)
unfolding enqueue
enqueue-IsHeard m s free h = ground arith

Step-IsHeard : (s t : Session) → Step s t → IsHeard s → IsHeard t
unfolding writer_step stop_step notify_one run_step
Step-IsHeard s t (enqueues m free) h = enqueue-IsHeard m s free h
Step-IsHeard s t (notifies u e) h = ground arith
Step-IsHeard s t (stops u e) h = ground arith
Step-IsHeard s t (writes fails u e) h = ground (arith, take_message-IsHeard s s.queue)
Step-IsHeard s t (runs fails u e) h = ground arith

make-IsHeard : (n : ℕ) → IsHeard (make n)
unfolding make
make-IsHeard n = ground arith

pub reach-IsHeard : (n : ℕ) (s : Session) → Reach (make n) s → IsHeard s
reach-IsHeard n s r = reach_inv IsHeard Step-IsHeard (make n) s r (make-IsHeard n)

-- No message is left behind by a sleeping writer: in every reachable state of a session in which the
-- writer sleeps and messages are queued, a call of `enqueue` is on its way to `notify_one`.
pub asleep_is_notified :
    (n : ℕ) (s : Session)
    → Reach (make n) s
    → sleeps s.writer ≡ true
    → is_empty s.queue ≡ false
    → 0 < s.notifying
asleep_is_notified n s r = (reach-IsHeard n s r).coming

-- Where `run` waits for the writer, or is on its way to do so.
abbrev pub awaits : Runner → Bool
awaits handshaking = false
awaits reading = true
awaits leaving = true
awaits joining = true
awaits finished = false

record IsHung (s : Session) : Type 0 where
  sleeping : s.writer ≡ asleep
  stopped : s.stopper ≡ closed
  silent : s.notifying ≡ 0
  waiting : awaits s.runner ≡ true

Step-IsHung : (s t : Session) → Step s t → IsHung s → IsHung t
unfolding enqueue writer_step stop_step notify_one run_step
Step-IsHung s t (enqueues m free) h = ground arith
Step-IsHung s t (notifies u e) h = ground arith
Step-IsHung s t (stops u e) h = ground arith
Step-IsHung s t (writes fails u e) h = ground arith
Step-IsHung s t (runs fails u e) h = ground arith

-- The writer has tested the predicate; `stop()` runs; then the writer falls asleep.
abbrev hung : ℕ → Session
hung n = record {
  queue_capacity = n;
  queue = [];
  dropped_messages = 0;
  stopper = closed;
  notifying = 0;
  writer = asleep;
  runner = reading;
  accepted = [];
  removed = [];
}

hung_reached : (n : ℕ) → Reach (make n) (hung n)
unfolding make writer_step stop_step notify_one run_step
hung_reached n =
    next
      (next
        (next
          (next
            (next (next (next here (runs false _ refl)) (writes false _ refl))
              (writes false _ refl))
            (stops _ refl))
          (stops _ refl))
        (stops _ refl))
      (writes false _ refl)

-- `stop()` can miss the writer: a session has a reachable state in which the effective `stop()` is
-- over and the writer sleeps, and from which no step of any thread ever wakes the writer up or lets
-- `run` end, since it joins the writer.
pub stop_can_hang :
    (n : ℕ)
    → (s : Session) × Reach (make n) s
      × (s.stopper ≡ closed)
      × ((t : Session) → Reach s t → (t.writer ≡ asleep) × (awaits t.runner ≡ true))
stop_can_hang n = (
  hung n,
  hung_reached n,
  refl,
  λ t r.
      let h =
        reach_inv IsHung Step-IsHung (hung n) t r
          (record { sleeping = refl; stopped = refl; silent = refl; waiting = refl }) in
      (h.sleeping, h.waiting),
)
