-- ===== src/Session/Tests.antt =====
-- A session (`ClientSession` of board/ws_server.cpp) with two messages, step by step.
use voice_edge_monitor.Base.{
  ◌≡◌, ◌≤◌, ◌<◌, ◌%◌, ◌^◌, refl, true, false, [], ◌∷◌, ◌++◌, length, arith,
}
use voice_edge_monitor.Queue.{is_empty}
use voice_edge_monitor.Queue.History.{items, evictions, evicted}
use voice_edge_monitor.Session.{
  Message, Session, make, enqueue, writer_step, run_step, asleep, closed, running, locking, reading,
}
use voice_edge_monitor.Session.Steps.{Reach, here, next, enqueues, writes, runs}
use voice_edge_monitor.Session.Queueing.{session_conserves}
use voice_edge_monitor.Session.Wakeup.{asleep_is_notified, stop_can_hang, awaits}
use voice_edge_monitor.Session.Delivery.{front_is_delivered, Delivers}

abbrev hello : Message
hello = record { bytes = b'h' ∷ []; binary = false }

abbrev audio : Message
audio = record { bytes = 1 ∷ 2 ∷ []; binary = true }

-- Room for one message: of two, the first is dropped. The writer is in its loop.
abbrev crowded : Session
crowded = record {
  queue_capacity = 1;
  queue = audio ∷ [];
  dropped_messages = 1;
  stopper = running;
  notifying = 2;
  writer = locking;
  runner = reading;
  accepted = hello ∷ audio ∷ [];
  removed = (evicted, hello) ∷ [];
}

crowded_reached : Reach (make 1) crowded
unfolding make enqueue run_step
crowded_reached =
    next (next (next here (runs false _ refl)) (enqueues hello refl)) (enqueues audio refl)

session_conserves_example :
    (hello ∷ audio ∷ [] ≡ items crowded.removed ++ crowded.queue)
    × (1 ≡ evictions crowded.removed % 2 ^ 64)
    × (length crowded.queue ≤ 1)
session_conserves_example = session_conserves 1 crowded (omega arith) crowded_reached

front_is_delivered_example : Delivers 3 crowded audio []
front_is_delivered_example = front_is_delivered 1 crowded audio [] crowded_reached refl refl

-- The writer has gone to sleep before the message comes.
abbrev sleeping : Session
sleeping = record {
  queue_capacity = 4;
  queue = hello ∷ [];
  dropped_messages = 0;
  stopper = running;
  notifying = 1;
  writer = asleep;
  runner = reading;
  accepted = hello ∷ [];
  removed = [];
}

sleeping_reached : Reach (make 4) sleeping
unfolding make enqueue run_step writer_step
sleeping_reached =
    next
      (next
        (next (next (next here (runs false _ refl)) (writes false _ refl)) (writes false _ refl))
        (writes false _ refl))
      (enqueues hello refl)

asleep_is_notified_example : 0 < sleeping.notifying
unfolding is_empty
asleep_is_notified_example = asleep_is_notified 4 sleeping sleeping_reached refl refl

stop_can_hang_example :
    (s : Session) × Reach (make 8) s
    × (s.stopper ≡ closed)
    × ((t : Session) → Reach s t → (t.writer ≡ asleep) × (awaits t.runner ≡ true))
stop_can_hang_example = stop_can_hang 8
