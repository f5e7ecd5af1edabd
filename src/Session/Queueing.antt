-- ===== src/Session/Queueing.antt =====
-- What becomes of the messages of a `ClientSession` (board/ws_server.cpp).
use mathlib.Core.List.{map-append}
use voice_edge_monitor.Base.{
  ℕ, ◌%◌, ◌^◌, ◌≤◌, ◌<◌, ◌≡◌, refl, List, [], ◌∷◌, ◌++◌, length, length-append, arith,
}
use voice_edge_monitor.Queue.{pop_front}
use voice_edge_monitor.Queue.History.{
  Fate, delivered, evicted, items, evictions, evictions-append, regroup_back, regroup_front,
  regroup_both,
}
use voice_edge_monitor.Session.{
  Message, Session, make, enqueue, writer_step, stop_step, notify_one, run_step, after_wait,
}
use voice_edge_monitor.Session.Steps.{
  Step, enqueues, notifies, stops, writes, runs, Reach, reach_inv,
}

pub record IsSound (n : ℕ) (s : Session) : Type 0 where
  pub fixed : s.queue_capacity ≡ n
  pub within : length s.queue ≤ n
  pub kept : s.accepted ≡ items s.removed ++ s.queue
  pub counted : s.dropped_messages ≡ evictions s.removed % 2 ^ 64

module _ (n : ℕ) (room : 0 < n) where
  enqueue-IsSound : (m : Message) (s : Session) → IsSound n s → IsSound n (enqueue m s)
  unfolding enqueue pop_front
  enqueue-IsSound m s h = go s.queue refl
    where
      go : (l : List Message) → s.queue ≡ l → IsSound n (enqueue m s)
      go [] e = ground (arith, regroup_back s.accepted (items s.removed) s.queue (m ∷ []) h.kept)
      go (y ∷ ys) e = ground (
        arith,
        length-append ys (m ∷ []),
        regroup_back s.accepted (items s.removed) s.queue (m ∷ []) h.kept,
        regroup_both s.accepted (items s.removed) ys y m,
        map-append (λ (f : Fate × Message). f.1) s.removed ((evicted, y) ∷ []),
        evictions-append s.removed ((evicted, y) ∷ []),
      )

  after_wait-IsSound : (s : Session) → IsSound n s → IsSound n (after_wait s)
  unfolding after_wait
  after_wait-IsSound s h = go s.queue refl
    where
      go : (l : List Message) → s.queue ≡ l → IsSound n (after_wait s)
      go [] e = ground arith
      go (y ∷ ys) e = ground (
        arith,
        regroup_front s.accepted (items s.removed) ys y,
        map-append (λ (f : Fate × Message). f.1) s.removed ((delivered, y) ∷ []),
        evictions-append s.removed ((delivered, y) ∷ []),
      )

  Step-IsSound : (s t : Session) → Step s t → IsSound n s → IsSound n t
  unfolding writer_step stop_step notify_one run_step
  Step-IsSound s t (enqueues m free) h = enqueue-IsSound m s h
  Step-IsSound s t (notifies u e) h = ground arith
  Step-IsSound s t (stops u e) h = ground arith
  Step-IsSound s t (writes fails u e) h = ground (arith, after_wait-IsSound s h)
  Step-IsSound s t (runs fails u e) h = ground arith

make-IsSound : (n : ℕ) → IsSound n (make n)
unfolding make
make-IsSound n = ground arith

-- Whatever the interleaving of the session's threads, of the calls of `enqueue` and `stop()`, and
-- whatever the network does, with a queue capacity of at least 1: the messages accepted are exactly
-- those that the writer has taken to write and those dropped, in the order of their removal, followed
-- by those still queued; `dropped_messages` counts the dropped ones, modulo 2^64; and the queue holds
-- no more than its capacity.
pub session_conserves :
    (n : ℕ) (s : Session)
    → 0 < n
    → Reach (make n) s
    → (s.accepted ≡ items s.removed ++ s.queue)
      × (s.dropped_messages ≡ evictions s.removed % 2 ^ 64)
      × (length s.queue ≤ n)
session_conserves n s room r =
    let h = reach_inv (IsSound n) (Step-IsSound n room) (make n) s r (make-IsSound n) in
    (h.kept, h.counted, h.within)
