-- ===== src/Pipeline/Accounting/Queues.antt =====
-- What the pipeline's calls do to a queue's length (board/bounded_queue.hpp).
use voice_edge_monitor.Base.{
  ℕ, ◌+◌, ◌<◌, ◌≡◌, refl, Bool, true, false, none, some, List, [], ◌∷◌, length, length-append, ◌⊎◌,
  arith,
}
use voice_edge_monitor.Audio.{AudioFrame}
use voice_edge_monitor.Queue.{
  Queue, try_push, push_drop_oldest, pop_for, pop_front, ready, after_wait, take_front, size,
}

abbrev pub count : Bool → ℕ
count true = 1
count false = 0

pub try_push-length :
    (x : AudioFrame) (q : Queue AudioFrame)
    → length (try_push x q).0.queue ≡ length q.queue + count (try_push x q).1
unfolding try_push size
try_push-length x q = ground (arith, length-append q.queue (x ∷ []))

pub push_drop_oldest-length :
    (x : AudioFrame) (q : Queue AudioFrame)
    → 0 < q.capacity
    → q.closed ≡ false
    → (length (push_drop_oldest x q).0.queue + count (push_drop_oldest x q).1 ≡ length q.queue + 1)
      × ((push_drop_oldest x q).0.closed ≡ q.closed)
      × ((push_drop_oldest x q).0.capacity ≡ q.capacity)
unfolding push_drop_oldest size pop_front
push_drop_oldest-length x q a h = go q.queue refl
  where
    go :
        (l : List AudioFrame)
        → q.queue ≡ l
        → (length (push_drop_oldest x q).0.queue + count (push_drop_oldest x q).1
            ≡ length q.queue + 1)
          × ((push_drop_oldest x q).0.closed ≡ q.closed)
          × ((push_drop_oldest x q).0.capacity ≡ q.capacity)
    go [] e = ground arith
    go (y ∷ ys) e = ground (arith, length-append ys (x ∷ []), length-append (y ∷ ys) (x ∷ []))

pub pop_for-front :
    (o : Bool) (q : Queue AudioFrame) (x : AudioFrame) (xs : List AudioFrame)
    → q.queue ≡ x ∷ xs
    → pop_for o q ≡ some (record q { queue = xs }, some x)
unfolding pop_for ready after_wait take_front
pop_for-front o q x xs e = ground arith

pub pop_for-empty :
    (o : Bool) (q : Queue AudioFrame)
    → q.queue ≡ []
    → (pop_for o q ≡ none) ⊎ (pop_for o q ≡ some (q, none))
unfolding pop_for ready after_wait take_front
pop_for-empty o q e = ground arith
