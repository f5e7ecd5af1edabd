-- ===== src/Queue.antt =====
-- board/bounded_queue.hpp: `BoundedQueue<T>`. Each method is the critical section that it runs
-- under the mutex, so a history of the queue is a sequence of such steps (`Queue/History.antt`);
-- that a notification ends a wait in time is not modelled.
pub mod Laws
pub mod History
pub mod Conservation
mod Tests
use voice_edge_monitor.Base.{
  ℕ, zero, suc, ◌+◌, ◌%◌, ◌^◌, ◌≡◌, Bool, true, false, ◌||◌, not, Option, none, some, List, [], ◌∷◌,
  ◌++◌, leb, ◌==◌, if◌then◌else◌, length, Result, Error, ok, err,
}

pub record Queue {ℓ} (A : Type ℓ) : Type ℓ where
  pub capacity : ℕ
  pub queue : List A
  pub dropped_items : ℕ
  pub closed : Bool

module _ {ℓ} {A : Type ℓ} where
  -- The constructor.
  unfoldable pub make : ℕ → Result (Queue A)
  make capacity =
      if capacity == 0
      then err Error.invalid_argument
      else ok (record { capacity = capacity; queue = []; dropped_items = 0; closed = false })

  unfoldable pub size : Queue A → ℕ
  size q = length q.queue

  unfoldable pub try_push : A → Queue A → Queue A × Bool
  unfolding size
  try_push item q =
      if q.closed || leb q.capacity (size q)
      then (q, false)
      else (record q { queue = q.queue ++ item ∷ [] }, true)

  -- `queue_.pop_front()`, on a queue that is not empty.
  unfoldable pub pop_front : List A → List A
  pop_front [] = []
  pop_front (x ∷ xs) = xs

  -- The result says whether an older item was dropped; the counter is a `uint64_t`.
  unfoldable pub push_drop_oldest : A → Queue A → Queue A × Bool
  unfolding size pop_front
  push_drop_oldest item q =
      if q.closed
      then (q, false)
      else if leb q.capacity (size q)
      then (
        record q {
          queue = pop_front q.queue ++ item ∷ [];
          dropped_items = (q.dropped_items + 1) % 2 ^ 64;
        },
        true,
      )
      else (record q { queue = q.queue ++ item ∷ [] }, false)

  unfoldable pub is_empty : List A → Bool
  is_empty [] = true
  is_empty (x ∷ xs) = false

  -- The predicate of both waits: `closed_ || !queue_.empty()`.
  unfoldable pub ready : Queue A → Bool
  unfolding is_empty
  ready q = q.closed || not (is_empty q.queue)

  unfoldable pub take_front : Queue A → List A → Queue A × Option A
  take_front q [] = (q, none)
  take_front q (x ∷ xs) = (record q { queue = xs }, some x)

  -- What follows the wait, in `pop` and in `pop_for`.
  unfoldable pub after_wait : Queue A → Queue A × Option A
  unfolding take_front
  after_wait q = take_front q q.queue

  -- `none`: the call is still waiting. `timed_out` says that the timeout has passed.
  unfoldable pub pop_for : Bool → Queue A → Option (Queue A × Option A)
  unfolding ready after_wait
  pop_for timed_out q = if ready q || timed_out then some (after_wait q) else none

  unfoldable pub pop : Queue A → Option (Queue A × Option A)
  unfolding ready after_wait
  pop q = if ready q then some (after_wait q) else none

  unfoldable pub close : Queue A → Queue A
  close q = record q { closed = true }
