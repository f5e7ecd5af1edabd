-- ===== src/Queue/Laws.antt =====
-- What single calls of the methods of `BoundedQueue` do (board/bounded_queue.hpp).
use voice_edge_monitor.Base.{
  ℕ, ◌≤◌, ◌<◌, ◌≡◌, refl, true, none, some, List, [], ◌∷◌, length, length-append, arith, ok,
}
use voice_edge_monitor.Queue.{Queue, make, try_push, push_drop_oldest, pop, after_wait}

-- Within its capacity, which is not zero.
pub record IsValid {ℓ} {A : Type ℓ} (q : Queue A) : Type 0 where
  pub room : 0 < q.capacity
  pub within : length q.queue ≤ q.capacity

module _ {ℓ} {A : Type ℓ} where
  pub make-IsValid : (n : ℕ) {q : Queue A} → make n ≡ ok q → IsValid q
  unfolding make
  make-IsValid n h = ground arith

  pub try_push-IsValid : (x : A) (q : Queue A) → IsValid q → IsValid (try_push x q).0
  unfolding try_push
  try_push-IsValid x q v = ground (arith, length-append q.queue (x ∷ []))

  pub push_drop_oldest-IsValid :
      (x : A) (q : Queue A) → IsValid q → IsValid (push_drop_oldest x q).0
  unfolding push_drop_oldest
  push_drop_oldest-IsValid x q v = go q.queue refl
    where
      go : (l : List A) → q.queue ≡ l → IsValid (push_drop_oldest x q).0
      go [] e = ground (arith, v.room, v.within)
      go (y ∷ ys) e =
          ground
            (arith, v.room, v.within, length-append ys (x ∷ []), length-append (y ∷ ys) (x ∷ []))

  pub after_wait-IsValid : (q : Queue A) → IsValid q → IsValid (after_wait q).0
  unfolding after_wait
  after_wait-IsValid q v = go q.queue refl
    where
      go : (l : List A) → q.queue ≡ l → IsValid (after_wait q).0
      go [] e = ground (arith, v.room, v.within)
      go (y ∷ ys) e = ground (arith, v.room, v.within)

  -- A pop that returns has found the queue closed, not empty, or out of time; the wait of `pop`
  -- without a timeout ends with nothing exactly when the queue is closed and drained.
  pub pop-none_iff :
      (q : Queue A)
      → ((pop q ≡ some (q, none)) → (q.closed ≡ true) × (q.queue ≡ []))
        × ((q.closed ≡ true) → (q.queue ≡ []) → pop q ≡ some (q, none))
  unfolding pop
  pop-none_iff q = go q.queue refl
    where
      go :
          (l : List A)
          → q.queue ≡ l
          → ((pop q ≡ some (q, none)) → (q.closed ≡ true) × (q.queue ≡ []))
            × ((q.closed ≡ true) → (q.queue ≡ []) → pop q ≡ some (q, none))
      go [] e = (λ h. ground arith, λ c e'. ground arith)
      go (y ∷ ys) e = (λ h. ground arith, λ c e'. ground arith)
