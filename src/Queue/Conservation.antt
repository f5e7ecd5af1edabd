-- ===== src/Queue/Conservation.antt =====
-- What every history of a `BoundedQueue` guarantees (board/bounded_queue.hpp).
use mathlib.Core.List.{map-append}
use voice_edge_monitor.Base.{
  ℕ, zero, suc, ◌%◌, ◌^◌, ◌≤◌, ◌≡◌, refl, sym, ap, ◌∙◌, true, List, [], ◌∷◌, ◌++◌, length, arith,
  ok, append-nil, append_assoc, map,
}
use voice_edge_monitor.Queue.{Queue, make, try_push, push_drop_oldest, close, after_wait}
use voice_edge_monitor.Queue.Laws.{
  IsValid, make-IsValid, try_push-IsValid, push_drop_oldest-IsValid, after_wait-IsValid,
}
use voice_edge_monitor.Queue.History.{
  Fate, delivered, Run, Op, push, push_oldest, take, shut, step, run, start, items, evictions,
  Balanced, push-Balanced, push_oldest-Balanced, take-Balanced,
}

-- The facts that each step keeps, for a queue of capacity `n`.
pub record IsSound {ℓ} {A : Type ℓ} (n : ℕ) (r : Run A) : Type ℓ where
  pub valid : IsValid r.queue
  pub balanced : Balanced r
  pub fixed : r.queue.capacity ≡ n

module _ {ℓ} {A : Type ℓ} where
  after_wait-capacity : (q : Queue A) → (after_wait q).0.capacity ≡ q.capacity
  unfolding after_wait
  after_wait-capacity q = go q.queue refl
    where
      go : (l : List A) → q.queue ≡ l → (after_wait q).0.capacity ≡ q.capacity
      go [] e = ground arith
      go (y ∷ ys) e = ground arith

  step-capacity : (o : Op A) (r : Run A) → (step o r).queue.capacity ≡ r.queue.capacity
  unfolding step try_push push_drop_oldest close
  step-capacity (push x) r = ground arith
  step-capacity (push_oldest x) r = ground arith
  step-capacity take r = after_wait-capacity r.queue
  step-capacity shut r = refl

  step-IsValid : (o : Op A) (r : Run A) → IsValid r.queue → IsValid (step o r).queue
  unfolding step close
  step-IsValid (push x) r v = try_push-IsValid x r.queue v
  step-IsValid (push_oldest x) r v = push_drop_oldest-IsValid x r.queue v
  step-IsValid take r v = after_wait-IsValid r.queue v
  step-IsValid shut r v = record { room = v.room; within = v.within }

  step-Balanced : (o : Op A) (r : Run A) → IsValid r.queue → Balanced r → Balanced (step o r)
  unfolding step close
  step-Balanced (push x) r v b = push-Balanced x r b
  step-Balanced (push_oldest x) r v b = push_oldest-Balanced x r v b
  step-Balanced take r v b = take-Balanced r b
  step-Balanced shut r v b = record { kept = b.kept; counted = b.counted }

  run-IsSound : (n : ℕ) (os : List (Op A)) (r : Run A) → IsSound n r → IsSound n (run os r)
  unfolding run
  run-IsSound n [] r s = s
  run-IsSound n (o ∷ os) r s = run-IsSound n os (step o r) (record {
    valid = step-IsValid o r s.valid;
    balanced = step-Balanced o r s.valid s.balanced;
    fixed = step-capacity o r ∙ s.fixed;
  })

  start-IsSound : (n : ℕ) (q : Queue A) → make n ≡ ok q → IsSound n (start q)
  start-IsSound n q e = record {
    valid = make-IsValid n e;
    balanced = unfold make in ground arith;
    fixed = unfold make in ground arith;
  }

  -- After any sequence of pushes, evicting pushes, pops and closes on a fresh queue of capacity n:
  -- the items accepted are exactly those removed, in the order of their removal, followed by those
  -- still queued; `dropped_items` counts the evicted ones, modulo 2^64; and no more than n items
  -- are queued.
  pub run_conserves :
      (n : ℕ) (q : Queue A)
      → make n ≡ ok q
      → (os : List (Op A))
      → let r = run os (start q) in
        (r.log.accepted ≡ items r.log.removed ++ r.queue.queue)
        × (r.queue.dropped_items ≡ evictions r.log.removed % 2 ^ 64)
        × (length r.queue.queue ≤ n)
  run_conserves n q e os =
      let s = run-IsSound n os (start q) (start-IsSound n q e) in
      (s.balanced.kept, s.balanced.counted, omega (arith, s.valid.within, s.fixed))

  take_closed : (q : Queue A) (l : List A) → q.queue ≡ l → (after_wait q).0.closed ≡ q.closed
  take_closed q [] e = unfold after_wait in ground arith
  take_closed q (y ∷ ys) e = unfold after_wait in ground arith

  closed_step :
      (o : Op A) (r : Run A)
      → r.queue.closed ≡ true
      → ((step o r).log.accepted ≡ r.log.accepted) × ((step o r).queue.closed ≡ true)
  closed_step (push x) r c = unfold step try_push in ground (arith, append-nil r.log.accepted)
  closed_step (push_oldest x) r c =
      unfold step push_drop_oldest in ground (arith, append-nil r.log.accepted)
  closed_step take r c = unfold step in (refl, take_closed r.queue r.queue.queue refl ∙ c)
  closed_step shut r c = unfold step close in (refl, refl)

  closed_accepts_nothing :
      (os : List (Op A)) (r : Run A)
      → r.queue.closed ≡ true
      → ((run os r).log.accepted ≡ r.log.accepted) × ((run os r).queue.closed ≡ true)
  unfolding run
  closed_accepts_nothing [] r c = (refl, c)
  closed_accepts_nothing (o ∷ os) r c =
      let (a, c') = closed_step o r c in
      let (b, d) = closed_accepts_nothing os (step o r) c' in (b ∙ a, d)

  -- All items that have come out, in order, and then those inside.
  abbrev all_items : Run A → List A
  all_items r = items r.log.removed ++ r.queue.queue

  items-append : (es fs : List (Fate × A)) → items (es ++ fs) ≡ items es ++ items fs
  items-append es fs = map-append (λ e. e.1) es fs

  closed_keeps_items :
      (os : List (Op A)) (r : Run A) → r.queue.closed ≡ true → all_items (run os r) ≡ all_items r
  unfolding run
  closed_keeps_items [] r c = refl
  closed_keeps_items (o ∷ os) r c =
      closed_keeps_items os (step o r) (closed_step o r c).1 ∙ items_step o r c
    where
      take_items :
          (l : List A) (r : Run A) → r.queue.queue ≡ l → all_items (step take r) ≡ all_items r
      take_items [] r e = unfold step after_wait in ground (arith, append-nil r.log.removed)
      take_items (y ∷ ys) r e =
          unfold step after_wait in
          ground (
            arith,
            items-append r.log.removed ((delivered, y) ∷ []),
            append_assoc (items r.log.removed) (y ∷ []) ys,
          )

      items_step :
          (o : Op A) (r : Run A) → r.queue.closed ≡ true → all_items (step o r) ≡ all_items r
      items_step (push x) r c = unfold step try_push in ground arith
      items_step (push_oldest x) r c =
          unfold step push_drop_oldest in ground (arith, append-nil r.log.removed)
      items_step take r c = take_items r.queue.queue r refl
      items_step shut r c = unfold step close in refl

  -- `n` pops in a row.
  abbrev pub takes : ℕ → List (Op A)
  takes zero = []
  takes (suc n) = take ∷ takes n

  abbrev pub deliver : List A → List (Fate × A)
  deliver = map λ x. (delivered, x)

  items-deliver : (l : List A) → items (deliver l) ≡ l
  items-deliver [] = refl
  items-deliver (x ∷ xs) = ap (λ ys. x ∷ ys) (items-deliver xs)

  takes-deliver :
      (l : List A) (r : Run A)
      → r.queue.queue ≡ l
      → let s = run (takes (length l)) r in
        (s.log.removed ≡ r.log.removed ++ deliver l) × (s.queue.queue ≡ [])
  unfolding run
  takes-deliver [] r e = (sym (append-nil r.log.removed), e)
  takes-deliver (x ∷ xs) r e =
      let (q, d) = taken in
      let (a, b) = takes-deliver xs (step take r) q in
      (a ∙ rw d (append_assoc r.log.removed ((delivered, x) ∷ []) (deliver xs)), b)
    where
      taken :
          ((step take r).queue.queue ≡ xs)
          × ((step take r).log.removed ≡ r.log.removed ++ (delivered, x) ∷ [])
      taken = unfold step after_wait in ground arith

  -- Once the queue is closed, nothing more is accepted, whatever is called; and as many pops as it
  -- holds items then deliver these, in order, and leave it empty; what has come out in the end is what
  -- had come out before, and then all that the queue held when it was closed, in order.
  pub close_drains :
      (os : List (Op A)) (r : Run A)
      → let s = run os (step shut r) in
        let t = run (takes (length s.queue.queue)) s in
        (s.log.accepted ≡ r.log.accepted)
        × (t.log.removed ≡ s.log.removed ++ deliver s.queue.queue)
        × (t.queue.queue ≡ [])
        × (items t.log.removed ≡ items r.log.removed ++ r.queue.queue)
  close_drains os r =
      let s = run os (step shut r) in
      let (a, b) = takes-deliver s.queue.queue s refl in
      ((closed_accepts_nothing os (step shut r) shut_closed).0 ∙ shut_same, a, b, all_out)
    where
      shut_items : all_items (step shut r) ≡ all_items r
      shut_items = unfold step close in refl

      shut_closed : (step shut r).queue.closed ≡ true
      shut_closed = unfold step close in refl

      shut_same : (step shut r).log.accepted ≡ r.log.accepted
      shut_same = unfold step in refl

      all_out :
          let s = run os (step shut r) in
          items (run (takes (length s.queue.queue)) s).log.removed
          ≡ items r.log.removed ++ r.queue.queue
      all_out =
          let s = run os (step shut r) in
          ap items (takes-deliver s.queue.queue s refl).0
          ∙ items-append s.log.removed (deliver s.queue.queue)
          ∙ ap (λ l. items s.log.removed ++ l) (items-deliver s.queue.queue)
          ∙ closed_keeps_items os (step shut r) shut_closed
          ∙ shut_items
