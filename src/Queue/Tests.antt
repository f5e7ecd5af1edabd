-- ===== src/Queue/Tests.antt =====
-- Runs of `BoundedQueue` (board/bounded_queue.hpp), and its theorems at concrete inputs.
use voice_edge_monitor.Base.{
  ℕ, ◌≡◌, ◌≤◌, ◌%◌, ◌^◌, refl, true, false, none, some, List, [], ◌∷◌, ◌++◌, length, ok, err, Error,
}
use voice_edge_monitor.Queue.{
  Queue, make, try_push, push_drop_oldest, pop_for, pop, close, after_wait,
}
use voice_edge_monitor.Queue.History
use voice_edge_monitor.Queue.History.{
  Op, Run, push, push_oldest, take, shut, run, start, items, evictions,
}
use voice_edge_monitor.Queue.Conservation.{run_conserves, close_drains, takes, deliver}

abbrev pair : Queue ℕ
pair = record { capacity = 2; queue = []; dropped_items = 0; closed = false }

made : make 2 ≡ ok pair
unfolding make
made = refl

refused : make {A = ℕ} 0 ≡ err Error.invalid_argument
unfolding make
refused = refl

-- The history of tests/bounded_queue_test.cpp: the third push evicts the first item.
abbrev history : List (Op ℕ)
history = push 1 ∷ push 2 ∷ push_oldest 3 ∷ take ∷ shut ∷ push 4 ∷ take ∷ take ∷ []

history_removes : items (run history (start pair)).log.removed ≡ 1 ∷ 2 ∷ 3 ∷ []
unfolding run try_push push_drop_oldest after_wait close History.step
history_removes = refl

closed_and_drained : pop (close pair) ≡ some (close pair, none)
unfolding pop close
closed_and_drained = refl

still_waiting : pop pair ≡ none
unfolding pop
still_waiting = refl

timed_out : pop_for true pair ≡ some (pair, none)
unfolding pop_for
timed_out = refl

run_conserves_example :
    let r = run history (start pair) in
    (r.log.accepted ≡ items r.log.removed ++ r.queue.queue)
    × (r.queue.dropped_items ≡ evictions r.log.removed % 2 ^ 64)
    × (length r.queue.queue ≤ 2)
run_conserves_example = run_conserves 2 pair made history

-- Two items are inside when the queue is closed.
abbrev filled : Run ℕ
filled = run (push 1 ∷ push 2 ∷ []) (start pair)

close_drains_example :
    let s = run (push_oldest 3 ∷ take ∷ push 4 ∷ []) (History.step shut filled) in
    let t = run (takes (length s.queue.queue)) s in
    (s.log.accepted ≡ filled.log.accepted)
    × (t.log.removed ≡ s.log.removed ++ deliver s.queue.queue)
    × (t.queue.queue ≡ [])
    × (items t.log.removed ≡ items filled.log.removed ++ filled.queue.queue)
close_drains_example = close_drains (push_oldest 3 ∷ take ∷ push 4 ∷ []) filled
