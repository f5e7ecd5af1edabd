-- ===== src/Queue/History.antt =====
-- Histories of a `BoundedQueue` (board/bounded_queue.hpp): any sequence of critical sections, of
-- producers and consumers, with a log of what went in and what came out. The log is not part of
-- the program; the queue drives it.
use mathlib.Core.List.{map-append}
use voice_edge_monitor.Base.{
  ℕ, suc, ◌+◌, ◌%◌, ◌^◌, ◌≡◌, refl, sym, ◌∙◌, Bool, true, false, ltb, length, length-append, Option,
  none, some, List, [], ◌∷◌, ◌++◌, arith, map, append_assoc, append-nil, if◌then◌else◌,
}
use voice_edge_monitor.Queue.{Queue, try_push, push_drop_oldest, close, after_wait}
use voice_edge_monitor.Queue.Laws.{IsValid}

-- How an item left the queue.
pub data Fate : Type 0 where
  delivered evicted : Fate

pub record Log {ℓ} (A : Type ℓ) : Type ℓ where
  pub accepted : List A
  pub removed : List (Fate × A)

pub record Run {ℓ} (A : Type ℓ) : Type ℓ where
  pub queue : Queue A
  pub log : Log A

-- One critical section: `take` is what a `pop` or a `pop_for` does when its wait has ended.
pub data Op {ℓ} (A : Type ℓ) : Type ℓ where
  push : A → Op A
  push_oldest : A → Op A
  take : Op A
  shut : Op A

abbrev pub count : Bool → ℕ
count true = 1
count false = 0

module _ {ℓ} {A : Type ℓ} where
  -- The front item, paired with its fate; nothing of an empty queue.
  abbrev pub front_as : Fate → List A → List (Fate × A)
  front_as f [] = []
  front_as f (x ∷ xs) = (f, x) ∷ []

  abbrev pub outcome : Option A → List (Fate × A)
  outcome none = []
  outcome (some x) = (delivered, x) ∷ []

  abbrev pub items : List (Fate × A) → List A
  items = map λ e. e.1

  abbrev pub evictions : List (Fate × A) → ℕ
  evictions [] = 0
  evictions ((delivered, x) ∷ es) = evictions es
  evictions ((evicted, x) ∷ es) = suc (evictions es)

  -- `push_drop_oldest` has taken its item in if, with the evicted one, there are more items than before.
  unfoldable pub step : Op A → Run A → Run A
  step (push x) r =
      let (q, done) = try_push x r.queue in
      record {
        queue = q;
        log = record r.log { accepted = r.log.accepted ++ (if done then x ∷ [] else []) };
      }
  step (push_oldest x) r =
      let (q, dropped) = push_drop_oldest x r.queue in
      record {
        queue = q;
        log = record {
          accepted =
              r.log.accepted
              ++ (if ltb (length r.queue.queue) (length q.queue + count dropped)
                  then x ∷ []
                  else []);
          removed = r.log.removed ++ (if dropped then front_as evicted r.queue.queue else []);
        };
      }
  step take r =
      let (q, got) = after_wait r.queue in
      record { queue = q; log = record r.log { removed = r.log.removed ++ outcome got } }
  step shut r = record r { queue = close r.queue }

  unfoldable pub run : List (Op A) → Run A → Run A
  run [] r = r
  run (o ∷ os) r = run os (step o r)

  abbrev pub start : Queue A → Run A
  start q = record { queue = q; log = record { accepted = []; removed = [] } }

  -- What came out, in order, followed by what is still inside, is what went in; and the counter
  -- counts the evictions.
  pub record Balanced (r : Run A) : Type ℓ where
    pub kept : r.log.accepted ≡ items r.log.removed ++ r.queue.queue
    pub counted : r.queue.dropped_items ≡ evictions r.log.removed % 2 ^ 64

module _ {ℓ} {A : Type ℓ} where
  pub evictions-append :
      (es fs : List (Fate × A)) → evictions (es ++ fs) ≡ evictions es + evictions fs
  evictions-append [] fs = omega arith
  evictions-append ((delivered, x) ∷ es) fs = evictions-append es fs
  evictions-append ((evicted, x) ∷ es) fs = omega (arith, evictions-append es fs)

  -- A step that appends `xs` at the back.
  pub regroup_back : (a r q xs : List A) → a ≡ r ++ q → a ++ xs ≡ r ++ (q ++ xs)
  regroup_back a r q xs e = rw e (append_assoc r q xs)

  pub regroup_front : (a r ys : List A) (y : A) → a ≡ r ++ (y ∷ ys) → a ≡ (r ++ y ∷ []) ++ ys
  regroup_front a r ys y e = e ∙ sym (append_assoc r (y ∷ []) ys)

  -- Used with an eviction of `y` and an arrival of `x` in one step.
  pub regroup_both :
      (a r ys : List A) (y x : A)
      → a ≡ r ++ (y ∷ ys)
      → a ++ x ∷ [] ≡ (r ++ y ∷ []) ++ (ys ++ x ∷ [])
  regroup_both a r ys y x e = regroup_back a (r ++ y ∷ []) ys (x ∷ []) (regroup_front a r ys y e)

  pub push-Balanced : (x : A) (r : Run A) → Balanced r → Balanced (step (push x) r)
  unfolding step try_push
  push-Balanced x r b = ground (
    arith,
    append-nil r.log.accepted,
    regroup_back r.log.accepted (items r.log.removed) r.queue.queue (x ∷ []) b.kept,
  )

  pub push_oldest-Balanced :
      (x : A) (r : Run A) → IsValid r.queue → Balanced r → Balanced (step (push_oldest x) r)
  unfolding step push_drop_oldest
  push_oldest-Balanced x r v b = go r.queue.queue refl
    where
      open r.log use {accepted, removed}

      go : (l : List A) → r.queue.queue ≡ l → Balanced (step (push_oldest x) r)
      go [] e = ground (
        arith,
        v.room,
        append-nil accepted,
        append-nil removed,
        regroup_back accepted (items removed) r.queue.queue (x ∷ []) b.kept,
        length-append r.queue.queue (x ∷ []),
      )
      go (y ∷ ys) e = ground (
        arith,
        append-nil accepted,
        append-nil removed,
        regroup_back accepted (items removed) r.queue.queue (x ∷ []) b.kept,
        regroup_both accepted (items removed) ys y x,
        length-append r.queue.queue (x ∷ []),
        length-append ys (x ∷ []),
        map-append (λ (f : Fate × A). f.1) removed ((evicted, y) ∷ []),
        evictions-append removed ((evicted, y) ∷ []),
      )

  pub take-Balanced : (r : Run A) → Balanced r → Balanced (step take r)
  unfolding step after_wait
  take-Balanced r b = go r.queue.queue refl
    where
      open r.log use {accepted, removed}

      go : (l : List A) → r.queue.queue ≡ l → Balanced (step take r)
      go [] e = ground (arith, append-nil removed)
      go (y ∷ ys) e = ground (
        arith,
        regroup_front accepted (items removed) ys y,
        map-append (λ (f : Fate × A). f.1) removed ((delivered, y) ∷ []),
        evictions-append removed ((delivered, y) ∷ []),
      )
