-- ===== src/Session/Delivery.antt =====
-- A queued message is always within a few steps of being written (`ClientSession` of
-- board/ws_server.cpp).
use voice_edge_monitor.Base.{
  ℕ, zero, suc, ◌≤◌, ◌≡◌, refl, Bool, true, false, some, List, [], ◌∷◌, ◌++◌, arith,
}
use voice_edge_monitor.Queue.{is_empty}
use voice_edge_monitor.Queue.History.{delivered}
use voice_edge_monitor.Session.{
  Message, Writer, unstarted, locking, testing, checked, asleep, sending, failing, returned,
  Session, make, writer_step, notify_one, after_wait, wake,
}
use voice_edge_monitor.Session.Steps.{Reach}
use voice_edge_monitor.Session.Wakeup.{IsHeard, reach-IsHeard}

-- Steps of the writer, whose writes succeed, and of the notifiers, counted.
pub data Advance (s : Session) : ℕ → Session → Type 0 where
  start : Advance s 0 s
  notified_next :
      {k : ℕ} {t : Session} (u : Session)
      → Advance s k t
      → notify_one t ≡ some u
      → Advance s (suc k) u
  wrote_next :
      {k : ℕ} {t : Session} (u : Session)
      → Advance s k t
      → writer_step false t ≡ some u
      → Advance s (suc k) u

-- The writer is in its loop.
abbrev pub is_at_work : Writer → Bool
is_at_work unstarted = false
is_at_work locking = true
is_at_work testing = true
is_at_work checked = true
is_at_work asleep = true
is_at_work (sending m) = true
is_at_work failing = false
is_at_work returned = false

-- The front message is in the writer's hands within `k` steps.
abbrev pub Delivers : ℕ → Session → Message → List Message → Type 0
Delivers k s m q =
    (j : ℕ) × (t : Session) × Advance s j t × (j ≤ k) × (t.writer ≡ sending m) × (t.queue ≡ q)

module _ (m : Message) (q : List Message) where
  testing-Delivers :
      (s t : Session) (k : ℕ)
      → Advance s k t
      → t.writer ≡ testing
      → t.queue ≡ m ∷ q
      → Delivers (suc k) s m q
  unfolding writer_step after_wait
  testing-Delivers s t k path w e =
      let u = record t {
        queue = q;
        writer = sending m;
        removed = t.removed ++ (delivered, m) ∷ [];
      } in
      (suc k, u, wrote_next u path (ground arith), omega arith, refl, refl)

  locking-Delivers :
      (s t : Session) (k : ℕ)
      → Advance s k t
      → t.writer ≡ locking
      → t.queue ≡ m ∷ q
      → Delivers (suc (suc k)) s m q
  unfolding writer_step
  locking-Delivers s t k path w e =
      let u = record t { writer = testing } in
      testing-Delivers s u (suc k) (wrote_next u path (ground arith)) refl e

  sending-Delivers :
      (s : Session) (m' : Message) → s.writer ≡ sending m' → s.queue ≡ m ∷ q → Delivers 3 s m q
  unfolding writer_step
  sending-Delivers s m' w e =
      let u = record s { writer = locking } in
      locking-Delivers s u 1 (wrote_next u start (ground arith)) refl e

  asleep-Delivers :
      (s : Session) (n : ℕ)
      → s.writer ≡ asleep
      → s.notifying ≡ suc n
      → s.queue ≡ m ∷ q
      → Delivers 3 s m q
  unfolding notify_one wake
  asleep-Delivers s n w k e =
      let u = record s { writer = locking; notifying = n } in
      locking-Delivers s u 1 (notified_next u start (ground arith)) refl e

  allow_more : (j k : ℕ) (s : Session) → j ≤ k → Delivers j s m q → Delivers k s m q
  allow_more j k s h (i, t, path, b, w, e) = (i, t, path, omega arith, w, e)

  working-Delivers :
      (s : Session) (w : Writer) (n : ℕ)
      → s.writer ≡ w
      → s.notifying ≡ n
      → s.queue ≡ m ∷ q
      → IsHeard s
      → is_at_work w ≡ true
      → Delivers 3 s m q
  unfolding is_empty
  working-Delivers s unstarted n ew en e h a = cc
  working-Delivers s locking n ew en e h a =
      allow_more 2 3 s (omega arith) (locking-Delivers s s 0 start ew e)
  working-Delivers s testing n ew en e h a =
      allow_more 1 3 s (omega arith) (testing-Delivers s s 0 start ew e)
  working-Delivers s checked n ew en e h a = absurd (ground (arith, h.seen))
  working-Delivers s asleep zero ew en e h a = absurd (ground (arith, h.coming))
  working-Delivers s asleep (suc n) ew en e h a = asleep-Delivers s n ew en e
  working-Delivers s (sending m') n ew en e h a = sending-Delivers s m' ew e
  working-Delivers s failing n ew en e h a = cc
  working-Delivers s returned n ew en e h a = cc

-- In every reachable state of a session whose writer is in its loop, whether or not it has been
-- stopped: if a message is at the front of the queue, then at most three steps of the writer, whose
-- writes succeed, and of a notifier lead to the writer sending that message, with the rest queued.
pub front_is_delivered :
    (n : ℕ) (s : Session) (m : Message) (q : List Message)
    → Reach (make n) s
    → is_at_work s.writer ≡ true
    → s.queue ≡ m ∷ q
    → Delivers 3 s m q
front_is_delivered n s m q r a e =
    working-Delivers m q s s.writer s.notifying refl refl e (reach-IsHeard n s r) a
