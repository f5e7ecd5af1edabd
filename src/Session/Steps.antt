-- ===== src/Session/Steps.antt =====
-- The threads of a `ClientSession` (board/ws_server.cpp), interleaved in any order. Any thread may
-- call `enqueue` and `stop()` at any time; which one carries on the effective `stop()` is left open.
-- A sleeping writer wakes up by a notification only: C++ permits others, and promises none.
use voice_edge_monitor.Base.{◌≡◌, Bool, false, some}
use voice_edge_monitor.Session.{
  Message, Session, has_mutex, enqueue, writer_step, stop_step, notify_one, run_step,
}

pub data Step (s : Session) : Session → Type 0 where
  enqueues : (m : Message) → has_mutex s.writer ≡ false → Step s (enqueue m s)
  notifies : (t : Session) → notify_one s ≡ some t → Step s t
  stops : (t : Session) → stop_step s ≡ some t → Step s t
  writes : (fails : Bool) (t : Session) → writer_step fails s ≡ some t → Step s t
  runs : (fails : Bool) (t : Session) → run_step fails s ≡ some t → Step s t

pub data Reach (s : Session) : Session → Type 0 where
  here : Reach s s
  next : {t u : Session} → Reach s t → Step t u → Reach s u

-- An invariant of all steps is one of all reachable states.
pub reach_inv {ℓ} :
    (P : Session → Type ℓ)
    → ((t u : Session) → Step t u → P t → P u)
    → (s t : Session) → Reach s t
    → P s
    → P t
reach_inv P keep s t here h = h
reach_inv P keep s t (next {t = u} r st) h = keep u t st (reach_inv P keep s u r h)
