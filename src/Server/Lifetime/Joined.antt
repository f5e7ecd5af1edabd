-- ===== src/Server/Lifetime/Joined.antt =====
-- The sessions that `stop()` has joined (board/ws_server.cpp).
use voice_edge_monitor.Base.{
  ℕ, zero, suc, ◌≡◌, refl, subst, Bool, true, false, Option, none, some, List, [], ◌∷◌, ◌++◌, ltb,
  arith,
}
use voice_edge_monitor.Base.Maybe.{get_elem?}
use voice_edge_monitor.Audio.{SpeechSegment}
use voice_edge_monitor.Queue.{Queue, try_push, pop_for, close}
use voice_edge_monitor.Queue
use voice_edge_monitor.Session.{
  Session, running, exchanged, notified, closed, Runner, handshaking, reading, leaving, joining,
  finished, enqueue, writer_step, notify_one, run_step, take_message, after_wait, make,
}
use voice_edge_monitor.Session
use voice_edge_monitor.Session.Steps.{Step, enqueues, notifies, stops, writes, runs}
use voice_edge_monitor.Recorder.{Recording}
use voice_edge_monitor.Server.Clients.{Clients, accept_client, ClientStep, first_steps, later_steps}
use voice_edge_monitor.Server.Lifetime.{
  Stop, serving, requested, stopping_client, joining_accept, joining_capture, joining_asr,
  stopping_store, joining_store, joining_client, stopped, Runtime, stop_client, is_joined,
  join_store, join_client, stop_step, accept_step, capture_step, asr_step, kept,
}
use voice_edge_monitor.Server.Lifetime.Steps.{
  RuntimeStep, accepts, captures, recognises, persists, client_steps, signals, Lives, lives_inv,
}
use voice_edge_monitor.Server.Lifetime.Steps

-- The first `n` sessions have come to their ends.
abbrev pub AreJoined : ℕ → List Session → Type 0
AreJoined zero cs = Unit
AreJoined (suc n) [] = ⊥
AreJoined (suc n) (c ∷ cs) = (is_joined c.runner ≡ true) × AreJoined n cs

pub AreJoined-append : (n : ℕ) (cs ds : List Session) → AreJoined n cs → AreJoined n (cs ++ ds)
AreJoined-append zero cs ds h = tt
AreJoined-append (suc n) [] ds h = absurd h
AreJoined-append (suc n) (c ∷ cs) ds (a, h) = (a, AreJoined-append n cs ds h)

pub AreJoined-stop_client :
    (n i : ℕ) (cs : List Session) → AreJoined n cs → AreJoined n (stop_client i cs)
unfolding stop_client
AreJoined-stop_client zero i cs h = tt
AreJoined-stop_client (suc n) i [] h = absurd h
AreJoined-stop_client (suc n) zero (c ∷ cs) h = h
AreJoined-stop_client (suc n) (suc i) (c ∷ cs) (a, h) = (a, AreJoined-stop_client n i cs h)

Step-is_joined : (c d : Session) → Step c d → is_joined c.runner ≡ true → is_joined d.runner ≡ true
unfolding enqueue notify_one Session.stop_step writer_step after_wait take_message run_step
Step-is_joined c d (enqueues m h) j = ground arith
Step-is_joined c d (notifies t e) j = ground arith
Step-is_joined c d (stops t e) j = ground arith
Step-is_joined c d (writes fails t e) j = ground arith
Step-is_joined c d (runs fails t e) j = ground arith

pub AreJoined-step :
    (n : ℕ) (cs ds : List Session) → ClientStep cs ds → AreJoined n cs → AreJoined n ds
AreJoined-step zero cs ds st h = tt
AreJoined-step (suc n) cs ds (first_steps c d rest st) (a, h) = (Step-is_joined c d st a, h)
AreJoined-step (suc n) cs ds (later_steps c before after st) (a, h) =
    (a, AreJoined-step n before after st h)

pub AreJoined-next :
    (n : ℕ) (cs : List Session) (c : Session)
    → get_elem? cs n ≡ some c
    → is_joined c.runner ≡ true
    → AreJoined n cs
    → AreJoined (suc n) cs
AreJoined-next n [] c e j h = absurd (ground arith)
AreJoined-next zero (d ∷ cs) c e j h = (ground arith, tt)
AreJoined-next (suc n) (d ∷ cs) c e j (a, h) = (a, AreJoined-next n cs c e j h)

pub AreJoined-fewer :
    (m n : ℕ) (cs : List Session) → ltb n m ≡ false → AreJoined n cs → AreJoined m cs
AreJoined-fewer zero n cs l h = tt
AreJoined-fewer (suc m) zero cs l h = absurd (ground arith)
AreJoined-fewer (suc m) (suc n) [] l h = h
AreJoined-fewer (suc m) (suc n) (c ∷ cs) l (a, h) = (a, AreJoined-fewer m n cs (ground arith) h)

-- How many sessions `stop()` has joined.
abbrev pub joined : Stop → ℕ → ℕ
joined serving n = 0
joined requested n = 0
joined (stopping_client i) n = 0
joined joining_accept n = 0
joined joining_capture n = 0
joined joining_asr n = 0
joined stopping_store n = 0
joined joining_store n = 0
joined (joining_client i) n = i
joined stopped n = n

join_next :
    (i : ℕ) (s t : Runtime) (found : Option Session)
    → get_elem? s.clients.clients i ≡ found
    → s.stop ≡ joining_client i
    → stop_step s ≡ some t
    → AreJoined i s.clients.clients
    → AreJoined (joined t.stop t.copied) t.clients.clients
unfolding stop_step join_client
join_next i s t none g q e h = ground (arith, AreJoined-fewer s.copied i s.clients.clients)
join_next i s t (some c) g q e h =
    ground
      (arith, AreJoined-fewer s.copied i s.clients.clients, AreJoined-next i s.clients.clients c)

stop_step-AreJoined :
    (s t : Runtime)
    → stop_step s ≡ some t
    → AreJoined (joined s.stop s.copied) s.clients.clients
    → AreJoined (joined t.stop t.copied) t.clients.clients
unfolding stop_step join_store join_client
stop_step-AreJoined s t e h = go s.stop refl
  where
    go : (p : Stop) → s.stop ≡ p → AreJoined (joined t.stop t.copied) t.clients.clients
    go serving q = ground arith
    go requested q = ground arith
    go (stopping_client i) q = ground arith
    go joining_accept q = ground arith
    go joining_capture q = ground arith
    go joining_asr q = ground arith
    go stopping_store q = ground arith
    go joining_store q = ground arith
    go (joining_client i) q =
        join_next i s t (get_elem? s.clients.clients i) refl q e
          (subst (λ x. AreJoined (joined x s.copied) s.clients.clients) q h)
    go stopped q = ground arith

AreJoined-accept_client :
    (n : ℕ) (c : Clients) → AreJoined n c.clients → AreJoined n (accept_client c).clients
unfolding accept_client
AreJoined-accept_client n c h =
    ground (arith, AreJoined-append n c.clients (make c.client_queue_capacity ∷ []))

accept_step-AreJoined :
    (connects : Bool) (s t : Runtime)
    → accept_step connects s ≡ some t
    → AreJoined (joined s.stop s.copied) s.clients.clients
    → AreJoined (joined t.stop t.copied) t.clients.clients
unfolding accept_step
accept_step-AreJoined connects s t e h =
    ground (arith, AreJoined-accept_client (joined s.stop s.copied) s.clients)

capture_step-AreJoined :
    (cut : Option SpeechSegment) (s t : Runtime)
    → capture_step cut s ≡ some t
    → AreJoined (joined s.stop s.copied) s.clients.clients
    → AreJoined (joined t.stop t.copied) t.clients.clients
unfolding capture_step
capture_step-AreJoined cut s t e h = ground arith

asr_step-AreJoined :
    (timed_out : Bool) (r : Recording) (s t : Runtime)
    → asr_step timed_out r s ≡ some t
    → AreJoined (joined s.stop s.copied) s.clients.clients
    → AreJoined (joined t.stop t.copied) t.clients.clients
unfolding asr_step pop_for Queue.after_wait
asr_step-AreJoined timed_out r s t e h = ground arith

pub RuntimeStep-AreJoined :
    (s t : Runtime)
    → RuntimeStep s t
    → AreJoined (joined s.stop s.copied) s.clients.clients
    → AreJoined (joined t.stop t.copied) t.clients.clients
RuntimeStep-AreJoined s t (Steps.stops u e) h = stop_step-AreJoined s u e h
RuntimeStep-AreJoined s t (accepts connects u e) h = accept_step-AreJoined connects s u e h
RuntimeStep-AreJoined s t (captures cut u e) h = capture_step-AreJoined cut s u e h
RuntimeStep-AreJoined s t (recognises timed_out r u e) h = asr_step-AreJoined timed_out r s u e h
RuntimeStep-AreJoined s t (persists env timed_out store kept e e') h = h
RuntimeStep-AreJoined s t (client_steps cs st) h =
    AreJoined-step (joined s.stop s.copied) s.clients.clients cs st h
RuntimeStep-AreJoined s t signals h = h
