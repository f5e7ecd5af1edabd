-- ===== src/Server/Lifetime/Steps.antt =====
-- The threads of `ServerRuntime` (board/ws_server.cpp), interleaved in any order, with those of its
-- clients and of the recorder.
use voice_edge_monitor.Base.{◌≡◌, Bool, true, Option, some, List}
use voice_edge_monitor.Audio.{SpeechSegment}
use voice_edge_monitor.Session.{Session}
use voice_edge_monitor.Recorder.{Environment, Recording, Store, worker_step}
use voice_edge_monitor.Server.Clients.{ClientStep}
use voice_edge_monitor.Server.Lifetime.{Runtime, stop_step, accept_step, capture_step, asr_step}

pub data RuntimeStep (s : Runtime) : Runtime → Type 0 where
  stops : (t : Runtime) → stop_step s ≡ some t → RuntimeStep s t
  accepts : (connects : Bool) (t : Runtime) → accept_step connects s ≡ some t → RuntimeStep s t
  captures :
      (cut : Option SpeechSegment) (t : Runtime) → capture_step cut s ≡ some t → RuntimeStep s t
  recognises :
      (timed_out : Bool) (r : Recording) (t : Runtime)
      → asr_step timed_out r s ≡ some t
      → RuntimeStep s t
  persists :
      (e : Environment) (timed_out : Bool) (store kept : Store)
      → s.recording_store ≡ some store
      → worker_step e timed_out store ≡ some kept
      → RuntimeStep s (record s { recording_store = some kept })
  client_steps :
      (cs : List Session)
      → ClientStep s.clients.clients cs
      → RuntimeStep s (record s { clients = record (s.clients) { clients = cs } })
  signals : RuntimeStep s (record s { signal = true })

pub data Lives (s : Runtime) : Runtime → Type 0 where
  begun : Lives s s
  next : {t u : Runtime} → Lives s t → RuntimeStep t u → Lives s u

-- An invariant of all steps is one of all reachable states.
pub lives_inv {ℓ} :
    (P : Runtime → Type ℓ)
    → ((t u : Runtime) → RuntimeStep t u → P t → P u)
    → (s t : Runtime) → Lives s t
    → P s
    → P t
lives_inv P keep s t begun h = h
lives_inv P keep s t (next {t = u} r st) h = keep u t st (lives_inv P keep s u r h)
