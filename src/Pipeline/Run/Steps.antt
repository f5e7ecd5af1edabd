-- ===== src/Pipeline/Run/Steps.antt =====
-- All threads of `run_pipeline` (board/pipeline_probe.cpp), interleaved in any order, with that of the
-- recorder.
use voice_edge_monitor.Base.{◌≡◌, Bool, some}
use voice_edge_monitor.Audio.{Floats}
use voice_edge_monitor.Levels.{Meter}
use voice_edge_monitor.Recorder.{Environment, Recording, Store, worker_step}
use voice_edge_monitor.Pipeline.{Input, Pipeline, capture_step, processing_step, monitor_step}
use voice_edge_monitor.Pipeline.Run.{Run, main_step, asr_step}

module _ (f : Floats) (m : Meter f) where
  pub data RunStep (s : Run f) : Run f → Type 0 where
    ends : (t : Run f) → main_step f s ≡ some t → RunStep s t
    captures :
        (i : Input) (p : Pipeline f)
        → capture_step f i s.pipeline ≡ some p
        → RunStep s (record s { pipeline = p })
    processes :
        (timed_out : Bool) (p : Pipeline f)
        → processing_step f m timed_out s.pipeline ≡ some p
        → RunStep s (record s { pipeline = p })
    monitors :
        (timed_out : Bool) (p : Pipeline f)
        → monitor_step f timed_out s.pipeline ≡ some p
        → RunStep s (record s { pipeline = p })
    recognises :
        (timed_out : Bool) (r : Recording) (t : Run f)
        → asr_step f timed_out r s ≡ some t
        → RunStep s t
    persists :
        (e : Environment) (timed_out : Bool) (store kept : Store)
        → s.recording_store ≡ some store
        → worker_step e timed_out store ≡ some kept
        → RunStep s (record s { recording_store = some kept })

  pub data Runs (s : Run f) : Run f → Type 0 where
    begun : Runs s s
    next : {t u : Run f} → Runs s t → RunStep t u → Runs s u

  -- An invariant of all steps is one of all reachable states.
  pub runs_inv {ℓ} :
      (P : Run f → Type ℓ)
      → ((t u : Run f) → RunStep t u → P t → P u)
      → (s t : Run f) → Runs s t
      → P s
      → P t
  runs_inv P keep s t begun h = h
  runs_inv P keep s t (next {t = u} r st) h = keep u t st (runs_inv P keep s u r h)
