-- ===== src/Pipeline/Steps.antt =====
-- The threads of the pipeline probe (board/pipeline_probe.cpp), interleaved in any order.
use voice_edge_monitor.Base.{◌≡◌, Bool, some}
use voice_edge_monitor.Audio.{Floats}
use voice_edge_monitor.Levels.{Meter}
use voice_edge_monitor.Pipeline.{
  Input, Pipeline, capture_step, processing_step, monitor_step, request_stop,
}

module _ (f : Floats) (m : Meter f) where
  pub data Step (s : Pipeline f) : Pipeline f → Type 0 where
    captures : (i : Input) (t : Pipeline f) → capture_step f i s ≡ some t → Step s t
    processes :
        (timed_out : Bool) (t : Pipeline f) → processing_step f m timed_out s ≡ some t → Step s t
    monitors : (timed_out : Bool) (t : Pipeline f) → monitor_step f timed_out s ≡ some t → Step s t
    requests : (t : Pipeline f) → request_stop f s ≡ some t → Step s t

  pub data Reach (s : Pipeline f) : Pipeline f → Type 0 where
    here : Reach s s
    next : {t u : Pipeline f} → Reach s t → Step t u → Reach s u

  -- An invariant of all steps is one of all reachable states.
  pub reach_inv {ℓ} :
      (P : Pipeline f → Type ℓ)
      → ((t u : Pipeline f) → Step t u → P t → P u)
      → (s t : Pipeline f) → Reach s t
      → P s
      → P t
  reach_inv P keep s t here h = h
  reach_inv P keep s t (next {t = u} r st) h = keep u t st (reach_inv P keep s u r h)
