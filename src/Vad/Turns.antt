-- ===== src/Vad/Turns.antt =====
-- The moves of `EnergyVAD` on one frame (board/energy_vad.hpp), as a relation to argue by cases on.
use voice_edge_monitor.Base.{ℕ, Option, none, some, if_elim, leb}
use voice_edge_monitor.Audio.{Floats}
use voice_edge_monitor.Vad.{
  VadState, idle, starting, speaking, ending, VadEvent, started, EnergyVad, advance, ended_event,
  add64, reset,
}

module _ (f : Floats) where
  pub data Turn (v : EnergyVad f) (rms : f.Double) (now : ℕ)
      : VadState → EnergyVad f × Option VadEvent → Type 0 where
    stay : (s : VadState) → Turn v rms now s (v, none)
    rise : Turn v rms now idle (record v { state = starting; candidate_start_ms = now }, none)
    fall : Turn v rms now starting (record v { state = idle; candidate_start_ms = 0 }, none)
    confirm : Turn v rms now starting (
      record v { state = speaking; speech_start_ms = v.candidate_start_ms },
      some (record { type = started; timestamp_ms = v.candidate_start_ms; duration_ms = 0 }),
    )
    fade : Turn v rms now speaking (record v { state = ending; silence_start_ms = now }, none)
    resume : Turn v rms now ending (record v { state = speaking }, none)
    close : Turn v rms now ending (reset f v, some (ended_event f v now))

  pub turn :
      (v : EnergyVad f) (rms : f.Double) (now : ℕ) (s : VadState)
      → Turn v rms now s (advance f s v rms now)
  unfolding advance reset
  turn v rms now idle =
      if_elim (Turn v rms now idle) (f.le v.config.start_rms rms) (λ _. rise) (λ _. stay idle)
  turn v rms now starting =
      if_elim (Turn v rms now starting) (f.lt rms v.config.end_rms) (λ _. fall)
        (λ _.
          if_elim (Turn v rms now starting)
            (leb (add64 v.candidate_start_ms v.config.min_speech_ms) now) (λ _. confirm)
            (λ _. stay starting))
  turn v rms now speaking =
      if_elim (Turn v rms now speaking) (f.lt rms v.config.end_rms) (λ _. fade) (λ _. stay speaking)
  turn v rms now ending =
      if_elim (Turn v rms now ending) (f.le v.config.start_rms rms) (λ _. resume)
        (λ _.
          if_elim (Turn v rms now ending) (leb (add64 v.silence_start_ms v.config.silence_ms) now)
            (λ _. close) (λ _. stay ending))
