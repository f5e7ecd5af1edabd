-- ===== src/Vad/Timing.antt =====
-- The times that `EnergyVAD` (board/energy_vad.hpp) keeps, and one frame's effect on them.
use voice_edge_monitor.Base.{
  ℕ, ◌+◌, ◌^◌, ◌≤◌, ◌<◌, ◌≡◌, refl, Option, none, some, arith, leb, if_elim, leb→le, subst, sym,
}
use voice_edge_monitor.Audio.{Floats}
use voice_edge_monitor.Vad.{
  VadState, idle, starting, speaking, ending, started, ended, VadEvent, VadConfig, EnergyVad,
  advance, add64, on_idle, on_starting, on_speaking, on_ending, ended_event,
}

module _ (f : Floats) where
  -- With the clock at `last`, in each state.
  abbrev pub TimedIn : VadState → EnergyVad f → ℕ → Type 0
  TimedIn idle v last = Unit
  TimedIn starting v last = v.candidate_start_ms ≤ last
  TimedIn speaking v last = v.speech_start_ms + v.config.min_speech_ms ≤ last
  TimedIn ending v last =
      (v.speech_start_ms + v.config.min_speech_ms ≤ v.silence_start_ms)
      × (v.silence_start_ms ≤ last)

  abbrev pub IsTimed : EnergyVad f → ℕ → Type 0
  IsTimed v last = TimedIn v.state v last

  -- No sum of a time and a configured duration reaches 2^64.
  pub record IsRepresentable (c : VadConfig f) (now : ℕ) : Type 0 where
    pub min_fits : now + c.min_speech_ms < 2 ^ 64
    pub silence_fits : now + c.silence_ms < 2 ^ 64

  -- The utterance that the detector is in: its start, once it is announced.
  abbrev pub open_in : VadState → EnergyVad f → Option ℕ
  open_in idle v = none
  open_in starting v = none
  open_in speaking v = some v.speech_start_ms
  open_in ending v = some v.speech_start_ms

  -- What one frame at `now` may announce, given the utterance it found open: nothing, and the
  -- utterance stays as it was; a start; or an end, at least min + silence after the start.
  pub data Announces (c : VadConfig f) (now : ℕ)
      : Option ℕ → Option ℕ → Option VadEvent → Type 0 where
    quiet : (u : Option ℕ) → Announces c now u u none
    start :
        (s : ℕ) (e : VadEvent)
        → e.type ≡ started
        → e.timestamp_ms ≡ s
        → s + c.min_speech_ms ≤ now
        → Announces c now none (some s) (some e)
    end :
        (s : ℕ) (e : VadEvent)
        → e.type ≡ ended
        → e.timestamp_ms ≡ now
        → e.duration_ms + s ≡ now
        → c.min_speech_ms + c.silence_ms ≤ e.duration_ms
        → Announces c now (some s) none (some e)

  abbrev pub open_of : EnergyVad f → Option ℕ
  open_of v = open_in v.state v

  -- What a handler owes for one frame.
  pub record Steps (v : EnergyVad f) (now : ℕ) (r : EnergyVad f × Option VadEvent) : Type 0 where
    pub timed : IsTimed r.0 now
    pub same_config : r.0.config ≡ v.config
    pub says : Announces v.config now (open_of v) (open_of r.0) r.1

  abbrev pub start_event : EnergyVad f → VadEvent
  start_event v = record { type = started; timestamp_ms = v.candidate_start_ms; duration_ms = 0 }

  module _ (v : EnergyVad f) (rms : f.Double) (now last : ℕ) (t : last ≤ now)
      (r : IsRepresentable v.config now) where
    -- A frame that changes nothing.
    stays : (s : VadState) → v.state ≡ s → TimedIn s v last → Steps v now (v, none)
    stays s e h = record {
      timed = subst (λ s. TimedIn s v now) (sym e) (later s h);
      same_config = refl;
      says = quiet (open_of v);
    }
      where
        later : (s : VadState) → TimedIn s v last → TimedIn s v now
        later idle h = tt
        later starting h = omega arith
        later speaking h = omega arith
        later ending h = omega arith

    idle-Steps : v.state ≡ idle → TimedIn idle v last → Steps v now (on_idle f v rms now)
    unfolding on_idle
    idle-Steps e h =
        if_elim (Steps v now) (f.le v.config.start_rms rms)
          (λ _. record {
            timed = omega arith;
            same_config = refl;
            says = subst (λ s. Announces v.config now (open_in s v) none none) (sym e) (quiet none);
          })
          (λ _. stays idle e h)

    starting-Steps :
        v.state ≡ starting → TimedIn starting v last → Steps v now (on_starting f v rms now)
    unfolding on_starting
    starting-Steps e h =
        if_elim (Steps v now) (f.lt rms v.config.end_rms)
          (λ _. record {
            timed = tt;
            same_config = refl;
            says = subst (λ s. Announces v.config now (open_in s v) none none) (sym e) (quiet none);
          })
          (λ _.
            if_elim (Steps v now) (leb (add64 v.candidate_start_ms v.config.min_speech_ms) now)
              (λ due. record {
                timed = omega (arith, leb→le _ _ due);
                same_config = refl;
                says =
                    subst
                      (λ s.
                        Announces v.config now (open_in s v) (some v.candidate_start_ms)
                          (some (start_event v)))
                      (sym e)
                      (start v.candidate_start_ms (start_event v) refl refl
                        (omega (arith, leb→le _ _ due)));
              })
              (λ _. stays starting e h))

    speaking-Steps :
        v.state ≡ speaking → TimedIn speaking v last → Steps v now (on_speaking f v rms now)
    unfolding on_speaking
    speaking-Steps e h =
        if_elim (Steps v now) (f.lt rms v.config.end_rms)
          (λ _. record {
            timed = omega arith;
            same_config = refl;
            says =
                subst (λ s. Announces v.config now (open_in s v) (some v.speech_start_ms) none)
                  (sym e) (quiet (some v.speech_start_ms));
          })
          (λ _. stays speaking e h)

    ending-Steps : v.state ≡ ending → TimedIn ending v last → Steps v now (on_ending f v rms now)
    unfolding on_ending ended_event
    ending-Steps e h =
        if_elim (Steps v now) (f.le v.config.start_rms rms)
          (λ _. record {
            timed = omega arith;
            same_config = refl;
            says =
                subst (λ s. Announces v.config now (open_in s v) (some v.speech_start_ms) none)
                  (sym e) (quiet (some v.speech_start_ms));
          })
          (λ _.
            if_elim (Steps v now) (leb (add64 v.silence_start_ms v.config.silence_ms) now)
              (λ due. record {
                timed = tt;
                same_config = refl;
                says =
                    subst
                      (λ s. Announces v.config now (open_in s v) none (some (ended_event f v now)))
                      (sym e)
                      (end v.speech_start_ms (ended_event f v now) refl refl
                        (omega (arith, leb→le _ _ due)) (omega (arith, leb→le _ _ due)));
              })
              (λ _. stays ending e h))

    -- Each frame keeps the times in order and announces only what is due.
    pub advance-Steps : IsTimed v last → Steps v now (advance f v.state v rms now)
    unfolding advance
    advance-Steps = go v.state refl
      where
        go : (s : VadState) → v.state ≡ s → TimedIn s v last → Steps v now (advance f s v rms now)
        go idle = idle-Steps
        go starting = starting-Steps
        go speaking = speaking-Steps
        go ending = ending-Steps
