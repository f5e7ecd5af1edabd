-- ===== src/Vad/Onset.antt =====
-- Where `EnergyVAD` (board/energy_vad.hpp) lets an utterance begin, in the frames themselves, and one
-- frame's effect on what it may announce.
use voice_edge_monitor.Base.{
  ℕ, ◌+◌, ◌≤◌, ◌≡◌, refl, sym, Bool, true, false, ◌||◌, not, ◌⊎◌, inl, inr, Option, none, some,
  List, [], ◌∷◌, leb, if_elim, leb→le, arith,
}
use voice_edge_monitor.Audio.{AudioFrame, Floats}
use voice_edge_monitor.Vad.{
  VadState, idle, starting, speaking, ending, VadEventType, started, ended, VadEvent, VadConfig,
  EnergyVad, advance, add64, on_idle, on_starting, on_speaking, on_ending, ended_event,
  calculate_rms,
}
use voice_edge_monitor.Vad.Timing.{TimedIn, IsTimed, IsRepresentable}

-- `P` of the time of an event that starts an utterance.
abbrev StartsIn : (ℕ → Type 0) → VadEventType → ℕ → Type 0
StartsIn P started t = P t
StartsIn P ended t = Unit

abbrev pub Starts : (ℕ → Type 0) → VadEvent → Type 0
Starts P e = StartsIn P e.type e.timestamp_ms

abbrev pub StartsOf : (ℕ → Type 0) → Option VadEvent → Type 0
StartsOf P none = Unit
StartsOf P (some e) = Starts P e

pub Starts-map :
    (P Q : ℕ → Type 0) → ((t : ℕ) → P t → Q t) → (e : VadEvent) → Starts P e → Starts Q e
Starts-map P Q h e k = go e.type k
  where
    go : (x : VadEventType) → StartsIn P x e.timestamp_ms → StartsIn Q x e.timestamp_ms
    go started k = h e.timestamp_ms k
    go ended k = tt

module _ (f : Floats) where
  module _ (c : VadConfig f) where
    abbrev is_loud : AudioFrame → Bool
    is_loud frame = f.le c.start_rms (calculate_rms f frame)

    abbrev falls : AudioFrame → Bool
    falls frame = f.lt (calculate_rms f frame) c.end_rms

    -- No frame falls below `end_rms` up to one that comes `min_speech_ms` or more after `t`.
    abbrev pub Sustained : ℕ → List AudioFrame → Type 0
    Sustained t [] = ⊥
    Sustained t (frame ∷ frames) =
        (falls frame ≡ false) × ((t + c.min_speech_ms ≤ frame.timestamp_ms) ⊎ Sustained t frames)

    abbrev pub is_soft : AudioFrame → Bool
    is_soft frame = falls frame || not (is_loud frame)

    -- One of the frames has the time `t`, is loud, is the first one or stands behind one that is not loud
    -- or falls below `end_rms`, and is sustained by those that follow. `b` is that for the frame
    -- in front of all.
    abbrev pub HasOnset : Bool → ℕ → List AudioFrame → Type 0
    HasOnset b t [] = ⊥
    HasOnset b t (frame ∷ frames) =
        ((b ≡ true) × (frame.timestamp_ms ≡ t) × (is_loud frame ≡ true) × Sustained t frames)
        ⊎ HasOnset (is_soft frame) t frames

  -- A start at `t` from the state `v` on: from one of the frames, or from the one that `v` stands by.
  abbrev pub Begun : EnergyVad f → Bool → List AudioFrame → ℕ → Type 0
  Begun v b frames t =
      HasOnset v.config b t frames
      ⊎ ((v.state ≡ starting) × (t ≡ v.candidate_start_ms) × Sustained v.config t frames)

  module _ (v : EnergyVad f) (b : Bool) (frame : AudioFrame) (frames : List AudioFrame) where
    -- What a handler owes for the first of the frames.
    pub record Begins (r : EnergyVad f × Option VadEvent) : Type 0 where
      pub lifted :
          (t : ℕ)
          → r.0.state ≡ starting
          → t ≡ r.0.candidate_start_ms
          → Sustained v.config t frames
          → Begun v b (frame ∷ frames) t
      pub began : StartsOf (Begun v b (frame ∷ frames)) r.1
      pub softly : r.0.state ≡ idle → is_soft v.config frame ≡ true

    module _ (last : ℕ) (l : last ≤ frame.timestamp_ms)
        (w : IsRepresentable f v.config frame.timestamp_ms) where
      abbrev rms : f.Double
      rms = calculate_rms f frame

      abbrev now : ℕ
      now = frame.timestamp_ms

      idle-Begins : v.state ≡ idle → b ≡ true → Begins (on_idle f v rms now)
      unfolding on_idle
      idle-Begins e hb =
          if_elim Begins (f.le v.config.start_rms rms)
            (λ q. record {
              lifted = λ t s p k. inl (inl (hb, sym p, q, k));
              began = tt;
              softly = λ s. absurd (ground arith);
            })
            (λ q. record {
              lifted = λ t s p k. absurd (ground arith);
              began = tt;
              softly = λ s. ground arith;
            })

      starting-Begins :
          v.state ≡ starting → v.candidate_start_ms ≤ last → Begins (on_starting f v rms now)
      unfolding on_starting
      starting-Begins e h =
          if_elim Begins (f.lt rms v.config.end_rms)
            (λ q. record {
              lifted = λ t s p k. absurd (ground arith);
              began = tt;
              softly = λ s. ground arith;
            })
            (λ q.
              if_elim Begins (leb (add64 v.candidate_start_ms v.config.min_speech_ms) now)
                (λ due. record {
                  lifted = λ t s p k. absurd (ground arith);
                  began = inr (e, refl, (q, inl (omega (arith, leb→le _ _ due, w.min_fits, l, h))));
                  softly = λ s. absurd (ground arith);
                })
                (λ _. record {
                  lifted = λ t s p k. inr (e, p, (q, inr k));
                  began = tt;
                  softly = λ s. absurd (ground arith);
                }))

      speaking-Begins : v.state ≡ speaking → Begins (on_speaking f v rms now)
      unfolding on_speaking
      speaking-Begins e =
          if_elim Begins (f.lt rms v.config.end_rms)
            (λ _. record {
              lifted = λ t s p k. absurd (ground arith);
              began = tt;
              softly = λ s. absurd (ground arith);
            })
            (λ _. record {
              lifted = λ t s p k. absurd (ground arith);
              began = tt;
              softly = λ s. absurd (ground arith);
            })

      ending-Begins : v.state ≡ ending → Begins (on_ending f v rms now)
      unfolding on_ending ended_event
      ending-Begins e =
          if_elim Begins (f.le v.config.start_rms rms)
            (λ _. record {
              lifted = λ t s p k. absurd (ground arith);
              began = tt;
              softly = λ s. absurd (ground arith);
            })
            (λ q.
              if_elim Begins (leb (add64 v.silence_start_ms v.config.silence_ms) now)
                (λ _. record {
                  lifted = λ t s p k. absurd (ground arith);
                  began = tt;
                  softly = λ s. ground arith;
                })
                (λ _. record {
                  lifted = λ t s p k. absurd (ground arith);
                  began = tt;
                  softly = λ s. absurd (ground arith);
                }))

      -- Each frame begins an utterance only where one is due.
      pub advance-Begins :
          IsTimed f v last → (v.state ≡ idle → b ≡ true) → Begins (advance f v.state v rms now)
      unfolding advance
      advance-Begins timed hb = go v.state refl timed
        where
          go : (s : VadState) → v.state ≡ s → TimedIn f s v last → Begins (advance f s v rms now)
          go idle e h = idle-Begins e (hb e)
          go starting e h = starting-Begins e h
          go speaking e h = speaking-Begins e
          go ending e h = ending-Begins e
