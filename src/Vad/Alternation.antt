-- ===== src/Vad/Alternation.antt =====
-- The order of the events of `EnergyVAD` (board/energy_vad.hpp), whatever the times of the frames.
use voice_edge_monitor.Base.{
  ℕ, ◌≡◌, refl, Bool, true, false, Option, none, some, arith, List, [], ◌∷◌, ◌++◌, ok, subst, sym,
}
use voice_edge_monitor.Audio.{AudioFrame, Floats}
use voice_edge_monitor.Vad.{
  VadState, idle, starting, speaking, ending, started, ended, VadEvent, VadConfig, EnergyVad,
  advance, make, process, finish, calculate_rms,
}
use voice_edge_monitor.Vad.Utterances.{run_frames, emit}

-- Starts and ends in turn, an utterance being open at first as `a` says, and at the end as `b`.
abbrev pub Alternates : Bool → List VadEvent → Bool → Type 0
Alternates a [] b = a ≡ b
Alternates false (e ∷ es) b = (e.type ≡ started) × Alternates true es b
Alternates true (e ∷ es) b = (e.type ≡ ended) × Alternates false es b

abbrev pub is_open : VadState → Bool
is_open idle = false
is_open starting = false
is_open speaking = true
is_open ending = true

Alternates-append :
    (a b c : Bool) (es fs : List VadEvent)
    → Alternates a es b
    → Alternates b fs c
    → Alternates a (es ++ fs) c
Alternates-append a b c [] fs h k = subst (λ x. Alternates x fs c) (sym h) k
Alternates-append false b c (e ∷ es) fs h k = (h.0, Alternates-append true b c es fs h.1 k)
Alternates-append true b c (e ∷ es) fs h k = (h.0, Alternates-append false b c es fs h.1 k)

module _ (f : Floats) where
  -- One event turns the flag, none leaves it.
  abbrev Turns : Bool → Option VadEvent → Bool → Type 0
  Turns a none b = a ≡ b
  Turns false (some e) b = (e.type ≡ started) × (b ≡ true)
  Turns true (some e) b = (e.type ≡ ended) × (b ≡ false)

  Turns-emit :
      (a b c : Bool) (o : Option VadEvent) (es : List VadEvent)
      → Turns a o b
      → Alternates b es c
      → Alternates a (emit o es) c
  Turns-emit a b c none es t h = subst (λ x. Alternates x es c) (sym t) h
  Turns-emit false b c (some e) es t h = (t.0, subst (λ x. Alternates x es c) t.1 h)
  Turns-emit true b c (some e) es t h = (t.0, subst (λ x. Alternates x es c) t.1 h)

  advance-Turns :
      (s : VadState) (v : EnergyVad f) (rms : f.Double) (now : ℕ)
      → v.state ≡ s
      → let r = advance f s v rms now in Turns (is_open s) r.1 (is_open r.0.state)
  unfolding advance
  advance-Turns idle v rms now e = ground arith
  advance-Turns starting v rms now e = ground arith
  advance-Turns speaking v rms now e = ground arith
  advance-Turns ending v rms now e = ground arith

  run-Alternates :
      (frames : List AudioFrame) (v : EnergyVad f)
      → let r = run_frames f v frames in Alternates (is_open v.state) r.1 (is_open r.0.state)
  unfolding run_frames process
  run-Alternates [] v = refl
  run-Alternates (frame ∷ frames) v =
      let (v', event) = advance f v.state v (calculate_rms f frame) frame.timestamp_ms in
      let r = run_frames f v' frames in
      Turns-emit (is_open v.state) (is_open v'.state) (is_open r.0.state) event r.1
        (advance-Turns v.state v (calculate_rms f frame) frame.timestamp_ms refl)
        (run-Alternates frames v')

  finish-Turns :
      (v : EnergyVad f) (now : ℕ)
      → let r = finish f v now in Turns (is_open v.state) r.1 false × (r.0.state ≡ idle)
  unfolding finish
  finish-Turns v now = ground arith

  -- The events of a whole session, closed by `finish`: whatever the frames' levels and times, they
  -- are starts and ends in turn, from a start to an end, and the detector is idle afterwards.
  pub session-Alternates :
      (c : VadConfig f) (v : EnergyVad f) (frames : List AudioFrame) (now : ℕ)
      → make f c ≡ ok v
      → let r = run_frames f v frames in
        let e = finish f r.0 now in Alternates false (r.1 ++ emit e.1 []) false × (e.0.state ≡ idle)
  session-Alternates c v frames now m =
      let r = run_frames f v frames in
      let (e, i) = finish-Turns r.0 now in
      (
        Alternates-append false (is_open r.0.state) false r.1 _
            (subst (λ s. Alternates (is_open s) r.1 (is_open r.0.state)) fresh
              (run-Alternates frames v))
            (Turns-emit (is_open r.0.state) false false _ [] e refl),
        i,
      )
    where
      fresh : v.state ≡ idle
      fresh = unfold make in ground arith
