-- ===== src/Vad/Utterances.antt =====
-- What `EnergyVAD` (board/energy_vad.hpp) announces over a whole capture.
use voice_edge_monitor.Base.{
  ℕ, Bool, true, inl, inr, All, ◌+◌, ◌≤◌, ◌≡◌, refl, Option, none, some, arith, List, [], ◌∷◌,
  subst, sym, ◌∙◌, ok,
}
use voice_edge_monitor.Audio.{AudioFrame, Floats}
use voice_edge_monitor.Vad.{
  idle, started, ended, VadEvent, VadConfig, EnergyVad, advance, make, process, calculate_rms,
}
use voice_edge_monitor.Vad.Onset.{
  Starts, StartsOf, Starts-map, Sustained, HasOnset, Begun, is_soft, advance-Begins,
}
use voice_edge_monitor.Vad.Timing.{
  IsTimed, IsRepresentable, Announces, quiet, start, end, open_of, advance-Steps,
}

abbrev pub emit : Option VadEvent → List VadEvent → List VadEvent
emit none es = es
emit (some e) es = e ∷ es

module _ (f : Floats) where
  -- The frames of a capture: their times do not fall, and stay clear of 2^64.
  abbrev pub InOrder : VadConfig f → ℕ → List AudioFrame → Type 0
  InOrder c last [] = Unit
  InOrder c last (frame ∷ frames) =
      (last ≤ frame.timestamp_ms)
      × IsRepresentable f c frame.timestamp_ms
      × InOrder c frame.timestamp_ms frames

  -- The detector after the frames, and the events of its decisions.
  unfoldable pub run_frames : EnergyVad f → List AudioFrame → EnergyVad f × List VadEvent
  run_frames v [] = (v, [])
  run_frames v (frame ∷ frames) =
      let (v', decision) = process f v frame in
      let (w, events) = run_frames v' frames in (w, emit decision.event events)

  -- Utterances one after the other, `u` the one that is open at first and `w` the one at the end:
  -- a start, then its end, at least `min_speech_ms + silence_ms` later, with the duration right.
  abbrev pub Utterances : VadConfig f → Option ℕ → List VadEvent → Option ℕ → Type 0
  Utterances c u [] w = u ≡ w
  Utterances c none (e ∷ es) w = (e.type ≡ started) × Utterances c (some e.timestamp_ms) es w
  Utterances c (some s) (e ∷ es) w =
      (e.type ≡ ended)
      × (e.duration_ms + s ≡ e.timestamp_ms)
      × (c.min_speech_ms + c.silence_ms ≤ e.duration_ms)
      × Utterances c none es w

  prepend :
      (c : VadConfig f) (now : ℕ) (u w z : Option ℕ) (o : Option VadEvent) (es : List VadEvent)
      → Announces f c now u w o
      → Utterances c w es z
      → Utterances c u (emit o es) z
  prepend c now u w z o es (quiet x) h = h
  prepend c now u w z o es (start s e p q r) h =
      (p, subst (λ s. Utterances c (some s) es z) (sym q) h)
  prepend c now u w z o es (end s e p q r d) h = (p, r ∙ sym q, d, h)

  run-Utterances :
      (frames : List AudioFrame) (v : EnergyVad f) (c : VadConfig f) (last : ℕ)
      → v.config ≡ c
      → IsTimed f v last
      → InOrder c last frames
      → let r = run_frames v frames in Utterances c (open_of f v) r.1 (open_of f r.0)
  unfolding run_frames process
  run-Utterances [] v c last e t o = refl
  run-Utterances (frame ∷ frames) v c last e t o =
      let now = frame.timestamp_ms in
      let rms = calculate_rms f frame in
      let s =
        advance-Steps f v rms now last o.0 (subst (λ c. IsRepresentable f c now) (sym e) o.1) t in
      let (v', event) = advance f v.state v rms now in
      let r = run_frames v' frames in
      prepend c now (open_of f v) (open_of f v') (open_of f r.0) event r.1
        (subst (λ c. Announces f c now (open_of f v) (open_of f v') event) e s.says)
        (run-Utterances frames v' c now (s.same_config ∙ e) s.timed o.2)

  Starts-All :
      (P Q : ℕ → Type 0) (es : List VadEvent)
      → ((t : ℕ) → P t → Q t)
      → All (Starts P) es
      → All (Starts Q) es
  Starts-All P Q [] h a = tt
  Starts-All P Q (e ∷ es) h (a, rest) = (Starts-map P Q h e a, Starts-All P Q es h rest)

  Starts-prepend :
      (P Q : ℕ → Type 0) (o : Option VadEvent) (es : List VadEvent)
      → ((t : ℕ) → P t → Q t)
      → StartsOf Q o
      → All (Starts P) es
      → All (Starts Q) (emit o es)
  Starts-prepend P Q none es h k a = Starts-All P Q es h a
  Starts-prepend P Q (some x) es h k a = (k, Starts-All P Q es h a)

  -- Each announced start is one of the frames' onsets, or that of the candidate of `v`.
  run-Begun :
      (frames : List AudioFrame) (v : EnergyVad f) (c : VadConfig f) (b : Bool) (last : ℕ)
      → v.config ≡ c
      → IsTimed f v last
      → InOrder c last frames
      → (v.state ≡ idle → b ≡ true)
      → All (Starts (Begun f v b frames)) (run_frames v frames).1
  unfolding run_frames process
  run-Begun [] v c b last e t o h = tt
  run-Begun (frame ∷ frames) v c b last e t o h =
      let now = frame.timestamp_ms in
      let rms = calculate_rms f frame in
      let fits = subst (λ c. IsRepresentable f c now) (sym e) o.1 in
      let s = advance-Steps f v rms now last o.0 fits t in
      let k = advance-Begins f v b frame frames last o.0 fits t h in
      let (v', event) = advance f v.state v rms now in
      let b' = is_soft f v.config frame in
      Starts-prepend (Begun f v' b' frames) (Begun f v b (frame ∷ frames)) event
        (run_frames v' frames).1
        (λ t q. elim q [
          | inl x ↦ inl (inr (subst (λ c. HasOnset f c b' t frames) s.same_config x))
          | inr (st, p, x) ↦ k.lifted t st p (subst (λ c. Sustained f c t frames) s.same_config x)
        ])
        k.began (run-Begun frames v' c b' now (s.same_config ∙ e) s.timed o.2 k.softly)

  onset_only :
      (v : EnergyVad f) (c : VadConfig f) (frames : List AudioFrame) (t : ℕ)
      → v.config ≡ c
      → v.state ≡ idle
      → Begun f v true frames t
      → HasOnset f c true t frames
  onset_only v c frames t e s (inl x) = subst (λ c. HasOnset f c true t frames) e x
  onset_only v c frames t e s (inr (st, p, x)) = absurd (ground arith)

  -- A detector that has just been made, fed frames in time order and clear of 2^64: every
  -- utterance is announced once, and ended once, `min_speech_ms + silence_ms` or more after its
  -- start, with the exact duration; the last one may still be open, and is then the one in the state.
  -- The start that is announced is the time of one of the frames, which is loud, and the first frame
  -- or one behind a frame that is not loud or below `end_rms`; and none of the frames behind it falls
  -- below `end_rms` until one has come `min_speech_ms` or more after it.
  pub utterances_paired :
      (c : VadConfig f) (v : EnergyVad f) (frames : List AudioFrame)
      → make f c ≡ ok v
      → InOrder c 0 frames
      → let r = run_frames v frames in
        Utterances c none r.1 (open_of f r.0) × All (Starts (λ t. HasOnset f c true t frames)) r.1
  utterances_paired c v frames e o =
      let r = run_frames v frames in
      (
        subst (λ s. Utterances c s r.1 (open_of f r.0)) (fresh_open c v e)
            (run-Utterances frames v c 0 (fresh_config c v e) (fresh_timed c v e) o),
        Starts-All (Begun f v true frames) (λ t. HasOnset f c true t frames) r.1
            (λ t. onset_only v c frames t (fresh_config c v e) (fresh_idle c v e))
            (run-Begun frames v c true 0 (fresh_config c v e) (fresh_timed c v e) o (λ _. refl)),
      )
    where
      fresh_config : (c : VadConfig f) (v : EnergyVad f) → make f c ≡ ok v → v.config ≡ c
      fresh_config c v e = unfold make in ground arith

      fresh_open : (c : VadConfig f) (v : EnergyVad f) → make f c ≡ ok v → open_of f v ≡ none
      fresh_open c v e = unfold make in ground arith

      fresh_idle : (c : VadConfig f) (v : EnergyVad f) → make f c ≡ ok v → v.state ≡ idle
      fresh_idle c v e = unfold make in ground arith

      fresh_timed : (c : VadConfig f) (v : EnergyVad f) → make f c ≡ ok v → IsTimed f v 0
      fresh_timed c v e = unfold make in ground arith
