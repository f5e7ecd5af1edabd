-- ===== src/Vad.antt =====
-- board/energy_vad.hpp: the energy voice-activity detector `EnergyVAD`. Times are `uint64_t`, so
-- the sums and differences of the source wrap at 2^64.
pub mod Timing
pub mod Onset
pub mod Utterances
pub mod Alternation
pub mod Turns
mod Tests
use voice_edge_monitor.Base.{
  ℕ, zero, suc, ◌+◌, ◌-◌, ◌%◌, ◌^◌, ◌≡◌, Bool, true, false, ◌||◌, ◌&&◌, not, Option, none, some,
  List, [], ◌∷◌, leb, ltb, ◌==◌, if◌then◌else◌, length, Result, Error, ok, err,
}
use voice_edge_monitor.Base.Int.{signed16, pos}
use voice_edge_monitor.Audio.{AudioFrame, Floats}

pub data VadState : Type 0 where
  idle starting speaking ending : VadState

pub data VadEventType : Type 0 where
  started ended : VadEventType

pub record VadEvent : Type 0 where
  pub type : VadEventType
  pub timestamp_ms : ℕ
  pub duration_ms : ℕ

-- `uint64_t` sum and difference.
abbrev pub add64 : ℕ → ℕ → ℕ
add64 a b = (a + b) % 2 ^ 64

abbrev pub sub64 : ℕ → ℕ → ℕ
sub64 a b = (a + 2 ^ 64 - b) % 2 ^ 64

module _ (f : Floats) where
  open f use {Double, LongDouble, lt, le, zero_double, one_double}

  pub record VadConfig : Type 0 where
    pub start_rms : Double
    pub end_rms : Double
    pub min_speech_ms : ℕ
    pub silence_ms : ℕ

  pub record VadDecision : Type 0 where
    pub state : VadState
    pub rms : Double
    pub event : Option VadEvent

  pub record EnergyVad : Type 0 where
    pub config : VadConfig
    pub state : VadState
    pub candidate_start_ms : ℕ
    pub speech_start_ms : ℕ
    pub silence_start_ms : ℕ

  -- The constructor.
  unfoldable pub make : VadConfig → Result EnergyVad
  make c =
      if not (lt zero_double c.start_rms && le c.start_rms one_double)
        || (not (le zero_double c.end_rms && le c.end_rms c.start_rms)
            || (c.min_speech_ms == 0 || c.silence_ms == 0))
      then err Error.invalid_argument
      else ok (record {
        config = c;
        state = idle;
        candidate_start_ms = 0;
        speech_start_ms = 0;
        silence_start_ms = 0;
      })

  unfoldable pub sum_squares : List ℕ → LongDouble → LongDouble
  sum_squares [] acc = acc
  sum_squares (s ∷ ss) acc =
      let x = f.div_long (f.of_int (signed16 s)) (f.of_int (pos 32768)) in
      sum_squares ss (f.add_long acc (f.mul_long x x))

  rms_of : List ℕ → Double
  unfolding sum_squares
  rms_of [] = zero_double
  rms_of (s ∷ ss) =
      f.sqrt
        (f.narrow (f.div_long (sum_squares (s ∷ ss) f.zero_long) (f.of_size (length (s ∷ ss)))))

  unfoldable pub calculate_rms : AudioFrame → Double
  unfolding rms_of
  calculate_rms frame = rms_of frame.samples

  -- The four cases of the switch in `process`, each on the level and the time of the frame.
  unfoldable pub on_idle : EnergyVad → Double → ℕ → EnergyVad × Option VadEvent
  on_idle v rms now =
      if le v.config.start_rms rms
      then (record v { state = starting; candidate_start_ms = now }, none)
      else (v, none)

  unfoldable pub on_starting : EnergyVad → Double → ℕ → EnergyVad × Option VadEvent
  on_starting v rms now =
      if lt rms v.config.end_rms
      then (record v { state = idle; candidate_start_ms = 0 }, none)
      else if leb (add64 v.candidate_start_ms v.config.min_speech_ms) now
      then (
        record v { state = speaking; speech_start_ms = v.candidate_start_ms },
        some (record { type = started; timestamp_ms = v.candidate_start_ms; duration_ms = 0 }),
      )
      else (v, none)

  unfoldable pub on_speaking : EnergyVad → Double → ℕ → EnergyVad × Option VadEvent
  on_speaking v rms now =
      if lt rms v.config.end_rms
      then (record v { state = ending; silence_start_ms = now }, none)
      else (v, none)

  -- The event that closes an utterance at `now`.
  unfoldable pub ended_event : EnergyVad → ℕ → VadEvent
  ended_event v now = record {
    type = ended;
    timestamp_ms = now;
    duration_ms = sub64 now v.speech_start_ms;
  }

  unfoldable pub reset : EnergyVad → EnergyVad
  reset v = record v {
    state = idle;
    candidate_start_ms = 0;
    speech_start_ms = 0;
    silence_start_ms = 0;
  }

  unfoldable pub on_ending : EnergyVad → Double → ℕ → EnergyVad × Option VadEvent
  unfolding ended_event
  on_ending v rms now =
      if le v.config.start_rms rms
      then (record v { state = speaking }, none)
      else if leb (add64 v.silence_start_ms v.config.silence_ms) now
      then (
        record v {
          state = idle;
          candidate_start_ms = 0;
          speech_start_ms = 0;
          silence_start_ms = 0;
        },
        some (ended_event v now),
      )
      else (v, none)

  unfoldable pub advance : VadState → EnergyVad → Double → ℕ → EnergyVad × Option VadEvent
  unfolding on_idle on_starting on_speaking on_ending
  advance idle = on_idle
  advance starting = on_starting
  advance speaking = on_speaking
  advance ending = on_ending

  unfoldable pub process : EnergyVad → AudioFrame → EnergyVad × VadDecision
  unfolding advance calculate_rms
  process v frame =
      let rms = calculate_rms frame in
      let (v', event) = advance v.state v rms frame.timestamp_ms in
      (v', record { state = v'.state; rms = rms; event = event })

  finish_in : VadState → EnergyVad → ℕ → EnergyVad × Option VadEvent
  unfolding ended_event reset
  finish_in idle v now = (record v { state = idle }, none)
  finish_in starting v now = (record v { state = idle }, none)
  finish_in speaking v now = (reset v, some (ended_event v now))
  finish_in ending v now = (reset v, some (ended_event v now))

  unfoldable pub finish : EnergyVad → ℕ → EnergyVad × Option VadEvent
  unfolding finish_in
  finish v now = finish_in v.state v now
