-- ===== src/Vad/Tests.antt =====
-- Runs of `EnergyVAD` (board/energy_vad.hpp) over fixed-point levels, after
-- tests/energy_vad_test.cpp, and its theorems at concrete inputs.
use voice_edge_monitor.Base.{
  ℕ, ◌≡◌, refl, All, true, false, none, List, [], ◌∷◌, ◌++◌, ok, err, Error, arith,
}
use voice_edge_monitor.Audio.{AudioFrame}
use voice_edge_monitor.Audio.FixedPoint.{fixed}
use voice_edge_monitor.Vad.{
  idle, VadEvent, started, ended, VadConfig, EnergyVad, make, process, finish, calculate_rms,
}
use voice_edge_monitor.Vad.Timing.{open_of}
use voice_edge_monitor.Vad.Onset.{Starts, HasOnset}
use voice_edge_monitor.Vad.Utterances.{run_frames, emit, Utterances, utterances_paired}
use voice_edge_monitor.Vad.Alternation.{Alternates, session-Alternates}

-- 0.015 and 0.012 of full scale.
abbrev config : VadConfig fixed
config = record { start_rms = 491; end_rms = 393; min_speech_ms = 125; silence_ms = 1000 }

abbrev fresh : EnergyVad fixed
fresh = record {
  config = config;
  state = idle;
  candidate_start_ms = 0;
  speech_start_ms = 0;
  silence_start_ms = 0;
}

made : make fixed config ≡ ok fresh
unfolding make
made = refl

refused : make fixed (record config { silence_ms = 0 }) ≡ err Error.invalid_argument
unfolding make
refused = refl

abbrev frame_at : ℕ → List ℕ → AudioFrame
frame_at now samples = record {
  sequence = 0;
  timestamp_ms = now;
  sample_rate = 16000;
  channels = 1;
  samples = samples;
}

-- 3000, -3000 and 3000.
abbrev loud : ℕ → AudioFrame
loud now = frame_at now (3000 ∷ 62536 ∷ 3000 ∷ [])

abbrev silent : ℕ → AudioFrame
silent now = frame_at now (0 ∷ 0 ∷ 0 ∷ [])

level : calculate_rms fixed (loud 0) ≡ 2996
unfolding calculate_rms
level = refl

abbrev speech : List AudioFrame
speech = loud 0 ∷ loud 125 ∷ silent 250 ∷ silent 1250 ∷ loud 1500 ∷ []

abbrev heard : List VadEvent
heard =
    record { type = started; timestamp_ms = 0; duration_ms = 0 }
    ∷ record { type = ended; timestamp_ms = 1250; duration_ms = 1250 }
    ∷ []

speech-heard : (run_frames fixed fresh speech).1 ≡ heard
unfolding run_frames process
speech-heard = refl

utterances_paired_example :
    let r = run_frames fixed fresh speech in
    Utterances fixed config none r.1 (open_of fixed r.0)
    × All (Starts (λ t. HasOnset fixed config true t speech)) r.1
utterances_paired_example = utterances_paired fixed config fresh speech made (omega arith)

session-Alternates_example :
    let r = run_frames fixed fresh speech in
    let e = finish fixed r.0 1600 in
    Alternates false (r.1 ++ emit e.1 []) false × (e.0.state ≡ idle)
session-Alternates_example = session-Alternates fixed config fresh speech 1600 made
