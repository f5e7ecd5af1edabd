-- ===== src/Segment/Sync.antt =====
-- The segment in the making follows the detector (`handle_vad_segment`, board/ws_server.cpp).
use voice_edge_monitor.Base.{◌≡◌, refl, true, false, Option, [], arith}
use voice_edge_monitor.Audio.{AudioFrame, Floats}
use voice_edge_monitor.Vad.{
  VadState, idle, starting, speaking, ending, VadEvent, EnergyVad, process, calculate_rms, reset,
  ended_event,
}
use voice_edge_monitor.Vad.Turns.{Turn, turn, stay, rise, fall, confirm, fade, resume, close}
use voice_edge_monitor.Segment.{Segmenter, handle_vad_segment, hear_frame}

module _ (f : Floats) where
  abbrev pub SyncedIn : VadState → Segmenter f → Type 0
  SyncedIn idle g = (g.segment_active ≡ false) × (g.segment_samples ≡ [])
  SyncedIn starting g = (g.segment_active ≡ true) × (g.segment_start_ms ≡ g.vad.candidate_start_ms)
  SyncedIn speaking g = (g.segment_active ≡ true) × (g.segment_start_ms ≡ g.vad.speech_start_ms)
  SyncedIn ending g = (g.segment_active ≡ true) × (g.segment_start_ms ≡ g.vad.speech_start_ms)

  -- A segment is active exactly when the detector has left `idle`, and starts where it says.
  abbrev pub IsSynced : Segmenter f → Type 0
  IsSynced g = SyncedIn g.vad.state g

  module _ (g : Segmenter f) (a : g.asr ≡ true) (frame : AudioFrame) where
    abbrev pub handled : EnergyVad f × Option VadEvent → Segmenter f
    handled r =
        handle_vad_segment f (record g { vad = r.0 }) frame
          (record { state = r.0.state; rms = calculate_rms f frame; event = r.1 })

    turned-IsSynced :
        (s : VadState) {r : EnergyVad f × Option VadEvent}
        → Turn f g.vad (calculate_rms f frame) frame.timestamp_ms s r
        → g.vad.state ≡ s
        → SyncedIn s g
        → IsSynced (handled r)
    unfolding handle_vad_segment ended_event reset
    turned-IsSynced s (stay idle) e h = ground arith
    turned-IsSynced s (stay starting) e h = ground arith
    turned-IsSynced s (stay speaking) e h = ground arith
    turned-IsSynced s (stay ending) e h = ground arith
    turned-IsSynced s rise e h = ground arith
    turned-IsSynced s fall e h = ground arith
    turned-IsSynced s confirm e h = ground arith
    turned-IsSynced s fade e h = ground arith
    turned-IsSynced s resume e h = ground arith
    turned-IsSynced s close e h = ground arith

    -- Every frame keeps the segment in step with the detector.
    pub hear_frame-IsSynced : IsSynced g → IsSynced (hear_frame f g frame)
    unfolding hear_frame process
    hear_frame-IsSynced h =
        turned-IsSynced g.vad.state (turn f g.vad (calculate_rms f frame) frame.timestamp_ms _) refl
          h
