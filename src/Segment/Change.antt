-- ===== src/Segment/Change.antt =====
-- What one captured frame does to the segment in the making (board/ws_server.cpp).
use voice_edge_monitor.Base.{
  ◌+◌, ◌-◌, ◌≤◌, ◌≡◌, refl, ◌⊎◌, Bool, true, false, ◌&&◌, Option, none, some, ◌++◌, arith, leb, ltb,
  Bool-cases, inl, inr,
}
use voice_edge_monitor.Audio.{AudioFrame, SpeechSegment, Floats}
use voice_edge_monitor.Queue.{try_push}
use voice_edge_monitor.Vad.{
  VadState, started, idle, starting, speaking, ending, VadEvent, EnergyVad, process, calculate_rms,
  reset, ended_event,
}
use voice_edge_monitor.Vad.Timing.{start_event}
use voice_edge_monitor.Vad.Turns.{Turn, turn, stay, rise, fall, confirm, fade, resume, close}
use voice_edge_monitor.Segment.{Segmenter, handle_vad_segment, hear_frame, is_idle}
use voice_edge_monitor.Segment.Sync.{SyncedIn, IsSynced, handled}

module _ (f : Floats) where
  -- The segment that is submitted when the utterance ends with `frame`.
  abbrev pub closing : Segmenter f → AudioFrame → SpeechSegment
  closing g frame = record {
    id = g.next_segment_id;
    start_timestamp_ms = g.segment_start_ms;
    end_timestamp_ms = frame.timestamp_ms;
    sample_rate = frame.sample_rate;
    channels = frame.channels;
    samples = g.segment_samples ++ frame.samples;
  }

  pub data Change (g : Segmenter f) (frame : AudioFrame) (g' : Segmenter f) : Type 0 where
    idles : g'.segment_active ≡ false → g'.asr_queue ≡ g.asr_queue → Change g frame g'
    opens :
        g'.segment_active ≡ true
        → g'.segment_samples ≡ frame.samples
        → g'.segment_start_ms ≡ frame.timestamp_ms
        → g'.asr_queue ≡ g.asr_queue
        → Change g frame g'
    extends :
        g.segment_active ≡ true
        → g'.segment_active ≡ true
        → g'.segment_samples ≡ g.segment_samples ++ frame.samples
        → g'.segment_start_ms ≡ g.segment_start_ms
        → g'.asr_queue ≡ g.asr_queue
        → Change g frame g'
    submits :
        g.segment_active ≡ true
        → g'.segment_active ≡ false
        → g'.asr_queue ≡ (try_push (closing g frame) g.asr_queue).0
        → frame.timestamp_ms ≤ g.segment_start_ms + g.max_segment_ms
        → Change g frame g'

  module _ (g : Segmenter f) (a : g.asr ≡ true) (frame : AudioFrame) where
    abbrev over : Bool
    over =
        leb g.segment_start_ms frame.timestamp_ms
        && ltb g.max_segment_ms (frame.timestamp_ms - g.segment_start_ms)

    -- An active segment, while the utterance goes on, overflows or grows by the frame.
    continues :
        (v : EnergyVad f) (event : Option VadEvent)
        → is_idle v.state ≡ false
        → (event ≡ none) ⊎ ((e : VadEvent) × (event ≡ some e) × (e.type ≡ started))
        → g.segment_active ≡ true
        → Change g frame (handled f g a frame (v, event))
    unfolding handle_vad_segment
    continues v event i q h = elim (Bool-cases over) [
      | inl o ↦ idles (ground arith) (ground arith)
      | inr o ↦ extends h (ground arith) (ground arith) (ground arith) (ground arith)
    ]

    -- A segment that was only a candidate is given up.
    gives_up :
        (v : EnergyVad f) → is_idle v.state ≡ true → Change g frame (handled f g a frame (v, none))
    unfolding handle_vad_segment
    gives_up v i = elim (Bool-cases over) [
      | inl o ↦ idles (ground arith) (ground arith)
      | inr o ↦ idles (ground arith) (ground arith)
    ]

    turned-Change :
        (s : VadState) {r : EnergyVad f × Option VadEvent}
        → Turn f g.vad (calculate_rms f frame) frame.timestamp_ms s r
        → g.vad.state ≡ s
        → SyncedIn f s g
        → Change g frame (handled f g a frame r)
    unfolding handle_vad_segment ended_event reset
    turned-Change s (stay idle) e h = gives_up g.vad (rw e refl)
    turned-Change s rise e h = opens (ground arith) (ground arith) (ground arith) (ground arith)
    turned-Change s (stay starting) e h = continues g.vad none (rw e refl) (inl refl) h.0
    turned-Change s (stay speaking) e h = continues g.vad none (rw e refl) (inl refl) h.0
    turned-Change s (stay ending) e h = continues g.vad none (rw e refl) (inl refl) h.0
    turned-Change s fall e h = gives_up _ refl
    turned-Change s confirm e h =
        continues _ (some (start_event f g.vad)) refl (inr (start_event f g.vad, refl, refl)) h.0
    turned-Change s fade e h = continues _ none refl (inl refl) h.0
    turned-Change s resume e h = continues _ none refl (inl refl) h.0
    turned-Change s close e h = elim (Bool-cases over) [
      | inl o ↦ idles (ground arith) (ground arith)
      | inr o ↦ submits h.0 (ground arith) (ground arith) (ground arith)
    ]

    pub hear_frame-Change : IsSynced f g → Change g frame (hear_frame f g frame)
    unfolding hear_frame process
    hear_frame-Change h =
        turned-Change g.vad.state (turn f g.vad (calculate_rms f frame) frame.timestamp_ms _) refl h
