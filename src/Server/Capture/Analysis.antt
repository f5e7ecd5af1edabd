-- ===== src/Server/Capture/Analysis.antt =====
-- What the analysis of a frame changes and leaves alone (`capture_loop` of board/ws_server.cpp).
use voice_edge_monitor.Base.{
  ℕ, ◌+◌, ◌%◌, ◌^◌, ◌≡◌, refl, ap, ◌∙◌, Option, none, some, List, [], ◌∷◌, ◌++◌, map, length, drop,
  append-nil,
}
use voice_edge_monitor.Audio.{AudioFrame, Floats}
use voice_edge_monitor.Vad.{VadEvent, VadEventType, started, ended, VadDecision, process}
use voice_edge_monitor.Segment.{Notice, handle_vad_segment, hear_frame, incr}
use voice_edge_monitor.Levels.{Meter, update_level_stats}
use voice_edge_monitor.Server.{
  Broadcast, vad_event, asr_notice, Server, say, count_type, count_event, cut_segments, analyse,
}
use voice_edge_monitor.Server.Capture.Packets.{packets_of, packets_of-append}

module _ (f : Floats) where
  -- `b` is `a` with one frame more taken in, and no packet sent.
  pub record TakesIn (x : AudioFrame) (a b : Server f) : Type 0 where
    pub logged : b.captured ≡ a.captured ++ x ∷ []
    pub unsent : packets_of b.broadcasts ≡ packets_of a.broadcasts
    pub tallied : b.sequence ≡ incr a.sequence
    pub audible : b.segmenter ≡ hear_frame f a.segmenter x

  -- `count_event` keeps all but counters, and sends no packet.
  record Reports (a b : Server f) : Type 0 where
    same_captured : b.captured ≡ a.captured
    same_packets : packets_of b.broadcasts ≡ packets_of a.broadcasts
    same_sequence : b.sequence ≡ a.sequence
    same_segmenter : b.segmenter ≡ a.segmenter

  pub said :
      (b : Broadcast f) (s : Server f)
      → packets_of (b ∷ []) ≡ []
      → packets_of (s.broadcasts ++ b ∷ []) ≡ packets_of s.broadcasts
  said b s e =
      packets_of-append s.broadcasts (b ∷ [])
      ∙ ap (λ ps. packets_of s.broadcasts ++ ps) e
      ∙ append-nil (packets_of s.broadcasts)

  event-Reports :
      (t : VadEventType) (e : VadEvent) (rms : f.Double) (s : Server f)
      → Reports s (say f (vad_event e rms) (count_type f t s))
  unfolding say count_type
  event-Reports started e rms s = record {
    same_captured = refl;
    same_packets = said (vad_event e rms) s refl;
    same_sequence = refl;
    same_segmenter = refl;
  }
  event-Reports ended e rms s = record {
    same_captured = refl;
    same_packets = said (vad_event e rms) s refl;
    same_sequence = refl;
    same_segmenter = refl;
  }

  count_event-Reports :
      (e : Option VadEvent) (rms : f.Double) (s : Server f) → Reports s (count_event f e rms s)
  unfolding count_event
  count_event-Reports none rms s = record {
    same_captured = refl;
    same_packets = refl;
    same_sequence = refl;
    same_segmenter = refl;
  }
  count_event-Reports (some e) rms s = event-Reports e.type e rms s

  packets_of-notices : (ns : List Notice) → packets_of {f = f} (map asr_notice ns) ≡ []
  packets_of-notices [] = refl
  packets_of-notices (n ∷ ns) = packets_of-notices ns

  cut_segments-packets :
      (x : AudioFrame) (d : VadDecision f) (s : Server f)
      → packets_of (cut_segments f x d s).broadcasts ≡ packets_of s.broadcasts
  unfolding cut_segments
  cut_segments-packets x d s =
      let ns = drop (length s.segmenter.notices) (handle_vad_segment f s.segmenter x d).notices in
      packets_of-append s.broadcasts (map asr_notice ns)
      ∙ ap (λ ps. packets_of s.broadcasts ++ ps) (packets_of-notices ns)
      ∙ append-nil (packets_of s.broadcasts)

  pub analyse-TakesIn :
      (m : Meter f) (x : AudioFrame) (n : ℕ) (s : Server f) → TakesIn x s (analyse f m x n s)
  unfolding analyse hear_frame cut_segments
  analyse-TakesIn m x n s =
      let decision = (process f s.segmenter.vad x).1 in
      let counted = record s {
        sequence = incr s.sequence;
        captured_frames = (s.captured_frames + n) % 2 ^ 64;
        last_rms_dbfs_x10 = (update_level_stats f m x).0;
        last_peak_dbfs_x10 = (update_level_stats f m x).1;
        vad_state = decision.state;
        segmenter = record s.segmenter { vad = (process f s.segmenter.vad x).0 };
        captured = s.captured ++ x ∷ [];
      } in
      let h = count_event-Reports decision.event decision.rms counted in
      record {
        logged = h.same_captured;
        unsent =
            cut_segments-packets x decision (count_event f decision.event decision.rms counted)
            ∙ h.same_packets;
        tallied = h.same_sequence;
        audible = ap (λ g. handle_vad_segment f g x decision) h.same_segmenter;
      }

  count_event-audio :
      (e : Option VadEvent) (rms : f.Double) (s : Server f)
      → (count_event f e rms s).audio ≡ s.audio
  unfolding count_event say
  count_event-audio none rms s = refl
  count_event-audio (some e) rms s = go e.type
    where
      go : (t : VadEventType) → (count_type f t s).audio ≡ s.audio
      go started = unfold count_type in refl
      go ended = unfold count_type in refl

  pub analyse-audio :
      (m : Meter f) (x : AudioFrame) (n : ℕ) (s : Server f) → (analyse f m x n s).audio ≡ s.audio
  unfolding analyse cut_segments
  analyse-audio m x n s =
      count_event-audio (process f s.segmenter.vad x).1.event (process f s.segmenter.vad x).1.rms _
