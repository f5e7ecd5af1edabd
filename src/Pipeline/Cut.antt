-- ===== src/Pipeline/Cut.antt =====
-- board/pipeline_probe.cpp: `handle_vad_segment`, with the part of `PipelineContext` that it works on
-- (built with `VOICEEDGE_HAS_ASR`).
use voice_edge_monitor.Base.{
  ℕ, ◌-◌, ◌≡◌, refl, ap, ◌∙◌, Bool, true, false, ◌&&◌, not, Option, none, some, List, [], ◌∷◌, ◌++◌,
  leb, ltb, if◌then◌else◌, arith,
}
use voice_edge_monitor.Audio.{AudioFrame, SpeechSegment, Floats}
use voice_edge_monitor.Queue.{Queue, try_push}
use voice_edge_monitor.Vad.{
  VadEventType, started, ended, VadEvent, VadDecision, EnergyVad, process, reset,
}
use voice_edge_monitor.Segment.{incr, is_idle, Segmenter}
use voice_edge_monitor.Segment

module _ (f : Floats) where
  -- `asr` says whether a recogniser is open; `max_segment_ms` is an option.
  pub record Cutter : Type 0 where
    pub asr : Bool
    pub max_segment_ms : ℕ
    pub vad : EnergyVad f
    pub segment_active : Bool
    pub next_segment_id : ℕ
    pub segment_start_ms : ℕ
    pub segment_samples : List ℕ
    pub asr_queue : Queue SpeechSegment
    pub asr_segments : ℕ
    pub asr_drops : ℕ
    pub asr_overflows : ℕ

  -- The members' initial values; the detector and the queue come from their constructors.
  unfoldable pub initial : Bool → ℕ → EnergyVad f → Queue SpeechSegment → Cutter
  initial asr limit vad queue = record {
    asr = asr;
    max_segment_ms = limit;
    vad = vad;
    segment_active = false;
    next_segment_id = 0;
    segment_start_ms = 0;
    segment_samples = [];
    asr_queue = queue;
    asr_segments = 0;
    asr_drops = 0;
    asr_overflows = 0;
  }

  unfoldable give_up : Cutter → Cutter
  give_up c = record c { segment_active = false; segment_samples = [] }

  unfoldable overflow : Cutter → Cutter
  unfolding give_up
  overflow c = record (give_up c) { asr_overflows = incr c.asr_overflows; vad = reset f c.vad }

  unfoldable finish : Cutter → AudioFrame → VadEvent → Cutter
  finish c frame event =
      let segment : SpeechSegment = record {
        id = c.next_segment_id;
        start_timestamp_ms = c.segment_start_ms;
        end_timestamp_ms = event.timestamp_ms;
        sample_rate = frame.sample_rate;
        channels = frame.channels;
        samples = c.segment_samples;
      } in
      let (queue, pushed) = try_push segment c.asr_queue in
      record c {
        next_segment_id = incr c.next_segment_id;
        segment_samples = [];
        segment_active = false;
        asr_segments = incr c.asr_segments;
        asr_queue = queue;
        asr_drops = if pushed then c.asr_drops else incr c.asr_drops;
      }

  unfoldable finish_if : VadEventType → Cutter → AudioFrame → VadEvent → Cutter
  unfolding finish
  finish_if started c frame event = c
  finish_if ended c frame event = finish c frame event

  unfoldable conclude : Option VadEvent → Bool → Cutter → AudioFrame → Cutter
  unfolding finish_if give_up
  conclude (some event) quiet c frame = finish_if event.type c frame event
  conclude none true c frame = give_up c
  conclude none false c frame = c

  unfoldable pub handle_vad_segment : Cutter → AudioFrame → VadDecision f → Cutter
  unfolding overflow conclude
  handle_vad_segment c frame decision =
      if not c.asr
      then c
      else let begun =
          if not c.segment_active && not (is_idle decision.state)
          then record c {
            segment_active = true;
            segment_start_ms = frame.timestamp_ms;
            segment_samples = [];
          }
          else c in
        let grown = record begun { segment_samples = begun.segment_samples ++ frame.samples } in
        if not begun.segment_active
        then begun
        else if leb grown.segment_start_ms frame.timestamp_ms
            && ltb grown.max_segment_ms (frame.timestamp_ms - grown.segment_start_ms)
        then overflow grown
        else conclude decision.event (is_idle decision.state) grown frame

  -- `context.vad.process(*frame)`, then `handle_vad_segment`.
  unfoldable pub hear_frame : Cutter → AudioFrame → Cutter
  unfolding handle_vad_segment
  hear_frame c frame =
      let (vad, decision) = process f c.vad frame in
      handle_vad_segment (record c { vad = vad }) frame decision

  unfoldable pub hear : Cutter → List AudioFrame → Cutter
  unfolding hear_frame
  hear c [] = c
  hear c (frame ∷ frames) = hear (hear_frame c frame) frames

  -- The server's state, less the notices that it has broadcast.
  unfoldable pub silenced : Segmenter f → Cutter
  silenced g = record {
    asr = g.asr;
    max_segment_ms = g.max_segment_ms;
    vad = g.vad;
    segment_active = g.segment_active;
    next_segment_id = g.next_segment_id;
    segment_start_ms = g.segment_start_ms;
    segment_samples = g.segment_samples;
    asr_queue = g.asr_queue;
    asr_segments = g.asr_segments;
    asr_drops = g.asr_drops;
    asr_overflows = g.asr_overflows;
  }

  handle-silenced :
      (g : Segmenter f) (x : AudioFrame) (d : VadDecision f)
      → silenced (Segment.handle_vad_segment f g x d) ≡ handle_vad_segment (silenced g) x d
  unfolding silenced handle_vad_segment overflow give_up conclude finish_if finish
      Segment.submit_segment Segment.finished_segment Segment.handle_vad_segment
      Segment.begin_segment Segment.extend_segment Segment.overflow_segment Segment.conclude_segment
      Segment.on_event
  handle-silenced g x d = ground arith

  hear_frame-silenced :
      (g : Segmenter f) (x : AudioFrame)
      → silenced (Segment.hear_frame f g x) ≡ hear_frame (silenced g) x
  unfolding silenced hear_frame Segment.hear_frame
  hear_frame-silenced g x =
      let r = process f g.vad x in handle-silenced (record g { vad = r.0 }) x r.1

  hear_from-silenced :
      (g : Segmenter f) (xs : List AudioFrame)
      → silenced (Segment.hear f g xs) ≡ hear (silenced g) xs
  unfolding hear Segment.hear
  hear_from-silenced g [] = refl
  hear_from-silenced g (x ∷ xs) =
      hear_from-silenced (Segment.hear_frame f g x) xs
      ∙ ap (λ c. hear c xs) (hear_frame-silenced g x)

  -- The server and the pipeline probe cut speech in the same way: from equal states, which theirs are at the
  -- start, and on the same frames, they submit the same segments, drop the same, and are left in equal
  -- states, apart from the notices that only the server broadcasts.
  pub hear-silenced :
      (asr : Bool) (limit : ℕ) (vad : EnergyVad f) (queue : Queue SpeechSegment)
      (frames : List AudioFrame)
      → silenced (Segment.hear f (Segment.initial f asr limit vad queue) frames)
        ≡ hear (initial asr limit vad queue) frames
  unfolding silenced initial Segment.initial
  hear-silenced asr limit vad queue frames =
      hear_from-silenced (Segment.initial f asr limit vad queue) frames
