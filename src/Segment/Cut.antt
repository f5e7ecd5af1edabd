-- ===== src/Segment/Cut.antt =====
-- What the speech segments contain (`handle_vad_segment`, board/ws_server.cpp).
use voice_edge_monitor.Base.{
  ℕ, ◌+◌, ◌≤◌, ◌≡◌, refl, sym, ap, ◌∙◌, subst, Bool, true, false, List, [], ◌∷◌, ◌++◌, arith, All,
  All-snoc, append_assoc, append-nil, ok, if_elim, ◌||◌, leb, length,
}
use voice_edge_monitor.Audio.{AudioFrame, SpeechSegment, Floats}
use voice_edge_monitor.Queue.{Queue, try_push}
use voice_edge_monitor.Queue
use voice_edge_monitor.Vad.{EnergyVad, VadConfig, VadDecision, process, make}
use voice_edge_monitor.Segment.{Segmenter, hear_frame, hear, handle_vad_segment, initial}
use voice_edge_monitor.Segment.Sync.{IsSynced, hear_frame-IsSynced}
use voice_edge_monitor.Segment.Change.{
  Change, idles, opens, extends, submits, closing, hear_frame-Change,
}

-- The samples of consecutive frames.
abbrev pub flat : List AudioFrame → List ℕ
flat [] = []
flat (frame ∷ frames) = frame.samples ++ flat frames

flat-append : (xs ys : List AudioFrame) → flat (xs ++ ys) ≡ flat xs ++ flat ys
flat-append [] ys = refl
flat-append (x ∷ xs) ys = rw (flat-append xs ys) (sym (append_assoc x.samples (flat xs) (flat ys)))

flat_snoc : (xs : List AudioFrame) (x : AudioFrame) → flat (xs ++ x ∷ []) ≡ flat xs ++ x.samples
flat_snoc xs x = flat-append xs (x ∷ []) ∙ ap (◌++◌ (flat xs)) (append-nil x.samples)

-- The segment is a stretch of the captured frames, from `first` to `last` with all between, and
-- no longer than `limit`.
pub record IsCut (limit : ℕ) (frames : List AudioFrame) (s : SpeechSegment) : Type 0 where
  pub before : List AudioFrame
  pub first : AudioFrame
  pub middle : List AudioFrame
  pub last : AudioFrame
  pub after : List AudioFrame
  pub whole : frames ≡ before ++ ((first ∷ middle ++ last ∷ []) ++ after)
  pub content : s.samples ≡ flat (first ∷ middle ++ last ∷ [])
  pub starts : s.start_timestamp_ms ≡ first.timestamp_ms
  pub ends : s.end_timestamp_ms ≡ last.timestamp_ms
  pub formatted : (s.sample_rate ≡ last.sample_rate) × (s.channels ≡ last.channels)
  pub bounded : s.end_timestamp_ms ≤ s.start_timestamp_ms + limit

IsCut-more :
    (limit : ℕ) (frames more : List AudioFrame) (s : SpeechSegment)
    → IsCut limit frames s
    → IsCut limit (frames ++ more) s
IsCut-more limit frames more s c = record {
  before = c.before;
  first = c.first;
  middle = c.middle;
  last = c.last;
  after = c.after ++ more;
  whole = rw (c.whole) (
      append_assoc c.before _ more
      ∙ ap (◌++◌ c.before) (append_assoc (c.first ∷ c.middle ++ c.last ∷ []) c.after more));
  content = c.content;
  starts = c.starts;
  ends = c.ends;
  formatted = c.formatted;
  bounded = c.bounded;
}

All-IsCut-more :
    (limit : ℕ) (frames more : List AudioFrame) (ss : List SpeechSegment)
    → All (IsCut limit frames) ss
    → All (IsCut limit (frames ++ more)) ss
All-IsCut-more limit frames more [] h = tt
All-IsCut-more limit frames more (s ∷ ss) h =
    (IsCut-more limit frames more s h.0, All-IsCut-more limit frames more ss h.1)

module _ (f : Floats) where
  -- The segment in the making, with `past` the frames so far.
  pub data Held (past : List AudioFrame) (g : Segmenter f) : Type 0 where
    nothing : g.segment_active ≡ false → Held past g
    stretch :
        (before : List AudioFrame) (first : AudioFrame) (middle : List AudioFrame)
        → past ≡ before ++ (first ∷ middle)
        → g.segment_samples ≡ flat (first ∷ middle)
        → g.segment_start_ms ≡ first.timestamp_ms
        → Held past g

  module _ (past : List AudioFrame) (frame : AudioFrame) (g g' : Segmenter f) where
    Held-Change : Change f g frame g' → Held past g → Held (past ++ frame ∷ []) g'
    Held-Change (idles i q) h = nothing i
    Held-Change (opens o s t q) h =
        stretch past frame [] refl (s ∙ sym (append-nil frame.samples)) t
    Held-Change (extends a o s t q) (nothing n) = absurd (ground arith)
    Held-Change (extends a o s t q) (stretch before first middle w c b) =
        stretch before first (middle ++ frame ∷ [])
          (rw w (append_assoc before (first ∷ middle) (frame ∷ [])))
          (s ∙ rw c (sym (flat_snoc (first ∷ middle) frame))) (t ∙ b)
    Held-Change (submits a i q l) h = nothing i

    closing-IsCut :
        (limit : ℕ)
        → frame.timestamp_ms ≤ g.segment_start_ms + limit
        → g.segment_active ≡ true
        → Held past g
        → IsCut limit (past ++ frame ∷ []) (closing f g frame)
    closing-IsCut limit l a (nothing n) = absurd (ground arith)
    closing-IsCut limit l a (stretch before first middle w c b) = record {
      before = before;
      first = first;
      middle = middle;
      last = frame;
      after = [];
      whole =
          rw (w, append-nil (first ∷ middle ++ frame ∷ []))
            (append_assoc before (first ∷ middle) (frame ∷ []));
      content = rw c (sym (flat_snoc (first ∷ middle) frame));
      starts = b;
      ends = refl;
      formatted = (refl, refl);
      bounded = l;
    }

  -- All that is queued for the recogniser is cut from the frames.
  abbrev Queued : ℕ → List AudioFrame → Segmenter f → Type 0
  Queued limit past g = All (IsCut limit past) g.asr_queue.queue

  -- What a push adds.
  push_All :
      (P : SpeechSegment → Type 0) (s : SpeechSegment) (q : Queue SpeechSegment)
      → All P q.queue
      → P s
      → All P (try_push s q).0.queue
  push_All P s q h p =
      unfold try_push in
      if_elim (λ (r : Queue SpeechSegment × Bool). All P r.0.queue)
        (q.closed || leb q.capacity (length q.queue)) (λ _. h) (λ _. All-snoc P q.queue s h p)

  Queued-Change :
      (limit : ℕ) (past : List AudioFrame) (frame : AudioFrame) (g g' : Segmenter f)
      → g.max_segment_ms ≡ limit
      → Change f g frame g'
      → Held past g
      → Queued limit past g
      → Queued limit (past ++ frame ∷ []) g'
  Queued-Change limit past frame g g' m (idles i q) h k =
      rw q (All-IsCut-more limit past (frame ∷ []) g.asr_queue.queue k)
  Queued-Change limit past frame g g' m (opens o s t q) h k =
      rw q (All-IsCut-more limit past (frame ∷ []) g.asr_queue.queue k)
  Queued-Change limit past frame g g' m (extends a o s t q) h k =
      rw q (All-IsCut-more limit past (frame ∷ []) g.asr_queue.queue k)
  Queued-Change limit past frame g g' m (submits a i q l) h k = rw q (
      push_All (IsCut limit (past ++ frame ∷ [])) (closing f g frame) g.asr_queue
        (All-IsCut-more limit past (frame ∷ []) g.asr_queue.queue k)
        (closing-IsCut past frame g g' limit (omega arith) a h))

  handling_fixes :
      (g : Segmenter f) (frame : AudioFrame) (d : VadDecision f)
      → ((handle_vad_segment f g frame d).asr ≡ g.asr)
        × ((handle_vad_segment f g frame d).max_segment_ms ≡ g.max_segment_ms)
  unfolding handle_vad_segment
  handling_fixes g frame d = ground arith

  fixed_by_hearing :
      (g : Segmenter f) (frame : AudioFrame)
      → ((hear_frame f g frame).asr ≡ g.asr)
        × ((hear_frame f g frame).max_segment_ms ≡ g.max_segment_ms)
  unfolding hear_frame process
  fixed_by_hearing g frame =
      handling_fixes (record g { vad = (process f g.vad frame).0 }) frame (process f g.vad frame).1

  hear-IsCut :
      (frames past : List AudioFrame) (limit : ℕ) (g : Segmenter f)
      → g.asr ≡ true
      → g.max_segment_ms ≡ limit
      → IsSynced f g
      → Held past g
      → Queued limit past g
      → Queued limit (past ++ frames) (hear f g frames)
  unfolding hear
  hear-IsCut [] past limit g a m s h q = rw (append-nil past) q
  hear-IsCut (frame ∷ frames) past limit g a m s h q =
      let g' = hear_frame f g frame in
      let c = hear_frame-Change f g a frame s in
      let (a', m') = fixed_by_hearing g frame in
      subst (λ p. Queued limit p (hear f g' frames)) (append_assoc past (frame ∷ []) frames)
        (hear-IsCut frames (past ++ frame ∷ []) limit g' (a' ∙ a) (m' ∙ m)
          (hear_frame-IsSynced f g a frame s) (Held-Change past frame g g' c h)
          (Queued-Change limit past frame g g' m c h q))

  -- On a server that has just started with a recogniser, whatever is captured: each segment queued
  -- for the recogniser is a stretch of consecutive captured frames, with exactly their samples in
  -- order; its start and end are the times of its first and last frame, and they lie at most
  -- `max_segment_ms` apart.
  pub queued_segments-IsCut :
      (limit capacity : ℕ) (c : VadConfig f) (v : EnergyVad f) (q : Queue SpeechSegment)
      → make f c ≡ ok v
      → Queue.make capacity ≡ ok q
      → (frames : List AudioFrame)
      → All (IsCut limit frames) (hear f (initial f true limit v q) frames).asr_queue.queue
  unfolding initial
  queued_segments-IsCut limit capacity c v q mv mq frames =
      hear-IsCut frames [] limit (initial f true limit v q) refl refl synced (nothing refl) empty
    where
      synced : IsSynced f (initial f true limit v q)
      synced = unfold make initial in ground arith

      empty : All (IsCut limit []) q.queue
      empty = let e : q.queue ≡ [] = unfold Queue.make in ground arith in rw e tt
