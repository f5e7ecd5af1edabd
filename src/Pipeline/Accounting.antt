-- ===== src/Pipeline/Accounting.antt =====
-- Every captured frame is accounted for (board/pipeline_probe.cpp).
mod Queues
pub mod Counts
use voice_edge_monitor.Base.{
  ℕ, zero, suc, ◌+◌, ◌%◌, ◌^◌, ◌<◌, ◌≤◌, ◌≡◌, refl, sym, ap, subst, ◌∙◌, Bool, true, false, ◌||◌,
  not, Option, none, some, List, [], ◌∷◌, ◌++◌, leb, ◌==◌, if◌then◌else◌, length, length-append, ok,
  ◌⊎◌, arith,
}
use voice_edge_monitor.Audio.{AudioFrame, Floats}
use voice_edge_monitor.Vad.{VadEvent, VadEventType, started, ended, process}
use voice_edge_monitor.Queue.{
  Queue, try_push, push_drop_oldest, pop_for, close, pop_front, ready, after_wait, take_front, size,
  make,
}
use voice_edge_monitor.Levels.{Meter, update_level_stats}
use voice_edge_monitor.Alsa.{AlsaCapture}
use voice_edge_monitor.Segment.{incr}
use voice_edge_monitor.Pipeline.Cut.{Cutter, handle_vad_segment}
use voice_edge_monitor.Pipeline.{
  Capture, reading, counted, pushing, refused, pushed, mirroring, evicted, leaving, closing_both,
  closing_monitor, returned, Worker, polling, missed, taken, working, finished, Stopper,
  unrequested, requested, closed_processing, closed_both, Input, signalled, got, got_none, failed,
  Pipeline, initial, is_requested, capture_step, read_step, processing_step, monitor_step,
  request_stop, process_frame, count_event, count_type, make_frame, frames_in,
}
use voice_edge_monitor.Pipeline.Accounting.Queues.{
  try_push-length, push_drop_oldest-length, pop_for-front, pop_for-empty,
}
use voice_edge_monitor.Pipeline.Steps.{
  Step, captures, processes, monitors, requests, Reach, reach_inv,
}
use voice_edge_monitor.Pipeline.Accounting.Counts.{unprocessed, unmonitored, uncounted, IsAccounted}

module _ {f : Floats} where
  request-IsAccounted :
      (s t : Pipeline f) → request_stop f s ≡ some t → IsAccounted s → IsAccounted t
  unfolding request_stop close
  request-IsAccounted s t e h = ground arith

  monitor_pop-IsAccounted :
      (x : AudioFrame) (xs : List AudioFrame) (s : Pipeline f)
      → s.monitor ≡ polling
      → s.monitor_queue.queue ≡ x ∷ xs
      → IsAccounted s
      → IsAccounted
          (record s { monitor_queue = record s.monitor_queue { queue = xs }; monitor = taken x })
  monitor_pop-IsAccounted x xs s q q' h = ground arith

  processing_pop-IsAccounted :
      (x : AudioFrame) (xs : List AudioFrame) (s : Pipeline f)
      → s.processing ≡ polling
      → s.processing_queue.queue ≡ x ∷ xs
      → IsAccounted s
      → IsAccounted (record s {
        processing_queue = record s.processing_queue { queue = xs };
        processing = taken x;
      })
  processing_pop-IsAccounted x xs s q q' h = ground arith

  monitor-IsAccounted :
      (o : Bool) (s t : Pipeline f) → monitor_step f o s ≡ some t → IsAccounted s → IsAccounted t
  unfolding monitor_step
  monitor-IsAccounted o s t e h = go s.monitor refl s.monitor_queue.queue refl
    where
      go :
          (w : Worker)
          → s.monitor ≡ w
          → (l : List AudioFrame) → s.monitor_queue.queue ≡ l
          → IsAccounted t
      go polling q [] q' = ground (arith, pop_for-empty o s.monitor_queue q')
      go polling q (x ∷ xs) q' =
          ground
            (arith, pop_for-front o s.monitor_queue x xs q', monitor_pop-IsAccounted x xs s q q' h)
      go missed q l q' = ground arith
      go (taken x) q l q' = ground arith
      go (working x) q l q' = ground arith
      go finished q l q' = ground arith

  count_event-polling :
      (e : Option VadEvent) (s : Pipeline f)
      → record (count_event f e s) { processing = polling }
        ≡ count_event f e (record s { processing = polling })
  unfolding count_event
  count_event-polling none s = refl
  count_event-polling (some e) s = go e.type
    where
      go :
          (t : VadEventType)
          → record (count_type f t s) { processing = polling }
            ≡ count_type f t (record s { processing = polling })
      go started = unfold count_type in refl
      go ended = unfold count_type in refl

  count_event-IsAccounted :
      (e : Option VadEvent) (s : Pipeline f) → IsAccounted s → IsAccounted (count_event f e s)
  unfolding count_event count_type
  count_event-IsAccounted e s h = ground arith

  process-IsAccounted :
      (m : Meter f) (x : AudioFrame) (s : Pipeline f)
      → s.processing ≡ working x
      → IsAccounted s
      → IsAccounted (record (process_frame f m x s) { processing = polling })
  unfolding process_frame
  process-IsAccounted m x s q h =
      let levels = update_level_stats f m x in
      let (vad, decision) = process f s.cutter.vad x in
      let base = record s {
        last_rms_dbfs_x10 = levels.0;
        last_peak_dbfs_x10 = levels.1;
        vad_state = decision.state;
        cutter = handle_vad_segment f (record s.cutter { vad = vad }) x decision;
        processed_frames = (s.processed_frames + frames_in x) % 2 ^ 64;
      } in
      subst IsAccounted (sym (count_event-polling decision.event base)) (
        count_event-IsAccounted decision.event (record base { processing = polling })
          (ground arith))

  missed-IsAccounted :
      (s : Pipeline f)
      → s.processing ≡ missed
      → IsAccounted s
      → IsAccounted (
          if s.processing_queue.closed
          then record s {
            processing = finished;
            cutter = record s.cutter { asr_queue = close s.cutter.asr_queue };
          }
          else record s { processing = polling })
  missed-IsAccounted s q h = ground arith

  processing-IsAccounted :
      (m : Meter f) (o : Bool) (s t : Pipeline f)
      → processing_step f m o s ≡ some t
      → IsAccounted s
      → IsAccounted t
  unfolding processing_step close
  processing-IsAccounted m o s t e h = go s.processing refl s.processing_queue.queue refl
    where
      go :
          (w : Worker)
          → s.processing ≡ w
          → (l : List AudioFrame) → s.processing_queue.queue ≡ l
          → IsAccounted t
      go polling q [] q' = ground (arith, pop_for-empty o s.processing_queue q')
      go polling q (x ∷ xs) q' = ground (
        arith,
        pop_for-front o s.processing_queue x xs q',
        processing_pop-IsAccounted x xs s q q' h,
      )
      go missed q l q' = ground (arith, missed-IsAccounted s q h)
      go (taken x) q l q' = ground arith
      go (working x) q l q' = ground (arith, process-IsAccounted m x s q h)
      go finished q l q' = ground arith

  read-IsAccounted :
      (i : Input) (s : Pipeline f)
      → s.capture ≡ reading
      → IsAccounted s
      → IsAccounted (read_step f i s)
  unfolding read_step
  read-IsAccounted signalled s q h = ground arith
  read-IsAccounted (got count buffer now) s q h = ground arith
  read-IsAccounted got_none s q h = h
  read-IsAccounted (failed overrun signal recovers) s q h = ground arith

  mirror-IsAccounted :
      (x : AudioFrame) (s : Pipeline f)
      → s.capture ≡ mirroring x
      → IsAccounted s
      → IsAccounted (record s {
        monitor_queue = (push_drop_oldest x s.monitor_queue).0;
        capture = if (push_drop_oldest x s.monitor_queue).1 then evicted else reading;
      })
  mirror-IsAccounted x s q h = go s.monitor_queue.closed refl
    where
      go :
          (b : Bool)
          → s.monitor_queue.closed ≡ b
          → IsAccounted (record s {
            monitor_queue = (push_drop_oldest x s.monitor_queue).0;
            capture = if (push_drop_oldest x s.monitor_queue).1 then evicted else reading;
          })
      go false e = ground (arith, push_drop_oldest-length x s.monitor_queue h.bounded e)
      go true e = unfold push_drop_oldest in ground arith

  capture-IsAccounted :
      (i : Input) (s t : Pipeline f) → capture_step f i s ≡ some t → IsAccounted s → IsAccounted t
  unfolding capture_step close
  capture-IsAccounted i s t e h = go s.capture refl
    where
      go : (c : Capture) → s.capture ≡ c → IsAccounted t
      go reading q = ground (arith, read-IsAccounted i s q h)
      go (counted x) q = ground arith
      go (pushing x) q = ground (arith, try_push-length x s.processing_queue)
      go (refused x) q = ground arith
      go (pushed x) q = ground arith
      go (mirroring x) q = ground (arith, mirror-IsAccounted x s q h)
      go evicted q = ground arith
      go leaving q = ground arith
      go closing_both q = ground arith
      go closing_monitor q = ground arith
      go returned q = ground arith

  Step-IsAccounted : (m : Meter f) (s t : Pipeline f) → Step f m s t → IsAccounted s → IsAccounted t
  Step-IsAccounted m s t (captures i t' e) h = capture-IsAccounted i s t e h
  Step-IsAccounted m s t (processes o t' e) h = processing-IsAccounted m o s t e h
  Step-IsAccounted m s t (monitors o t' e) h = monitor-IsAccounted o s t e h
  Step-IsAccounted m s t (requests t' e) h = request-IsAccounted s t e h

  reach-IsAccounted :
      (m : Meter f) (audio : AlsaCapture) (processing_queue monitor_queue : Queue AudioFrame)
      (cutter : Cutter f) (processing_capacity monitor_capacity : ℕ) (s : Pipeline f)
      → make processing_capacity ≡ ok processing_queue
      → make monitor_capacity ≡ ok monitor_queue
      → Reach f m (initial f audio processing_queue monitor_queue cutter) s
      → IsAccounted s
  unfolding initial make
  reach-IsAccounted m audio processing_queue monitor_queue cutter a b s ha hb r =
      reach_inv f m IsAccounted (Step-IsAccounted m)
        (initial f audio processing_queue monitor_queue cutter) s r (ground arith)

  -- However the threads interleave, as long as no stop is requested, no captured frame is lost without
  -- being counted: their number is, modulo 2^64, the number of those that the processing thread has
  -- counted or is about to count, those in its queue, those counted as dropped, and the one that the
  -- capture thread may hold; and the same is true of the monitor.
  pub captured_frames_accounted :
      (m : Meter f) (audio : AlsaCapture) (processing_queue monitor_queue : Queue AudioFrame)
      (cutter : Cutter f) (processing_capacity monitor_capacity : ℕ) (s : Pipeline f)
      → make processing_capacity ≡ ok processing_queue
      → make monitor_capacity ≡ ok monitor_queue
      → Reach f m (initial f audio processing_queue monitor_queue cutter) s
      → is_requested s.stopper ≡ false
      → (s.sequence
          ≡ (s.processing_popped
              + uncounted s.processing
              + length s.processing_queue.queue
              + s.processing_drops
              + unprocessed s.capture)
            % 2 ^ 64)
        × (s.sequence
            ≡ (s.monitor_popped
                + uncounted s.monitor
                + length s.monitor_queue.queue
                + s.monitor_drops
                + unmonitored s.capture)
              % 2 ^ 64)
  captured_frames_accounted m audio processing_queue monitor_queue cutter a b s ha hb r h =
      let k = reach-IsAccounted m audio processing_queue monitor_queue cutter a b s ha hb r in
      (k.processed h, k.monitored h)
