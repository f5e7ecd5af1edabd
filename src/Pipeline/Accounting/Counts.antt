-- ===== src/Pipeline/Accounting/Counts.antt =====
-- Where the captured frames are (board/pipeline_probe.cpp).
use voice_edge_monitor.Base.{ℕ, ◌+◌, ◌%◌, ◌^◌, ◌<◌, ◌≡◌, true, false, length}
use voice_edge_monitor.Audio.{Floats}
use voice_edge_monitor.Pipeline.{
  Capture, reading, counted, pushing, refused, pushed, mirroring, evicted, leaving, closing_both,
  closing_monitor, returned, Worker, polling, missed, taken, working, finished, Pipeline,
  is_requested,
}

-- A frame that `capture_worker` holds and that is not in the queue, nor counted as dropped.
abbrev pub unprocessed : Capture → ℕ
unprocessed reading = 0
unprocessed (counted x) = 1
unprocessed (pushing x) = 1
unprocessed (refused x) = 1
unprocessed (pushed x) = 0
unprocessed (mirroring x) = 0
unprocessed evicted = 0
unprocessed leaving = 0
unprocessed closing_both = 0
unprocessed closing_monitor = 0
unprocessed returned = 0

-- The same for the monitor; or a frame that was dropped and is not counted yet.
abbrev pub unmonitored : Capture → ℕ
unmonitored reading = 0
unmonitored (counted x) = 1
unmonitored (pushing x) = 1
unmonitored (refused x) = 1
unmonitored (pushed x) = 1
unmonitored (mirroring x) = 1
unmonitored evicted = 1
unmonitored leaving = 0
unmonitored closing_both = 0
unmonitored closing_monitor = 0
unmonitored returned = 0

-- A frame that was taken from the queue and is not counted yet.
abbrev pub uncounted : Worker → ℕ
uncounted polling = 0
uncounted missed = 0
uncounted (taken x) = 1
uncounted (working x) = 0
uncounted finished = 0

module _ {f : Floats} where
  -- Before a stop is requested, `sequence`, the count of the captured frames, is the sum of what has
  -- become of them, for either thread; and the monitor's queue is not closed before the capture ends.
  pub record IsAccounted (s : Pipeline f) : Type 0 where
    pub bounded : 0 < s.monitor_queue.capacity
    pub explained :
        (is_requested s.stopper ≡ false) → (s.monitor_queue.closed ≡ true) → s.capture ≡ returned
    pub processed :
        (is_requested s.stopper ≡ false)
        → s.sequence
          ≡ (s.processing_popped
              + uncounted s.processing
              + length s.processing_queue.queue
              + s.processing_drops
              + unprocessed s.capture)
            % 2 ^ 64
    pub monitored :
        (is_requested s.stopper ≡ false)
        → s.sequence
          ≡ (s.monitor_popped
              + uncounted s.monitor
              + length s.monitor_queue.queue
              + s.monitor_drops
              + unmonitored s.capture)
            % 2 ^ 64
