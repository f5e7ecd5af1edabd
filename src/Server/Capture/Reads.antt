-- ===== src/Server/Capture/Reads.antt =====
-- The frames that the capture thread owes to what ALSA read (`capture_loop` of board/ws_server.cpp).
use voice_edge_monitor.Base.{
  ℕ, suc, ◌*◌, ◌%◌, ◌^◌, ◌≡◌, refl, sym, subst, Bool, true, false, List, [], ◌∷◌, ◌++◌, take,
  length, length-append, append_assoc, append-nil, min, if◌then◌else◌, Result, ok, err, arith,
}
use voice_edge_monitor.Audio.{AudioFrame, Floats}
use voice_edge_monitor.Segment.{Segmenter, incr}
use voice_edge_monitor.Levels.{Meter}
use voice_edge_monitor.Alsa.{AlsaCapture}
use voice_edge_monitor.Protocol.{encode_audio_packet}
use voice_edge_monitor.Server.{
  Recovery, stop_seen, recovered, reopening, Reading, frames, no_frames, failed, Server, say, Round,
  continues, breaks, terminates, reopen_from, reopen_capture, after_reopening, recover, send_packet,
  make_frame, analyse, capture_round,
}
use voice_edge_monitor.Server.Reconnect.{any_ok}
use voice_edge_monitor.Server.Capture.Analysis.{analyse-TakesIn}
use voice_edge_monitor.Server.Capture.Faithful.{IsFaithful}

-- Whether the readings that follow one of these are still made.
abbrev pub goes_on : Recovery → Bool
goes_on stop_seen = false
goes_on recovered = true
goes_on (reopening attempts) = any_ok attempts

-- The frames that some readings come to, up to the first failure that ends the thread, from the
-- number `k` on: each with the time of its reading, the device's rate and channels, and the
-- `count * channels` samples that were read.
abbrev pub frames_read : ℕ → ℕ → ℕ → List Reading → List AudioFrame
frames_read rate channels k [] = []
frames_read rate channels k (frames count buffer now ∷ readings) =
    record {
      sequence = k % 2 ^ 64;
      timestamp_ms = now % 2 ^ 64;
      sample_rate = rate;
      channels = channels;
      samples = take (count * channels) buffer;
    }
    ∷ frames_read rate channels (suc k) readings
frames_read rate channels k (no_frames ∷ readings) = frames_read rate channels k readings
frames_read rate channels k (failed overrun recovery ∷ readings) =
    if goes_on recovery then frames_read rate channels k readings else []

module _ (f : Floats) where
  -- What a round with `b` as its answer, and without a frame, leaves.
  abbrev Kept : Bool → List AudioFrame → Round f → Type 0
  Kept b xs (continues t) = (b ≡ true) × (t.captured ≡ xs)
  Kept b xs (breaks t) = (b ≡ false) × (t.captured ≡ xs)
  Kept b xs (terminates e) = Unit

  reopen_from-Kept :
      (attempts : List (Result AlsaCapture)) (n : ℕ) (s : Server f)
      → Kept (any_ok attempts) s.captured (after_reopening f (reopen_from f n attempts s))
  unfolding reopen_from after_reopening say
  reopen_from-Kept [] n s = (refl, refl)
  reopen_from-Kept (ok c ∷ attempts) n s = (refl, refl)
  reopen_from-Kept (err e ∷ attempts) n s =
      reopen_from-Kept attempts (min (n * 2 % 2 ^ 64) 5000) (record s {
        waits = s.waits ++ n ∷ [];
        capture_reconnect_failures = incr s.capture_reconnect_failures;
      })

  recover-Kept :
      (r : Recovery) (overrun : Bool) (s : Server f)
      → Kept (goes_on r) s.captured (recover f r overrun s)
  unfolding recover reopen_capture say
  recover-Kept stop_seen overrun s = (refl, refl)
  recover-Kept recovered overrun s = (refl, refl)
  recover-Kept (reopening attempts) overrun s = reopen_from-Kept attempts 100 _

  module _ (rate channels : ℕ) where
    -- The frames so far, and those of the readings to come.
    abbrev pub owed : Server f → List Reading → List AudioFrame
    owed s readings = s.captured ++ frames_read rate channels (length s.captured) readings

    -- A round moves from one to the other.
    abbrev pub Owes : List AudioFrame → List Reading → Round f → Type 0
    Owes xs readings (continues t) = owed t readings ≡ xs
    Owes xs readings (breaks t) = t.captured ≡ xs
    Owes xs readings (terminates e) = Unit

    Kept-Owes :
        (b : Bool) (s : Server f) (readings : List Reading) (x : Round f)
        → Kept b s.captured x
        → Owes
            (s.captured
              ++ (if b then frames_read rate channels (length s.captured) readings else []))
            readings
            x
    Kept-Owes b s readings (continues t) (hb, h) = rw (hb, h) refl
    Kept-Owes b s readings (breaks t) (hb, h) = rw (hb, h) (sym (append-nil s.captured))
    Kept-Owes b s readings (terminates e) h = tt

    sent-Owes :
        (s t : Server f) (x : AudioFrame) (readings : List Reading) (r : Result (List ℕ))
        → t.captured ≡ s.captured ++ x ∷ []
        → Owes
            (s.captured ++ x ∷ frames_read rate channels (suc (length s.captured)) readings)
            readings
            (send_packet f r t)
    unfolding send_packet say
    sent-Owes s t x readings (ok p) h =
        let n : length (s.captured ++ x ∷ []) ≡ suc (length s.captured) =
          omega (arith, length-append s.captured (x ∷ [])) in
        rw (h, n) (append_assoc s.captured (x ∷ []) _)
    sent-Owes s t x readings (err e) h = tt

    pub capture_round-Owes :
        (g : Segmenter f) (m : Meter f) (r : Reading) (s : Server f) (readings : List Reading)
        → IsFaithful f g rate channels s
        → Owes (owed s (r ∷ readings)) readings (capture_round f m r s)
    unfolding capture_round make_frame
    capture_round-Owes g m no_frames s readings h = refl
    capture_round-Owes g m (failed overrun r) s readings h =
        Kept-Owes (goes_on r) s readings (recover f r overrun s) (recover-Kept r overrun s)
    capture_round-Owes g m (frames count buffer now) s readings h =
        let x = make_frame f s count buffer now in
        let e : x ≡ record {
          sequence = length s.captured % 2 ^ 64;
          timestamp_ms = now % 2 ^ 64;
          sample_rate = rate;
          channels = channels;
          samples = take (count * channels) buffer;
        } =
          cc (h.counted, h.rated, h.mixed) in
        subst
          (λ y.
            Owes (s.captured ++ y ∷ frames_read rate channels (suc (length s.captured)) readings)
              readings (capture_round f m (frames count buffer now) s))
          e
          (sent-Owes s (analyse f m x count s) x readings (encode_audio_packet x)
            (analyse-TakesIn f m x count s).logged)
