-- ===== src/Server/Capture.antt =====
-- What the capture thread sends (board/ws_server.cpp, `capture_loop`).
pub mod Packets
pub mod Faithful
pub mod Reads
pub mod Analysis
use voice_edge_monitor.Base.{
  ℕ, zero, suc, subst, take, length-take, min, ◌+◌, ◌*◌, ◌%◌, ◌^◌, ◌≤◌, ◌<◌, ◌≡◌, refl, sym, ap,
  ◌∙◌, Bool, true, false, Option, none, some, List, [], ◌∷◌, ◌++◌, map, ltb, if◌then◌else◌, if_elim,
  length, drop, length-append, All, All-snoc, All-take, append-nil, append_assoc, Result, Error, ok,
  err, arith, ◌==◌, ◌||◌,
}
use voice_edge_monitor.Audio.{AudioFrame, Floats}
use voice_edge_monitor.Vad.{VadEvent, VadEventType, started, ended, VadDecision, process}
use voice_edge_monitor.Segment.{Segmenter, Notice, handle_vad_segment, hear, hear_frame, incr}
use voice_edge_monitor.Protocol.{encode_audio_packet}
use voice_edge_monitor.Protocol.RoundTrip.{IsAudioFrame}
use voice_edge_monitor.Base.Int.{IsInt16}
use voice_edge_monitor.Levels.{Meter, update_level_stats}
use voice_edge_monitor.Alsa.{AlsaCapture}
use voice_edge_monitor.Server.{
  Recovery, stop_seen, recovered, reopening, Reading, frames, no_frames, failed, Broadcast,
  vad_event, asr_notice, capture_reconnecting, capture_reconnected, packet, Server, say,
  reopen_from, reopen_capture, Round, continues, breaks, terminates, count_type, count_event,
  cut_segments, send_packet, make_frame, analyse, after_reopening, recover, capture_round,
  leave_capture, capture_from, capture_loop, initial,
}
use voice_edge_monitor.Server.Capture.Packets.{
  packets_of, packets_of-append, Encoded, Encoded-snoc, Numbered, Numbered-snoc, hear-snoc,
}
use voice_edge_monitor.Server.Capture.Analysis.{TakesIn, said, analyse-TakesIn, analyse-audio}
use voice_edge_monitor.Server.Capture.Reads.{frames_read, owed, Owes, capture_round-Owes}
use voice_edge_monitor.Server.Capture.Faithful.{IsFaithful, Grants, IsUsual, encode-Encodes}

module _ (f : Floats) where
  module _ (g : Segmenter f) (rate channels : ℕ) (m : Meter f) where
    abbrev Rounded : Round f → Type 0
    Rounded (continues s) = IsFaithful f g rate channels s
    Rounded (breaks s) = IsFaithful f g rate channels s
    Rounded (terminates e) = ⊥

    -- `IsFaithful` does not read the other fields.
    reopen_from-Rounded :
        (attempts : List (Result AlsaCapture)) (n : ℕ) (s : Server f)
        → All (Grants f rate channels) attempts
        → IsFaithful f g rate channels s
        → Rounded (after_reopening f (reopen_from f n attempts s))
    unfolding reopen_from after_reopening say
    reopen_from-Rounded [] n s a h = h
    reopen_from-Rounded (ok c ∷ attempts) n s (b, bs) h = record {
      encoded = subst (Encoded s.captured) (sym (said f capture_reconnected s refl)) h.encoded;
      numbered = h.numbered;
      counted = h.counted;
      heard = h.heard;
      formed = h.formed;
      rated = b.0;
      mixed = b.1;
    }
    reopen_from-Rounded (err e ∷ attempts) n s (b, bs) h =
        reopen_from-Rounded attempts (min (n * 2 % 2 ^ 64) 5000)
          (record s {
            waits = s.waits ++ n ∷ [];
            capture_reconnect_failures = incr s.capture_reconnect_failures;
          })
          bs
          (record {
            encoded = h.encoded;
            numbered = h.numbered;
            counted = h.counted;
            heard = h.heard;
            formed = h.formed;
            rated = h.rated;
            mixed = h.mixed;
          })

    sent-Rounded :
        (x : AudioFrame) (s t : Server f) (p : List ℕ)
        → IsFaithful f g rate channels s
        → TakesIn f x s t
        → t.audio ≡ s.audio
        → x.sequence ≡ s.sequence
        → encode_audio_packet x ≡ ok p
        → IsAudioFrame x
        → IsFaithful f g rate channels (say f (packet p) t)
    unfolding say
    sent-Rounded x s t p h k a q e w = record {
      encoded =
          let sent =
            packets_of-append t.broadcasts (packet p ∷ []) ∙ ap (λ ps. ps ++ p ∷ []) k.unsent in
          rw (k.logged, sent) (Encoded-snoc s.captured (packets_of s.broadcasts) x p h.encoded e);
      numbered = rw k.logged (
          Numbered-snoc 0 s.captured x h.numbered
            (q ∙ h.counted ∙ ap (λ n. n % 2 ^ 64) (omega arith)));
      counted =
          rw (k.tallied, k.logged) (omega (arith, h.counted, length-append s.captured (x ∷ [])));
      heard =
          k.audible
          ∙ ap (λ g'. hear_frame f g' x) h.heard
          ∙ sym (hear-snoc g s.captured x)
          ∙ ap (hear f g) (sym k.logged);
      formed = rw k.logged (All-snoc IsAudioFrame s.captured x h.formed w);
      rated = ap (λ c. c.rate) a ∙ h.rated;
      mixed = ap (λ c. c.channels) a ∙ h.mixed;
    }

    recover-Rounded :
        (r : Recovery) (overrun : Bool) (s : Server f)
        → IsUsual f rate channels (failed overrun r)
        → IsFaithful f g rate channels s
        → Rounded (recover f r overrun s)
    unfolding recover reopen_capture say
    recover-Rounded stop_seen overrun s u h = h
    recover-Rounded recovered overrun s u h = record {
      encoded = h.encoded;
      numbered = h.numbered;
      counted = h.counted;
      heard = h.heard;
      formed = h.formed;
      rated = h.rated;
      mixed = h.mixed;
    }
    recover-Rounded (reopening attempts) overrun s u h =
        reopen_from-Rounded attempts 100
          (record s {
            xruns = if overrun then incr s.xruns else s.xruns;
            read_errors = incr s.read_errors;
            audio_state = 1;
            pcm = false;
            broadcasts = s.broadcasts ++ capture_reconnecting ∷ [];
          })
          u
          (record {
            encoded =
                subst (Encoded s.captured) (sym (said f capture_reconnecting s refl)) h.encoded;
            numbered = h.numbered;
            counted = h.counted;
            heard = h.heard;
            formed = h.formed;
            rated = h.rated;
            mixed = h.mixed;
          })

    capture_round-Rounded :
        (r : Reading) (s : Server f)
        → 0 < rate
        → 0 < channels
        → channels ≤ 255
        → rate < 2 ^ 32
        → IsUsual f rate channels r
        → IsFaithful f g rate channels s
        → Rounded (capture_round f m r s)
    unfolding capture_round send_packet make_frame
    capture_round-Rounded no_frames s a b c d u h = h
    capture_round-Rounded (failed overrun r) s a b c d u h = recover-Rounded r overrun s u h
    capture_round-Rounded (frames count buffer now) s a b c d (u, k, v) h =
        let x = make_frame f s count buffer now in
        let w : IsAudioFrame x = record {
          sequence_fits = omega (arith, h.counted);
          timestamp_fits = omega arith;
          rate_fits = omega (arith, h.rated, d);
          channels_fits = omega (arith, h.mixed, c);
          samples_fit = All-take IsInt16 (count * s.audio.channels) buffer v;
        } in
        let (p, e) =
          encode-Encodes f x (omega (arith, h.mixed)) (omega (arith, h.mixed))
            (omega (arith, h.rated))
            (omega (arith, u, length-take (count * s.audio.channels) buffer)) in
        rw e (
          sent-Rounded x s (analyse f m x count s) p h (analyse-TakesIn f m x count s)
            (analyse-audio f m x count s) refl e w)

    -- The thread has left its loop, having taken in the frames `xs`.
    abbrev Finished : List AudioFrame → Result (Server f) → Type 0
    Finished xs r =
        (s : Server f) × (r ≡ ok (leave_capture f s))
        × IsFaithful f g rate channels s
        × (s.captured ≡ xs)

    capture_from-Finished :
        (readings : List Reading) (s : Server f)
        → 0 < rate
        → 0 < channels
        → channels ≤ 255
        → rate < 2 ^ 32
        → All (IsUsual f rate channels) readings
        → IsFaithful f g rate channels s
        → Finished (owed f rate channels s readings) (capture_from f m readings s)
    unfolding capture_from
    capture_from-Finished [] s a b c d u h = (s, refl, h, sym (append-nil s.captured))
    capture_from-Finished (r ∷ readings) s a b c d (u, us) h =
        go (capture_round f m r s) (capture_round-Rounded r s a b c d u h)
          (capture_round-Owes f rate channels g m r s readings h)
          (λ s' h'. capture_from-Finished readings s' a b c d us h')
      where
        go :
            (x : Round f)
            → Rounded x
            → Owes f rate channels (owed f rate channels s (r ∷ readings)) readings x
            → ((s' : Server f)
                → IsFaithful f g rate channels s'
                → Finished (owed f rate channels s' readings) (capture_from f m readings s'))
            → Finished (owed f rate channels s (r ∷ readings)) (elim x [
              | continues s' ↦ capture_from f m readings s'
              | breaks s' ↦ ok (leave_capture f s')
              | terminates e ↦ err e
            ])
        go (continues s') h' o rest = let (t, e, k, q) = rest s' h' in (t, e, k, q ∙ o)
        go (breaks s') h' o rest = (s', refl, h', o)
        go (terminates e) h' o rest = absurd h'

  -- A server's capture thread, from its start: whatever ALSA reads, fails at and recovers from, if the
  -- device, also when it is opened again, has the options' rate and channels, these at least 1 and at
  -- most 255, with a rate of 32 bits, its buffer holds fewer than 2^32 samples, and `snd_pcm_readi` fills
  -- no more of it than there is, then the thread leaves its loop with no exception, and has captured
  -- one frame for each reading that brought any, up to the first failure that it does not recover from,
  -- with the time of the reading, the device's rate and channels, and all samples read; the packets
  -- broadcast are these frames, encoded, one for one and in order; they are well-formed and carry the
  -- sequence numbers 0, 1, 2, ..., modulo 2^64; and the segmenter has heard exactly them.
  pub capture_loop-IsFaithful :
      (g : Segmenter f) (rate channels : ℕ) (m : Meter f) (audio : AlsaCapture)
      (readings : List Reading)
      → 0 < rate
      → 0 < channels
      → channels ≤ 255
      → rate < 2 ^ 32
      → audio.rate ≡ rate
      → audio.channels ≡ channels
      → All (IsUsual f rate channels) readings
      → (s : Server f) × (capture_loop f m readings (initial f audio g) ≡ ok (leave_capture f s))
        × (s.captured ≡ frames_read rate channels 0 readings)
        × Encoded s.captured (packets_of s.broadcasts)
        × Numbered 0 s.captured
        × (s.segmenter ≡ hear f g s.captured)
        × All IsAudioFrame s.captured
  unfolding capture_loop initial hear
  capture_loop-IsFaithful g rate channels m audio readings a b c d er ec u =
      let (s, e, h, q) =
        capture_from-Finished g rate channels m readings (record (initial f audio g) { pcm = true })
          a b c d u
          (record {
            encoded = tt;
            numbered = tt;
            counted = refl;
            heard = refl;
            formed = tt;
            rated = er;
            mixed = ec;
          }) in
      (s, e, q, h.encoded, h.numbered, h.heard, h.formed)
