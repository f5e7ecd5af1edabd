-- ===== src/Server/Delivery.antt =====
-- From the server's device to the client's counters (board/ws_server.cpp, tools/ws_cli.cpp).
use native.Mathlib.Nat.{mul-div_cancel}
use voice_edge_monitor.Base.{
  ℕ, suc, ◌+◌, ◌*◌, ◌/◌, refl, ap, ◌∙◌, subst, Bool, true, false, [], take, length-take,
  if◌then◌else◌, ◌%◌, ◌^◌, ◌≤◌, ◌<◌, ◌≡◌, some, List, ◌∷◌, map, length, All, ok, arith,
}
use voice_edge_monitor.Audio.{AudioFrame, Floats}
use voice_edge_monitor.Protocol.RoundTrip.{IsAudioFrame}
use voice_edge_monitor.Segment.{Segmenter}
use voice_edge_monitor.Levels.{Meter}
use voice_edge_monitor.Alsa.{AlsaCapture}
use voice_edge_monitor.Client.{binary, Client, fresh, client_from}
use voice_edge_monitor.Client.Counting.{Carries, frames_of, client_from-all}
use voice_edge_monitor.Server.{
  Reading, frames, no_frames, failed, Server, initial, capture_loop, leave_capture,
}
use voice_edge_monitor.Server.Capture.{capture_loop-IsFaithful}
use voice_edge_monitor.Server.Capture.Reads.{frames_read, goes_on}
use voice_edge_monitor.Server.Capture.Faithful.{IsUsual}
use voice_edge_monitor.Server.Capture.Packets.{packets_of, Encoded}

Encoded-Carries :
    (xs : List AudioFrame) (ps : List (List ℕ))
    → Encoded xs ps
    → All IsAudioFrame xs
    → Carries (map binary ps) xs
Encoded-Carries [] [] e w = tt
Encoded-Carries [] (p ∷ ps) e w = absurd e
Encoded-Carries (x ∷ xs) [] e w = absurd e
Encoded-Carries (x ∷ xs) (p ∷ ps) (e, es) (w, ws) = (w, e, Encoded-Carries xs ps es ws)

-- How many frames some readings bring, up to the first failure that ends the thread.
abbrev pub frame_count : List Reading → ℕ
frame_count [] = 0
frame_count (frames count buffer now ∷ readings) = count + frame_count readings
frame_count (no_frames ∷ readings) = frame_count readings
frame_count (failed overrun recovery ∷ readings) =
    if goes_on recovery then frame_count readings else 0

frames_of_if :
    (b : Bool) (xs : List AudioFrame) (n : ℕ)
    → frames_of xs ≡ n
    → frames_of (if b then xs else []) ≡ (if b then n else 0)
frames_of_if true xs n h = h
frames_of_if false xs n h = refl

-- All samples of a reading are there.
whole_reading :
    (count channels : ℕ) (buffer : List ℕ)
    → 0 < channels
    → count * channels ≤ length buffer
    → length (take (count * channels) buffer) / channels ≡ count
whole_reading count channels buffer p h =
    let e : length (take (count * channels) buffer) ≡ count * channels =
      omega (arith, h, length-take (count * channels) buffer) in
    rw e (mul-div_cancel count p)

module _ (f : Floats) where
  frames_of-frames_read :
      (rate channels k : ℕ) (readings : List Reading)
      → 0 < channels
      → All (IsUsual f rate channels) readings
      → frames_of (frames_read rate channels k readings) ≡ frame_count readings
  frames_of-frames_read rate channels k [] p u = refl
  frames_of-frames_read rate channels k (frames count buffer now ∷ readings) p (u, us) =
      ap (λ n. n + frames_of (frames_read rate channels (suc k) readings))
        (whole_reading count channels buffer p u.1)
      ∙ ap (λ n. count + n) (frames_of-frames_read rate channels (suc k) readings p us)
  frames_of-frames_read rate channels k (no_frames ∷ readings) p (u, us) =
      frames_of-frames_read rate channels k readings p us
  frames_of-frames_read rate channels k (failed overrun recovery ∷ readings) p (u, us) =
      frames_of_if (goes_on recovery) (frames_read rate channels k readings) (frame_count readings)
        (frames_of-frames_read rate channels k readings p us)

  -- From the device to the client: whatever ALSA reads, fails at and recovers from, with the device as
  -- for the capture thread, a client without a limit that is sent all of its packets reads them
  -- without an exception, and counts, modulo 2^64, as many packets as there were readings that brought
  -- frames, up to the first failure that the thread does not recover from, and as many frames as these
  -- readings brought together.
  pub packets_delivered :
      (g : Segmenter f) (rate channels : ℕ) (m : Meter f) (audio : AlsaCapture)
      (readings : List Reading)
      → 0 < rate
      → 0 < channels
      → channels ≤ 255
      → rate < 2 ^ 32
      → audio.rate ≡ rate
      → audio.channels ≡ channels
      → All (IsUsual f rate channels) readings
      → (s : Server f) × (capture_loop f m readings (initial f audio g) ≡ ok (leave_capture f s))
        × (d : Client) × (client_from 0 (map binary (packets_of s.broadcasts)) fresh ≡ some (ok d))
        × (d.packets ≡ length (frames_read rate channels 0 readings) % 2 ^ 64)
        × (d.frames ≡ frame_count readings % 2 ^ 64)
  unfolding fresh
  packets_delivered g rate channels m audio readings a b c d er ec u =
      let (s, e, q0, es, ns, h, ws) =
        capture_loop-IsFaithful f g rate channels m audio readings a b c d er ec u in
      let (t, q, packets, heard) =
        client_from-all (map binary (packets_of s.broadcasts)) s.captured fresh
          (Encoded-Carries s.captured (packets_of s.broadcasts) es ws) (omega arith)
          (omega arith) in
      let seen = frames_of-frames_read rate channels 0 readings b u in
      (
        s,
        e,
        t,
        q,
        subst (λ xs. t.packets ≡ length xs % 2 ^ 64) q0 (omega (arith, packets)),
        subst (λ n. t.frames ≡ n % 2 ^ 64) (ap frames_of q0 ∙ seen) (omega (arith, heard)),
      )
