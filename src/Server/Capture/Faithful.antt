-- ===== src/Server/Capture/Faithful.antt =====
-- What holds at the head of the capture loop, and of what ALSA does (`capture_loop` of
-- board/ws_server.cpp).
use voice_edge_monitor.Base.{
  ℕ, ◌*◌, ◌%◌, ◌^◌, ◌≤◌, ◌<◌, ◌≡◌, refl, List, length, All, Result, ok, err, arith,
}
use voice_edge_monitor.Audio.{AudioFrame, Floats}
use voice_edge_monitor.Segment.{Segmenter, hear}
use voice_edge_monitor.Protocol.{encode_audio_packet}
use voice_edge_monitor.Protocol.RoundTrip.{IsAudioFrame}
use voice_edge_monitor.Base.Int.{IsInt16}
use voice_edge_monitor.Alsa.{AlsaCapture}
use voice_edge_monitor.Server.{
  stop_seen, recovered, reopening, Reading, frames, no_frames, failed, Server,
}
use voice_edge_monitor.Server.Capture.Packets.{packets_of, Encoded, Numbered}

module _ (f : Floats) where
  -- The state at the head of the loop: `g` is the segmenter that the capture began with.
  pub record IsFaithful (g : Segmenter f) (rate channels : ℕ) (s : Server f) : Type 0 where
    pub encoded : Encoded s.captured (packets_of s.broadcasts)
    pub numbered : Numbered 0 s.captured
    pub counted : s.sequence ≡ length s.captured % 2 ^ 64
    pub heard : s.segmenter ≡ hear f g s.captured
    pub formed : All IsAudioFrame s.captured
    pub rated : s.audio.rate ≡ rate
    pub mixed : s.audio.channels ≡ channels

  -- A device that is opened again grants what the first one did, as `open_capture` checks; and the
  -- buffer holds fewer than 2^32 samples, of `int16_t`, and room for all the samples that
  -- `snd_pcm_readi` says it has written to it.
  abbrev pub Grants : ℕ → ℕ → Result AlsaCapture → Type 0
  Grants rate channels (err e) = Unit
  Grants rate channels (ok c) = (c.rate ≡ rate) × (c.channels ≡ channels)

  abbrev pub IsUsual : ℕ → ℕ → Reading → Type 0
  IsUsual rate channels (frames count buffer now) =
      (length buffer < 2 ^ 32) × (count * channels ≤ length buffer) × All IsInt16 buffer
  IsUsual rate channels no_frames = Unit
  IsUsual rate channels (failed overrun stop_seen) = Unit
  IsUsual rate channels (failed overrun recovered) = Unit
  IsUsual rate channels (failed overrun (reopening attempts)) = All (Grants rate channels) attempts

  pub encode-Encodes :
      (x : AudioFrame)
      → 0 < x.channels
      → x.channels ≤ 255
      → 0 < x.sample_rate
      → length x.samples < 2 ^ 32
      → (p : List ℕ) × (encode_audio_packet x ≡ ok p)
  unfolding encode_audio_packet
  encode-Encodes x a b c d = go (encode_audio_packet x) refl
    where
      go :
          (r : Result (List ℕ))
          → encode_audio_packet x ≡ r
          → (p : List ℕ) × (encode_audio_packet x ≡ ok p)
      go (ok p) e = (p, e)
      go (err e') e = absurd (ground arith)
