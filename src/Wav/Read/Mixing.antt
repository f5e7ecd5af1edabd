-- ===== src/Wav/Read/Mixing.antt =====
-- The loop of `OfflineASR::transcribe` that mixes the channels (board/offline_asr.hpp) ends, and
-- reads back what the recorder wrote (board/recording_store.hpp, board/asr_probe.cpp).
use voice_edge_monitor.Base.{
  ℕ, zero, suc, ◌+◌, ◌≤◌, ◌<◌, ◌≡◌, refl, List, [], ◌∷◌, leb, length, arith, Bool-cases, inl, inr,
  leb→le,
}
use voice_edge_monitor.Base.Int.{ℤ, pos, ◌+ℤ◌, signed16, signed32}
use voice_edge_monitor.Base.Maybe.{get_elem?-in_range}
use voice_edge_monitor.Audio.{Floats, SpeechSegment}
use voice_edge_monitor.Wav.{done, write_wav, Disk, WriteFate}
use voice_edge_monitor.Wav.Read.{read_wave, mix_channels, mix_frames, mixed}
use voice_edge_monitor.Wav.Read.RoundTrip.{
  IsSegment, at-some, read-bytes, wav_bytes-header, wave_of,
}
use voice_edge_monitor.Wav.Atomic.{stored}

module _ (ss : List ℕ) where
  mix_channels-done :
      (n i : ℕ) (sum : ℤ) → i + n ≤ length ss → (z : ℤ) × (mix_channels n ss i sum ≡ done z)
  unfolding mix_channels
  mix_channels-done zero i sum h = (sum, refl)
  mix_channels-done (suc n) i sum h =
      let (s, e) = get_elem?-in_range ss i (omega arith) in
      rw (at-some ss i s e) (mix_channels-done n (i + 1) (sum +ℤ signed16 s) (omega arith))

  module _ (f : Floats) (channels : ℕ) (some_channel : 0 < channels) where
    -- The loop over the frames ends with a value, if it may go as often as there are samples.
    pub mix_frames-done :
        (fuel base : ℕ)
        → length ss < fuel + base
        → 0 < fuel
        → (xs : List f.Float) × (mix_frames f fuel ss channels base ≡ done xs)
    unfolding mix_frames
    mix_frames-done zero base h p = absurd (omega arith)
    mix_frames-done (suc fuel) base h p = elim (Bool-cases (leb (base + channels) (length ss))) [
      | inr e ↦ ([], rw (e, mix_frames))
      | inl e ↦
          let (z, ez) = mix_channels-done channels base (pos 0) (leb→le _ _ e) in
          let (xs, ex) =
            mix_frames-done fuel (base + channels) (omega arith) (omega (arith, leb→le _ _ e)) in
          (mixed f z channels ∷ xs, rw (e, mix_frames, ez, ex))
    ]

-- The file that `write_wav` has put at `path` is read by `read_wave`, without an exception, as
-- the segment's rate and the very samples that `transcribe` mixes from the segment itself, for
-- any number of channels that fits two bytes.
pub read-write :
    (f : Floats) (disk disk' : Disk) (fate : WriteFate) (path : List ℕ) (s : SpeechSegment)
    → IsSegment s
    → write_wav disk fate path s ≡ (disk', done tt)
    → (xs : List f.Float) × (mix_frames f (suc (length s.samples)) s.samples s.channels 0 ≡ done xs)
      × (read_wave f (disk' path)
          ≡ done (record { sample_rate = signed32 s.sample_rate; samples = xs }))
unfolding wave_of
read-write f disk disk' fate path s w h =
    let (xs, e) =
      mix_frames-done s.samples f s.channels w.channels_pos (suc (length s.samples)) 0 (omega arith)
        (omega arith) in
    (xs, e, rw (stored disk disk' fate path s h, wav_bytes-header s) (read-bytes s w f xs e))
