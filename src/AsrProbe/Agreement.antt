-- ===== src/AsrProbe/Agreement.antt =====
-- The probe hears what the program has recorded (board/asr_probe.cpp, board/recording_store.hpp,
-- board/offline_asr.hpp).
use voice_edge_monitor.Base.{
  ℕ, suc, ◌<◌, ◌≡◌, refl, ap, Bool, true, false, not, ◌||◌, Option, none, some, List, [], ◌∷◌, ◌==◌,
  length, Result, arith,
}
use voice_edge_monitor.Base.Int.{pos, signed32}
use voice_edge_monitor.Audio.{Floats, SpeechSegment}
use voice_edge_monitor.Queue.{is_empty}
use voice_edge_monitor.Wav.{done, WriteFate, Disk, write_wav}
use voice_edge_monitor.Wav.Read.{mix_frames}
use voice_edge_monitor.Wav.Read.RoundTrip.{IsSegment}
use voice_edge_monitor.Wav.Read.Mixing.{read-write}
use voice_edge_monitor.Asr.{AsrResult, Decoding, text_of}
use voice_edge_monitor.Asr
use voice_edge_monitor.AsrProbe.{
  Call, create_recognizer, create_stream, accept_waveform, decode_stream, get_result,
  destroy_result, destroy_stream, destroy_recognizer, recognise, probe,
}

not_empty : (xs : List ℕ) → 0 < length xs → is_empty xs ≡ false
unfolding is_empty
not_empty [] h = absurd (omega (arith, h))
not_empty (x ∷ xs) h = refl

module _ {f : Floats} where
  -- The waveforms that the recogniser is given, by the probe and by the program.
  abbrev pub heard : List (Call f) → List (List f.Float)
  heard [] = []
  heard (create_recognizer ∷ cs) = heard cs
  heard (create_stream ∷ cs) = heard cs
  heard (accept_waveform rate xs ∷ cs) = xs ∷ heard cs
  heard (decode_stream ∷ cs) = heard cs
  heard (get_result ∷ cs) = heard cs
  heard (destroy_result ∷ cs) = heard cs
  heard (destroy_stream ∷ cs) = heard cs
  heard (destroy_recognizer ∷ cs) = heard cs

  abbrev pub accepted : List (Asr.Call f) → List (List f.Float)
  accepted [] = []
  accepted (Asr.create_stream ∷ cs) = accepted cs
  accepted (Asr.accept_waveform xs ∷ cs) = xs ∷ accepted cs
  accepted (Asr.decode_stream ∷ cs) = accepted cs
  accepted (Asr.get_result ∷ cs) = accepted cs
  accepted (Asr.destroy_result ∷ cs) = accepted cs
  accepted (Asr.destroy_stream ∷ cs) = accepted cs

module _ (f : Floats) where
  abbrev pub Agree :
      List (Asr.Call f) × Result AsrResult → List (Call f) × Result AsrResult → Type 0
  Agree (cs, r) (cs', r') = (heard cs' ≡ accepted cs) × (r' ≡ r)

  decode-Agree :
      (d : Decoding) (xs : List f.Float)
      → Agree (Asr.decode f d xs) (
          recognise f
            (record { creates = true; decoding = d })
            (record { sample_rate = pos 16000; samples = xs }))
  unfolding recognise Asr.decode
  decode-Agree d xs = go d.creates d.result
    where
      go :
          (b : Bool) (r : Option (Option (List ℕ)))
          → Agree
              (Asr.decode f (record { creates = b; result = r; elapsed_ms = d.elapsed_ms }) xs)
              (recognise f
                (record {
                  creates = true;
                  decoding = record { creates = b; result = r; elapsed_ms = d.elapsed_ms };
                })
                (record { sample_rate = pos 16000; samples = xs }))
      go false r = (refl, refl)
      go true none = (refl, refl)
      go true (some t) = (refl, refl)

  transcribe-mixed :
      (d : Decoding) (s : SpeechSegment) (xs : List f.Float)
      → is_empty s.samples ≡ false
      → (not (s.sample_rate == 16000) || s.channels == 0) ≡ false
      → mix_frames f (suc (length s.samples)) s.samples s.channels 0 ≡ done xs
      → Asr.transcribe f true d s ≡ done (Asr.decode f d xs)
  unfolding Asr.transcribe
  transcribe-mixed d s xs e e' m = rw (e, e', m) refl

  -- The recogniser probe, run on the file that `write_wav` has put at `path` for a segment of 16 kHz,
  -- gives sherpa-onnx the very waveforms that the program's `transcribe` gives it for the segment
  -- itself; and if sherpa-onnx answers both alike, the probe ends with the same text or the same
  -- exception.
  pub probe-Agree :
      (disk disk' : Disk) (fate : WriteFate) (path : List ℕ) (s : SpeechSegment) (d : Decoding)
      → IsSegment s
      → s.sample_rate ≡ 16000
      → write_wav disk fate path s ≡ (disk', done tt)
      → (a : List (Asr.Call f) × Result AsrResult) × (b : List (Call f) × Result AsrResult)
        × (Asr.transcribe f true d s ≡ done a)
        × (probe f (record { creates = true; decoding = d }) (disk' path) ≡ done b)
        × Agree a b
  unfolding probe
  probe-Agree disk disk' fate path s d w rate h =
      let (xs, m, r) = read-write f disk disk' fate path s w h in
      (
        Asr.decode f d xs,
        recognise f (record { creates = true; decoding = d })
            (record { sample_rate = pos 16000; samples = xs }),
        transcribe-mixed d s xs (not_empty s.samples w.samples_some)
            (ground (arith, rate, w.channels_pos)) m,
        rw r (
            ap
              (λ (n : ℕ). done (
                recognise f (record { creates = true; decoding = d })
                  (record { sample_rate = signed32 n; samples = xs })))
              rate),
        decode-Agree d xs,
      )
