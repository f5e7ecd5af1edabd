-- ===== src/Asr/Resources.antt =====
-- `OfflineASR::transcribe` (board/offline_asr.hpp) releases what it gets.
use voice_edge_monitor.Base.{
  ℕ, suc, ◌≡◌, refl, Bool, true, false, ◌||◌, not, Option, none, some, List, [], ◌∷◌, ◌==◌, length,
  Result, Error, ok, err, arith,
}
use voice_edge_monitor.Audio.{SpeechSegment, Floats}
use voice_edge_monitor.Queue.{is_empty}
use voice_edge_monitor.Wav.{done}
use voice_edge_monitor.Wav.Read.Mixing.{mix_frames-done}
use voice_edge_monitor.Asr.{
  AsrResult, Decoding, Call, create_stream, accept_waveform, decode_stream, get_result,
  destroy_result, destroy_stream, decode, transcribe,
}

module _ (f : Floats) where
  -- Streams and results that are alive, if the calls keep to the order of sherpa-onnx: a stream is used
  -- while it is alive, and a result is destroyed before its stream. Nothing is alive at the end.
  abbrev pub IsClean : Bool → Bool → List (Call f) → Type 0
  IsClean stream result [] = (stream ≡ false) × (result ≡ false)
  IsClean stream result (create_stream ∷ cs) = (stream ≡ false) × IsClean true result cs
  IsClean stream result (accept_waveform xs ∷ cs) = (stream ≡ true) × IsClean stream result cs
  IsClean stream result (decode_stream ∷ cs) = (stream ≡ true) × IsClean stream result cs
  IsClean stream result (get_result ∷ cs) =
      (stream ≡ true) × (result ≡ false) × IsClean stream true cs
  IsClean stream result (destroy_result ∷ cs) = (result ≡ true) × IsClean stream false cs
  IsClean stream result (destroy_stream ∷ cs) =
      (stream ≡ true) × (result ≡ false) × IsClean false result cs

  decode-IsClean : (d : Decoding) (xs : List f.Float) → IsClean false false (decode f d xs).0
  unfolding decode
  decode-IsClean d xs = go d.creates d.result
    where
      go :
          (b : Bool) (r : Option (Option (List ℕ)))
          → IsClean false false
              (decode f (record { creates = b; result = r; elapsed_ms = d.elapsed_ms }) xs).0
      go false r = (refl, refl)
      go true none = (refl, (refl, (refl, (refl, refl, (refl, refl)))))
      go true (some t) = (refl, (refl, (refl, (refl, refl, (refl, (refl, refl, (refl, refl)))))))

  -- Whatever the segment holds and whatever sherpa-onnx answers, `transcribe` ends, without a read outside
  -- the samples, with a result or an exception; each stream and each result that it gets is used only while
  -- it is alive, and is destroyed exactly once, the result before its stream.
  pub transcribe-IsClean :
      (enabled : Bool) (d : Decoding) (segment : SpeechSegment)
      → (cs : List (Call f)) × (r : Result AsrResult) × (transcribe f enabled d segment
          ≡ done (cs, r))
        × IsClean false false cs
  unfolding transcribe
  transcribe-IsClean enabled d segment =
      go (not enabled || is_empty segment.samples) refl
        (not (segment.sample_rate == 16000) || segment.channels == 0) refl
    where
      go :
          (a : Bool)
          → (not enabled || is_empty segment.samples) ≡ a
          → (b : Bool) → (not (segment.sample_rate == 16000) || segment.channels == 0) ≡ b
          → (cs : List (Call f)) × (r : Result AsrResult) × (transcribe f enabled d segment
              ≡ done (cs, r))
            × IsClean false false cs
      go true e b e' = ([], ok (record { text = []; processing_ms = 0 }), rw e refl, (refl, refl))
      go false e true e' = ([], err Error.invalid_argument, rw (e, e') refl, (refl, refl))
      go false e false e' =
          let (xs, m) =
            mix_frames-done segment.samples f segment.channels (ground arith)
              (suc (length segment.samples)) 0 (omega arith) (omega arith) in
          ((decode f d xs).0, (decode f d xs).1, rw (e, e', m) refl, decode-IsClean d xs)
