-- ===== src/AsrProbe/Release.antt =====
-- What the recogniser probe releases (board/asr_probe.cpp).
use voice_edge_monitor.Base.{
  ℕ, ◌≡◌, Bool, true, false, Option, none, some, List, [], ◌∷◌, ◌++◌, arith,
}
use voice_edge_monitor.Audio.{Floats}
use voice_edge_monitor.Wav.Read.{WaveData}
use voice_edge_monitor.Asr.{Decoding}
use voice_edge_monitor.AsrProbe.{
  Engine, Call, create_recognizer, create_stream, accept_waveform, decode_stream, get_result,
  destroy_result, destroy_stream, destroy_recognizer, transcribe, recognise,
}

module _ (f : Floats) where
  -- A recogniser, a stream and a result that are alive: each is used and destroyed while it is, the
  -- result before its stream and this before the recogniser. Nothing is alive at the end.
  abbrev pub IsClean : Bool → Bool → Bool → List (Call f) → Type 0
  IsClean engine stream result [] = (engine ≡ false) × (stream ≡ false) × (result ≡ false)
  IsClean engine stream result (create_recognizer ∷ cs) =
      (engine ≡ false) × IsClean true stream result cs
  IsClean engine stream result (create_stream ∷ cs) =
      (engine ≡ true) × (stream ≡ false) × IsClean engine true result cs
  IsClean engine stream result (accept_waveform rate xs ∷ cs) =
      (stream ≡ true) × IsClean engine stream result cs
  IsClean engine stream result (decode_stream ∷ cs) =
      (stream ≡ true) × IsClean engine stream result cs
  IsClean engine stream result (get_result ∷ cs) =
      (stream ≡ true) × (result ≡ false) × IsClean engine stream true cs
  IsClean engine stream result (destroy_result ∷ cs) =
      (result ≡ true) × IsClean engine stream false cs
  IsClean engine stream result (destroy_stream ∷ cs) =
      (stream ≡ true) × (result ≡ false) × IsClean engine false result cs
  IsClean engine stream result (destroy_recognizer ∷ cs) =
      (engine ≡ true) × (stream ≡ false) × IsClean false stream result cs

  transcribe-IsClean :
      (d : Decoding) (wave : WaveData f)
      → IsClean true false false ((transcribe f d wave).0 ++ destroy_recognizer ∷ [])
  unfolding transcribe
  transcribe-IsClean d wave = go d.creates d.result
    where
      go :
          (c : Bool) (r : Option (Option (List ℕ)))
          → IsClean true false false (
              (transcribe f (record { creates = c; result = r; elapsed_ms = d.elapsed_ms }) wave).0
              ++ destroy_recognizer ∷ [])
      go false r = ground arith
      go true none = ground arith
      go true (some t) = ground arith

  -- Whatever sherpa-onnx answers, the recogniser probe has destroyed, when it ends, each recogniser, stream
  -- and result that it got, once, in an order in which each is used only while it is alive.
  recognise-IsClean :
      (e : Engine) (wave : WaveData f) → IsClean false false false (recognise f e wave).0
  unfolding recognise
  recognise-IsClean e wave = ground (arith, transcribe-IsClean e.decoding wave)
