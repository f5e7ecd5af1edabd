-- ===== src/AsrProbe.antt =====
-- board/asr_probe.cpp: `OfflineRecognizer` and what `main` does with the options. sherpa-onnx is a
-- parameter; `read_wave` is in Wav/Read.antt, the command line in Cli/AsrProbe.antt.
pub mod Agreement
pub mod Release
mod Tests
use voice_edge_monitor.Base.{
  ℕ, Bool, true, false, not, Option, none, some, List, [], ◌∷◌, ◌++◌, ◌==◌, if◌then◌else◌, Result,
  Error, ok, err,
}
use voice_edge_monitor.Base.Int.{ℤ, pos, negsuc}
use voice_edge_monitor.Audio.{Floats}
use voice_edge_monitor.Wav.{Outcome, done, ◌>>=◌}
use voice_edge_monitor.Wav.Read.{WaveData, read_wave}
use voice_edge_monitor.Asr.{AsrResult, Decoding, text_of}

-- What sherpa-onnx does: whether it creates a recogniser, and how it decodes.
pub record Engine : Type 0 where
  pub creates : Bool
  pub decoding : Decoding

unfoldable pub is_16khz : ℤ → Bool
is_16khz (pos n) = n == 16000
is_16khz (negsuc n) = false

module _ (f : Floats) where
  -- The calls of sherpa-onnx, those that create or get something only where they return it.
  pub data Call : Type 0 where
    create_recognizer create_stream : Call
    accept_waveform : ℤ → List f.Float → Call
    decode_stream get_result destroy_result destroy_stream destroy_recognizer : Call

  unfoldable pub transcribe : Decoding → WaveData f → List Call × Result AsrResult
  unfolding text_of
  transcribe d wave = if not d.creates then ([], err Error.runtime_error) else elim d.result [
    | none ↦ (
      create_stream
          ∷ accept_waveform wave.sample_rate wave.samples
          ∷ decode_stream
          ∷ destroy_stream
          ∷ [],
      err Error.runtime_error,
    )
    | some text ↦ (
      create_stream
          ∷ accept_waveform wave.sample_rate wave.samples
          ∷ decode_stream
          ∷ get_result
          ∷ destroy_result
          ∷ destroy_stream
          ∷ [],
      ok (record { text = text_of text; processing_ms = d.elapsed_ms }),
    )
  ]

  -- `main` behind `read_wave`; the destructor runs on every way out. The result is what is printed, or the
  -- exception that makes the exit code 1.
  unfoldable pub recognise : Engine → WaveData f → List Call × Result AsrResult
  unfolding transcribe is_16khz
  recognise e wave =
      let (calls, result) = transcribe e.decoding wave in
      if not (is_16khz wave.sample_rate)
      then ([], err Error.runtime_error)
      else if not e.creates
      then ([], err Error.runtime_error)
      else (create_recognizer ∷ (calls ++ destroy_recognizer ∷ []), result)

  -- `contents` is what the file at the option's path holds, if it opens.
  unfoldable pub probe : Engine → Option (List ℕ) → Outcome (List Call × Result AsrResult)
  unfolding recognise
  probe e contents = read_wave f contents >>= λ wave. done (recognise e wave)
