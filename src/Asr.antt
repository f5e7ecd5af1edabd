-- ===== src/Asr.antt =====
-- board/offline_asr.hpp: `OfflineASR`, around the calls of sherpa-onnx, which is a parameter; the mixing
-- loop is that of Wav/Read.antt.
pub mod Resources
mod Tests
use voice_edge_monitor.Base.{
  ℕ, suc, Bool, true, false, ◌||◌, not, Option, none, some, List, [], ◌∷◌, ◌==◌, if◌then◌else◌,
  length, Result, Error, ok, err,
}
use voice_edge_monitor.Audio.{SpeechSegment, Floats}
use voice_edge_monitor.Queue.{is_empty}
use voice_edge_monitor.Wav.{Outcome, done, ◌>>=◌}
use voice_edge_monitor.Wav.Read.{mix_frames}

pub record AsrResult : Type 0 where
  pub text : List ℕ
  pub processing_ms : ℕ

-- What sherpa-onnx does with one segment: whether it creates a stream; the result, if it gets one, with
-- its text, if that is not a null pointer; and the time that passes.
pub record Decoding : Type 0 where
  pub creates : Bool
  pub result : Option (Option (List ℕ))
  pub elapsed_ms : ℕ

-- `open`: `created` is whether sherpa-onnx returns a recogniser. The result is `recognizer_`.
unfoldable pub open_recogniser : List ℕ → List ℕ → Bool → Result Bool
unfolding is_empty
open_recogniser model tokens created =
    if is_empty model || is_empty tokens
    then err Error.invalid_argument
    else if not created
    then err Error.runtime_error
    else ok true

-- `result->text != nullptr ? result->text : ""`.
unfoldable pub text_of : Option (List ℕ) → List ℕ
text_of none = []
text_of (some text) = text

module _ (f : Floats) where
  -- The calls of sherpa-onnx, those that create a stream or get a result only where they return one.
  pub data Call : Type 0 where
    create_stream : Call
    accept_waveform : List f.Float → Call
    decode_stream get_result destroy_result destroy_stream : Call

  -- From the creation of the stream on.
  unfoldable pub decode : Decoding → List f.Float → List Call × Result AsrResult
  unfolding text_of
  decode d samples = if not d.creates then ([], err Error.runtime_error) else elim d.result [
    | none ↦ (
      create_stream ∷ accept_waveform samples ∷ decode_stream ∷ destroy_stream ∷ [],
      err Error.runtime_error,
    )
    | some text ↦ (
      create_stream
          ∷ accept_waveform samples
          ∷ decode_stream
          ∷ get_result
          ∷ destroy_result
          ∷ destroy_stream
          ∷ [],
      ok (record { text = text_of text; processing_ms = d.elapsed_ms }),
    )
  ]

  unfoldable pub transcribe :
      Bool → Decoding → SpeechSegment → Outcome (List Call × Result AsrResult)
  unfolding is_empty decode
  transcribe enabled d segment =
      if not enabled || is_empty segment.samples
      then done ([], ok (record { text = []; processing_ms = 0 }))
      else if not (segment.sample_rate == 16000) || segment.channels == 0
      then done ([], err Error.invalid_argument)
      else (do
        samples ← mix_frames f (suc (length segment.samples)) segment.samples segment.channels 0
        done (decode d samples))
