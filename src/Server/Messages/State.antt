-- ===== src/Server/Messages/State.antt =====
-- `make_state_json` of board/ws_server.cpp against the reader of JSON objects.
use voice_edge_monitor.Base.{
  ℕ, ◌≡◌, refl, ap, ◌∙◌, Bool, true, false, none, some, List, [], ◌∷◌, ◌==◌, if◌then◌else◌, if_elim,
}
use voice_edge_monitor.Audio.{Floats}
use voice_edge_monitor.Cli.{Text, bytes}
use voice_edge_monitor.Json.{all_bytes}
use voice_edge_monitor.Json.Decimal.{decimal, decimal-is_number}
use voice_edge_monitor.Json.Object.{Value, text, number, read_object}
use voice_edge_monitor.Json.Printing.{
  Shown, numeral, print, end, ◌and◌, IsPlain, read_object-print, and_true,
}
use voice_edge_monitor.Vad.{VadState, idle, starting, speaking, ending}
use voice_edge_monitor.Protocol.Escape.{scan-json_escape}
use voice_edge_monitor.Recorder.{streamed}
use voice_edge_monitor.Server.Clients.{active_client_count}
use voice_edge_monitor.Server.Messages.{
  vad_state_name, asr_word, audio_word, View, state_fields, make_state_json,
}
use voice_edge_monitor.Server.Messages.Reading.{is_clean, said, escaped, said-IsShown}

vad_state_name-IsPlain : (s : VadState) → IsPlain (vad_state_name s)
unfolding vad_state_name all_bytes
vad_state_name-IsPlain idle = refl
vad_state_name-IsPlain starting = refl
vad_state_name-IsPlain speaking = refl
vad_state_name-IsPlain ending = refl

asr_word-IsPlain : (b : Bool) → IsPlain (asr_word b)
unfolding asr_word all_bytes
asr_word-IsPlain true = refl
asr_word-IsPlain false = refl

audio_word-IsPlain : (n : ℕ) → IsPlain (audio_word n)
unfolding audio_word all_bytes
audio_word-IsPlain n = if_elim IsPlain (n == 0) (λ _. refl) (λ _. refl)

module _ (f : Floats) where
  -- What the state message says.
  abbrev pub state_members : View f → ℕ → List (Text × Value)
  state_members v elapsed_ms =
      (bytes "type", text (bytes "state"))
      ∷ (bytes "version", number (bytes "1"))
      ∷ (bytes "timestamp_ms", number (decimal elapsed_ms))
      ∷ (bytes "device", text v.device)
      ∷ (bytes "sample_rate", number (decimal v.capture.audio.rate))
      ∷ (bytes "channels", number (decimal v.capture.audio.channels))
      ∷ (bytes "format", text (bytes "S16_LE"))
      ∷ (bytes "captured_frames", number (decimal v.capture.captured_frames))
      ∷ (bytes "xruns", number (decimal v.capture.xruns))
      ∷ (bytes "recoveries", number (decimal v.capture.recoveries))
      ∷ (bytes "read_errors", number (decimal v.capture.read_errors))
      ∷ (bytes "clients", number (decimal (active_client_count v.sessions)))
      ∷ (bytes "vad", text (vad_state_name v.capture.vad_state))
      ∷ (bytes "vad_started", number (decimal v.capture.vad_started))
      ∷ (bytes "vad_ended", number (decimal v.capture.vad_ended))
      ∷ (bytes "asr", text (asr_word v.recognition.asr_processing))
      ∷ (bytes "asr_segments", number (decimal v.capture.segmenter.asr_segments))
      ∷ (bytes "asr_drops", number (decimal v.capture.segmenter.asr_drops))
      ∷ (bytes "asr_failures", number (decimal v.recognition.asr_failures))
      ∷ (bytes "asr_processing_ms", number (decimal v.recognition.asr_processing_ms))
      ∷ (bytes "audio_state", text (audio_word v.capture.audio_state))
      ∷ (bytes "capture_reconnects", number (decimal v.capture.capture_reconnects))
      ∷ (bytes "capture_reconnect_failures", number (decimal v.capture.capture_reconnect_failures))
      ∷ (bytes "persist_drops", number (decimal v.recognition.persist_drops))
      ∷ (bytes "persist_failures", number (decimal v.persist_failures))
      ∷ []

  abbrev printed_fields : View f → ℕ → List (Text × Shown)
  printed_fields v elapsed_ms =
      (bytes "version", numeral (bytes "1"))
      ∷ (bytes "timestamp_ms", numeral (decimal elapsed_ms))
      ∷ (bytes "device", escaped v.device)
      ∷ (bytes "sample_rate", numeral (decimal v.capture.audio.rate))
      ∷ (bytes "channels", numeral (decimal v.capture.audio.channels))
      ∷ (bytes "format", said (bytes "S16_LE"))
      ∷ (bytes "captured_frames", numeral (decimal v.capture.captured_frames))
      ∷ (bytes "xruns", numeral (decimal v.capture.xruns))
      ∷ (bytes "recoveries", numeral (decimal v.capture.recoveries))
      ∷ (bytes "read_errors", numeral (decimal v.capture.read_errors))
      ∷ (bytes "clients", numeral (decimal (active_client_count v.sessions)))
      ∷ (bytes "vad", said (vad_state_name v.capture.vad_state))
      ∷ (bytes "vad_started", numeral (decimal v.capture.vad_started))
      ∷ (bytes "vad_ended", numeral (decimal v.capture.vad_ended))
      ∷ (bytes "asr", said (asr_word v.recognition.asr_processing))
      ∷ (bytes "asr_segments", numeral (decimal v.capture.segmenter.asr_segments))
      ∷ (bytes "asr_drops", numeral (decimal v.capture.segmenter.asr_drops))
      ∷ (bytes "asr_failures", numeral (decimal v.recognition.asr_failures))
      ∷ (bytes "asr_processing_ms", numeral (decimal v.recognition.asr_processing_ms))
      ∷ (bytes "audio_state", said (audio_word v.capture.audio_state))
      ∷ (bytes "capture_reconnects", numeral (decimal v.capture.capture_reconnects))
      ∷ (bytes "capture_reconnect_failures", numeral (decimal v.capture.capture_reconnect_failures))
      ∷ (bytes "persist_drops", numeral (decimal v.recognition.persist_drops))
      ∷ (bytes "persist_failures", numeral (decimal v.persist_failures))
      ∷ []

  make_state_json-print :
      (v : View f) (elapsed_ms : ℕ)
      → make_state_json f v elapsed_ms
        ≡ print (bytes "type") (said (bytes "state")) (printed_fields v elapsed_ms)
  unfolding make_state_json streamed state_fields
  make_state_json-print v elapsed_ms = refl

  -- The state message is a JSON object that reads back as the state of the server, each count under its
  -- name, provided that the name of the device has no control character; with one in it the message is
  -- no JSON object at all.
  pub read_object-make_state_json :
      (v : View f) (elapsed_ms : ℕ)
      → read_object (make_state_json f v elapsed_ms)
        ≡ (if is_clean v.device then some (state_members v elapsed_ms) else none)
  unfolding all_bytes
  read_object-make_state_json v elapsed_ms =
      ap read_object (make_state_json-print v elapsed_ms)
      ∙ read_object-print (bytes "type") (said (bytes "state")) (printed_fields v elapsed_ms) (
          (refl, said-IsShown (bytes "state") refl)
          and (refl, refl)
          and (refl, decimal-is_number elapsed_ms)
          and (refl, scan-json_escape v.device)
          and (refl, decimal-is_number v.capture.audio.rate)
          and (refl, decimal-is_number v.capture.audio.channels)
          and (refl, said-IsShown (bytes "S16_LE") refl)
          and (refl, decimal-is_number v.capture.captured_frames)
          and (refl, decimal-is_number v.capture.xruns)
          and (refl, decimal-is_number v.capture.recoveries)
          and (refl, decimal-is_number v.capture.read_errors)
          and (refl, decimal-is_number (active_client_count v.sessions))
          and (
            refl,
            said-IsShown (vad_state_name v.capture.vad_state)
                (vad_state_name-IsPlain v.capture.vad_state),
          )
          and (refl, decimal-is_number v.capture.vad_started)
          and (refl, decimal-is_number v.capture.vad_ended)
          and (
            refl,
            said-IsShown (asr_word v.recognition.asr_processing)
                (asr_word-IsPlain v.recognition.asr_processing),
          )
          and (refl, decimal-is_number v.capture.segmenter.asr_segments)
          and (refl, decimal-is_number v.capture.segmenter.asr_drops)
          and (refl, decimal-is_number v.recognition.asr_failures)
          and (refl, decimal-is_number v.recognition.asr_processing_ms)
          and (
            refl,
            said-IsShown (audio_word v.capture.audio_state)
                (audio_word-IsPlain v.capture.audio_state),
          )
          and (refl, decimal-is_number v.capture.capture_reconnects)
          and (refl, decimal-is_number v.capture.capture_reconnect_failures)
          and (refl, decimal-is_number v.recognition.persist_drops)
          and (refl, decimal-is_number v.persist_failures)
          and end)
      ∙ ap (λ c. if c then some (state_members v elapsed_ms) else none)
          (and_true (is_clean v.device))
