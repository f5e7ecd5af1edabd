-- ===== src/Server/Messages/Reading.antt =====
-- The messages of `asr_loop` in board/ws_server.cpp against the reader of JSON objects.
use voice_edge_monitor.Base.{
  ℕ, ◌≡◌, refl, ap, ◌∙◌, Bool, true, not, none, some, List, [], ◌∷◌, ltb, if◌then◌else◌,
}
use voice_edge_monitor.Audio.{SpeechSegment}
use voice_edge_monitor.Cli.{Text, bytes}
use voice_edge_monitor.Json.{all_bytes}
use voice_edge_monitor.Json.Decimal.{decimal, decimal-is_number}
use voice_edge_monitor.Json.Object.{Value, text, number, is_number, read_object}
use voice_edge_monitor.Json.Printing.{
  Shown, numeral, quoted, print, end, ◌and◌, IsShown, IsPlain, scan-plain, read_object-print,
  and_true,
}
use voice_edge_monitor.Protocol.{json_escape}
use voice_edge_monitor.Protocol.Escape.{scan-json_escape}
use voice_edge_monitor.Recorder.{streamed}
use voice_edge_monitor.Server.Recognition.{asr_final, asr_failed}
use voice_edge_monitor.Server.Messages.{AsrPrinter, asr_fields, asr_json}

-- No control characters.
abbrev pub is_clean : Text → Bool
is_clean t = all_bytes (λ c. not (ltb c 32)) t

abbrev pub said : Text → Shown
said t = quoted t t true

abbrev pub escaped : Text → Shown
escaped t = quoted (json_escape t) t (is_clean t)

pub said-IsShown : (t : Text) → IsPlain t → IsShown (said t)
said-IsShown t h rest = scan-plain t rest h

-- What a message of the recogniser's thread says, for a text that is not escaped.
abbrev pub final_members : AsrPrinter → SpeechSegment → Text → ℕ → List (Text × Value)
final_members p segment t processing_ms =
    (bytes "type", text (bytes "asr_final"))
    ∷ (bytes "segment_id", number (decimal segment.id))
    ∷ (bytes "text", text t)
    ∷ (bytes "processing_ms", number (decimal processing_ms))
    ∷ (bytes "audio_ms", number (p.audio_ms segment))
    ∷ (bytes "rtf", number (p.rtf segment processing_ms))
    ∷ []

abbrev final_fields : AsrPrinter → SpeechSegment → Text → ℕ → List (Text × Shown)
final_fields p segment t processing_ms =
    (bytes "segment_id", numeral (decimal segment.id))
    ∷ (bytes "text", escaped t)
    ∷ (bytes "processing_ms", numeral (decimal processing_ms))
    ∷ (bytes "audio_ms", numeral (p.audio_ms segment))
    ∷ (bytes "rtf", numeral (p.rtf segment processing_ms))
    ∷ []

asr_json-final :
    (p : AsrPrinter) (segment : SpeechSegment) (t : Text) (ms : ℕ)
    → asr_json p segment (asr_final segment.id (json_escape t) ms)
      ≡ print (bytes "type") (said (bytes "asr_final")) (final_fields p segment t ms)
unfolding asr_json streamed asr_fields
asr_json-final p segment t ms = refl

-- If the stream prints the length of the segment and the `rtf` as JSON numbers, then `asr_final` is a
-- JSON object that reads back as the segment, the recognised text and the numbers, provided that the
-- text has no control character; with one in it the message is no JSON object at all.
pub read_object-asr_json :
    (p : AsrPrinter) (segment : SpeechSegment) (t : Text) (ms : ℕ)
    → is_number (p.audio_ms segment) ≡ true
    → is_number (p.rtf segment ms) ≡ true
    → read_object (asr_json p segment (asr_final segment.id (json_escape t) ms))
      ≡ (if is_clean t then some (final_members p segment t ms) else none)
unfolding all_bytes
read_object-asr_json p segment t ms a r =
    ap read_object (asr_json-final p segment t ms)
    ∙ read_object-print (bytes "type") (said (bytes "asr_final")) (final_fields p segment t ms) (
        (refl, said-IsShown (bytes "asr_final") refl)
        and (refl, decimal-is_number segment.id)
        and (refl, scan-json_escape t)
        and (refl, decimal-is_number ms)
        and (refl, a)
        and (refl, r)
        and end)
    ∙ ap (λ c. if c then some (final_members p segment t ms) else none) (and_true (is_clean t))

abbrev pub failed_members : SpeechSegment → Text → List (Text × Value)
failed_members segment t =
    (bytes "type", text (bytes "asr_failed"))
    ∷ (bytes "segment_id", number (decimal segment.id))
    ∷ (bytes "reason", text t)
    ∷ []

abbrev failed_fields : SpeechSegment → Text → List (Text × Shown)
failed_fields segment t =
    (bytes "segment_id", numeral (decimal segment.id)) ∷ (bytes "reason", escaped t) ∷ []

asr_json-failed :
    (p : AsrPrinter) (segment : SpeechSegment) (t : Text)
    → asr_json p segment (asr_failed segment.id (json_escape t))
      ≡ print (bytes "type") (said (bytes "asr_failed")) (failed_fields segment t)
unfolding asr_json streamed asr_fields
asr_json-failed p segment t = refl

-- `asr_failed` reads back as the segment and the exception's message, provided that this has no control
-- character; with one in it the message is no JSON object at all.
read_object-asr_json_failed :
    (p : AsrPrinter) (segment : SpeechSegment) (t : Text)
    → read_object (asr_json p segment (asr_failed segment.id (json_escape t)))
      ≡ (if is_clean t then some (failed_members segment t) else none)
unfolding all_bytes
read_object-asr_json_failed p segment t =
    ap read_object (asr_json-failed p segment t)
    ∙ read_object-print (bytes "type") (said (bytes "asr_failed")) (failed_fields segment t) (
        (refl, said-IsShown (bytes "asr_failed") refl)
        and (refl, decimal-is_number segment.id)
        and (refl, scan-json_escape t)
        and end)
    ∙ ap (λ c. if c then some (failed_members segment t) else none) (and_true (is_clean t))
