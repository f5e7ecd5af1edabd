-- ===== src/Recorder/Reading.antt =====
-- The lines of the transcript against the reader of JSON objects.
use voice_edge_monitor.Base.{
  ℕ, ◌≡◌, refl, ap, ◌∙◌, true, ◌&&◌, ◌||◌, Bool, none, some, List, [], ◌∷◌, if◌then◌else◌, if_elim,
  ◌==◌, ◌*◌, ◌%◌, ◌^◌, ◌<◌, not, false, arith, length,
}
use voice_edge_monitor.Audio.{SpeechSegment}
use voice_edge_monitor.Cli.{Text, bytes}
use voice_edge_monitor.Json.{all_bytes}
use voice_edge_monitor.Json.Object.{Value, text, number, is_number, read_object}
use voice_edge_monitor.Json.Printing.{
  Shown, numeral, quoted, print, end, ◌and◌, read_object-print, and_true,
}
use voice_edge_monitor.Recorder.{
  Environment, Recording, json_escape, transcript_fields, streamed, audio_ms, line_fields,
}
use voice_edge_monitor.Recorder.Escape.{is_covered, scan-recorder_escape}

-- The stream operators print integers, and quotients by a divisor other than 0, as JSON numbers.
abbrev pub PrintsNumbers : Environment → Type 0
PrintsNumbers e =
    ((n : ℕ) → is_number (e.decimal n) ≡ true)
    × ((n d : ℕ) → 0 < d → is_number (e.print_audio_ms n d) ≡ true)

-- Whether `channels * sample_rate` has not wrapped round to 0.
abbrev pub is_measured : SpeechSegment → Bool
is_measured s =
    s.channels == 0 || (s.sample_rate == 0 || not (s.channels * s.sample_rate % 2 ^ 32 == 0))

measured-pos :
    (c r p : ℕ) → (c == 0 || r == 0) ≡ false → (c == 0 || (r == 0 || not (p == 0))) ≡ true → 0 < p
measured-pos c r p h k = ground arith

audio_ms-is_number :
    (e : Environment) (segment : SpeechSegment)
    → ((n d : ℕ) → 0 < d → is_number (e.print_audio_ms n d) ≡ true)
    → is_measured segment ≡ true
    → is_number (audio_ms e segment) ≡ true
unfolding audio_ms
audio_ms-is_number e segment times h =
    if_elim (λ v. is_number v ≡ true) (segment.channels == 0 || segment.sample_rate == 0)
      (λ _. times 0 1 (omega arith))
      (λ some_rate.
        times (length segment.samples) (segment.channels * segment.sample_rate % 2 ^ 32) (
          measured-pos segment.channels segment.sample_rate
            (segment.channels * segment.sample_rate % 2 ^ 32) some_rate h))

abbrev pub covered : List ℕ → Bool
covered t = all_bytes is_covered t

abbrev escaped : List ℕ → Shown
escaped t = quoted (json_escape t) t (covered t)

-- What a line says.
abbrev pub line_members : Environment → Recording → SpeechSegment → Text → List (Text × Value)
line_members e r segment audio_path =
    (bytes "segment_id", number (e.decimal segment.id))
    ∷ (bytes "start_timestamp_ms", number (e.decimal segment.start_timestamp_ms))
    ∷ (bytes "end_timestamp_ms", number (e.decimal segment.end_timestamp_ms))
    ∷ (bytes "audio_path", text audio_path)
    ∷ (bytes "text", text r.text)
    ∷ (bytes "status", text r.status)
    ∷ (bytes "processing_ms", number (e.decimal r.processing_ms))
    ∷ (bytes "audio_ms", number (audio_ms e segment))
    ∷ (bytes "rtf", number r.rtf)
    ∷ (bytes "error", text r.error)
    ∷ []

abbrev later_fields : Environment → Recording → SpeechSegment → Text → List (Text × Shown)
later_fields e r segment audio_path =
    (bytes "start_timestamp_ms", numeral (e.decimal segment.start_timestamp_ms))
    ∷ (bytes "end_timestamp_ms", numeral (e.decimal segment.end_timestamp_ms))
    ∷ (bytes "audio_path", escaped audio_path)
    ∷ (bytes "text", escaped r.text)
    ∷ (bytes "status", escaped r.status)
    ∷ (bytes "processing_ms", numeral (e.decimal r.processing_ms))
    ∷ (bytes "audio_ms", numeral (audio_ms e segment))
    ∷ (bytes "rtf", numeral r.rtf)
    ∷ (bytes "error", escaped r.error)
    ∷ []

transcript_fields-print :
    (e : Environment) (r : Recording) (segment : SpeechSegment) (path : Text)
    → transcript_fields e r segment path
      ≡ print (bytes "segment_id") (numeral (e.decimal segment.id)) (later_fields e r segment path)
unfolding transcript_fields streamed line_fields
transcript_fields-print e r segment path = refl

-- If integers and quotients by divisors other than 0 print as JSON numbers, and the product of the
-- channels and the rate of a segment that has both does not wrap round to 0 in 32 bits, a line of the transcript is a JSON object that reads back as the
-- fields of the record, in their order, the texts as they were before they were escaped, provided that
-- the control characters in the path, the recognised text, the status and the error message are line
-- feeds, carriage returns and tabs only; with any other control character in one of them it is no
-- JSON object at all.
pub read_object-transcript_fields :
    (e : Environment) (r : Recording) (segment : SpeechSegment) (path : Text)
    → PrintsNumbers e
    → is_measured segment ≡ true
    → is_number r.rtf ≡ true
    → read_object (transcript_fields e r segment path) ≡ (
        if covered path && (covered r.text && (covered r.status && covered r.error))
        then some (line_members e r segment path)
        else none)
unfolding all_bytes
read_object-transcript_fields e r segment path (decimals, times) measured rtf =
    ap read_object (transcript_fields-print e r segment path)
    ∙ read_object-print (bytes "segment_id") (numeral (e.decimal segment.id))
        (later_fields e r segment path)
        ((refl, decimals segment.id)
          and (refl, decimals segment.start_timestamp_ms)
          and (refl, decimals segment.end_timestamp_ms)
          and (refl, scan-recorder_escape path)
          and (refl, scan-recorder_escape r.text)
          and (refl, scan-recorder_escape r.status)
          and (refl, decimals r.processing_ms)
          and (refl, audio_ms-is_number e segment times measured)
          and (refl, rtf)
          and (refl, scan-recorder_escape r.error)
          and end)
    ∙ ap
        (λ c.
          if covered path && (covered r.text && (covered r.status && c))
          then some (line_members e r segment path)
          else none)
        (and_true (covered r.error))
