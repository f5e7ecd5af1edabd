-- ===== src/Recorder/Lines.antt =====
-- What one `persist` does to the transcript.
use voice_edge_monitor.Base.{
  ℕ, ◌≡◌, refl, arith, append-nil, true, false, not, ◌&&◌, ◌||◌, Bool, Option, none, some, List, [],
  ◌∷◌, ◌++◌, if◌then◌else◌, if_elim, ◌==◌, ◌*◌, ◌%◌, ◌^◌, length,
}
use voice_edge_monitor.Audio.{SpeechSegment}
use voice_edge_monitor.Cli.{Text}
use voice_edge_monitor.Json.{all_bytes}
use voice_edge_monitor.Wav.{Outcome, Disk, done, thrown, out_of_bounds, out_of_fuel, write_wav}
use voice_edge_monitor.Recorder.{
  Environment, Recording, Store, persist, persist_segment, append_transcript, after_wav, put_out,
  written, is_whole, transcript_fields, streamed, audio_ms, line_fields,
}
use voice_edge_monitor.Recorder.Escape.{IsOneLine, append-IsOneLine, json_escape-IsOneLine}

-- The stream operators print numbers without line feeds.
abbrev pub PrintsOneLine : Environment → Type 0
PrintsOneLine e =
    ((n : ℕ) → IsOneLine (e.decimal n)) × ((n d : ℕ) → IsOneLine (e.print_audio_ms n d))

infixr 5 ◌and◌
data AreOneLine : List (Text × Text) → Type 0 where
  end : AreOneLine []
  ◌and◌ :
      {label value : Text} {fields : List (Text × Text)}
      → IsOneLine label × IsOneLine value
      → AreOneLine fields
      → AreOneLine ((label, value) ∷ fields)

streamed-IsOneLine : (fields : List (Text × Text)) → AreOneLine fields → IsOneLine (streamed fields)
unfolding streamed all_bytes
streamed-IsOneLine [] end = refl
streamed-IsOneLine ((label, value) ∷ fields) ((hl, hv) and hs) =
    append-IsOneLine label (value ++ streamed fields) hl
      (append-IsOneLine value (streamed fields) hv (streamed-IsOneLine fields hs))

audio_ms-IsOneLine :
    (e : Environment) (segment : SpeechSegment)
    → ((n d : ℕ) → IsOneLine (e.print_audio_ms n d))
    → IsOneLine (audio_ms e segment)
unfolding audio_ms
audio_ms-IsOneLine e segment times =
    if_elim IsOneLine (segment.channels == 0 || segment.sample_rate == 0) (λ _. times 0 1)
      (λ _. times (length segment.samples) (segment.channels * segment.sample_rate % 2 ^ 32))

transcript_fields-IsOneLine :
    (e : Environment) (r : Recording) (segment : SpeechSegment) (path : Text)
    → PrintsOneLine e
    → IsOneLine r.rtf
    → IsOneLine (transcript_fields e r segment path)
unfolding transcript_fields line_fields all_bytes
transcript_fields-IsOneLine e r segment path (decimals, times) rtf =
    streamed-IsOneLine (line_fields e r segment path) (
      (refl, decimals segment.id)
      and (refl, decimals segment.start_timestamp_ms)
      and (refl, decimals segment.end_timestamp_ms)
      and (refl, json_escape-IsOneLine path)
      and (refl, json_escape-IsOneLine r.text)
      and (refl, json_escape-IsOneLine r.status)
      and (refl, decimals r.processing_ms)
      and (refl, audio_ms-IsOneLine e segment times)
      and (refl, rtf)
      and (refl, json_escape-IsOneLine r.error)
      and (refl, refl)
      and end)

-- Whether a call puts out a line: it returns, transcripts are on, and no write has failed before.
abbrev pub puts_out : Store → Bool → Bool
puts_out s completed = completed && (s.config.save_transcript && s.transcript_good)

-- If a line is put out, there is a segment, and the line is that of the record with it.
abbrev pub IsLineOf : Environment → Recording → Option SpeechSegment → Bool → Text → Type 0
IsLineOf e r found false line = Unit
IsLineOf e r none true line = ⊥
IsLineOf e r (some segment) true line = (path : Text) × (line ≡ transcript_fields e r segment path)

fields-IsLineOf :
    (e : Environment) (r : Recording) (segment : SpeechSegment) (path : Text) (b : Bool)
    → IsLineOf e r (some segment) b (transcript_fields e r segment path)
fields-IsLineOf e r segment path false = tt
fields-IsLineOf e r segment path true = (path, refl)

-- What a call leaves of the transcript and of its stream: what reaches the file of one line more.
abbrev Appends : Environment → Recording → Option SpeechSegment → Store → Store × Bool → Type 0
Appends e r found s (s', completed) =
    (line : Text) × IsOneLine line
    × IsLineOf e r found (puts_out s completed) line
    × (s'.transcript
        ≡ s.transcript
          ++ (if puts_out s completed
              then written (e.cut_off s.transcript (line ++ 10 ∷ [])) (line ++ 10 ∷ [])
              else []))
    × (s'.transcript_good ≡ (
        if puts_out s completed
        then is_whole (e.cut_off s.transcript (line ++ 10 ∷ []))
        else s.transcript_good))

-- A call that throws.
abandoned :
    (e : Environment) (r : Recording) (found : Option SpeechSegment) (s : Store) (disk : Disk)
    → Appends e r found s (record s { disk = disk }, false)
unfolding all_bytes
abandoned e r found s disk = ([], refl, tt, ground (arith, append-nil s.transcript), refl)

append_transcript-Appends :
    (e : Environment) (r : Recording) (segment : SpeechSegment) (path : Text) (s : Store)
    → PrintsOneLine e
    → IsOneLine r.rtf
    → Appends e r (some segment) s (append_transcript e r segment path s)
unfolding append_transcript put_out
append_transcript-Appends e r segment path s he hr = (
  transcript_fields e r segment path,
  transcript_fields-IsOneLine e r segment path he hr,
  fields-IsLineOf e r segment path _,
  ground (arith, append-nil s.transcript),
  ground arith,
)

after_wav-Appends :
    (e : Environment) (r : Recording) (segment : SpeechSegment) (path : Text) (s : Store)
    (answer : Disk × Outcome (Unit {0}))
    → PrintsOneLine e
    → IsOneLine r.rtf
    → Appends e r (some segment) s (after_wav e r segment path s answer)
unfolding after_wav
after_wav-Appends e r segment path s (disk, done u) he hr =
    append_transcript-Appends e r segment (e.relative path) (record s { disk = disk }) he hr
after_wav-Appends e r segment path s (disk, thrown error) he hr =
    abandoned e r (some segment) s disk
after_wav-Appends e r segment path s (disk, out_of_bounds) he hr =
    abandoned e r (some segment) s disk
after_wav-Appends e r segment path s (disk, out_of_fuel) he hr = abandoned e r (some segment) s disk

persist_segment-Appends :
    (e : Environment) (r : Recording) (found : Option SpeechSegment) (s : Store)
    → PrintsOneLine e
    → IsOneLine r.rtf
    → Appends e r found s (persist_segment e r found s)
unfolding persist_segment
persist_segment-Appends e r none s he hr = abandoned e r none s s.disk
persist_segment-Appends e r (some segment) s he hr =
    if_elim (Appends e r (some segment) s) (not s.config.save_audio)
      (λ _. append_transcript-Appends e r segment [] s he hr)
      (λ _.
        if_elim (Appends e r (some segment) s) (not (e.makes_directory segment.id)) {x = (s, false)}
          (λ _. abandoned e r (some segment) s s.disk)
          (λ _.
            after_wav-Appends e r segment (e.wav_path segment.id) s
              (write_wav s.disk (e.fate segment.id) (e.wav_path segment.id) segment) he hr))

-- If numbers print without line feeds, `persist` keeps the transcript one record to a line, whatever
-- the recognised text, the status and the error message hold: when it returns, with transcripts
-- switched on and no write to the stream failed before, the record has a segment, and the call has put
-- out one line, that of the record with its segment, which no line feed breaks, and the line feed behind it, and the transcript has grown by all of it, or, if the system
-- cuts the write off, by what was written until then, the stream being failed from there on, although the
-- call returns; in all other cases, and when it throws, it leaves the transcript and the stream alone.
pub persist_appends_line :
    (e : Environment) (r : Recording) (s : Store)
    → PrintsOneLine e
    → IsOneLine r.rtf
    → (line : Text) × IsOneLine line
      × IsLineOf e r r.segment (puts_out s (persist e r s).1) line
      × ((persist e r s).0.transcript
          ≡ s.transcript
            ++ (if puts_out s (persist e r s).1
                then written (e.cut_off s.transcript (line ++ 10 ∷ [])) (line ++ 10 ∷ [])
                else []))
      × ((persist e r s).0.transcript_good ≡ (
          if puts_out s (persist e r s).1
          then is_whole (e.cut_off s.transcript (line ++ 10 ∷ []))
          else s.transcript_good))
unfolding persist
persist_appends_line e r s he hr = persist_segment-Appends e r r.segment s he hr
