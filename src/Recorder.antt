-- ===== src/Recorder.antt =====
-- board/recording_store.hpp: `RecordingStore`, which writes finished segments and their texts from a
-- thread of its own. `write_wav` is in Wav.antt. What the system and the stream operators supply is
-- an `Environment`.
pub mod Escape
pub mod Lines
pub mod Reading
pub mod Keeping
pub mod Drain
mod Tests
use voice_edge_monitor.Base.{
  ℕ, ◌+◌, ◌*◌, ◌%◌, ◌^◌, ◌==◌, Bool, true, false, ◌&&◌, ◌||◌, not, Option, none, some, List, [],
  ◌∷◌, ◌++◌, if◌then◌else◌, length, take, Result, Error, ok, err,
}
use voice_edge_monitor.Audio.{SpeechSegment}
use voice_edge_monitor.Cli.{Text, bytes, is_empty}
use voice_edge_monitor.Queue.{Queue, try_push, pop_for, close}
use voice_edge_monitor.Wav.{
  Disk, WriteFate, Outcome, done, thrown, out_of_bounds, out_of_fuel, write_wav,
}

pub record Config : Type 0 where
  pub root : Text
  pub save_audio : Bool
  pub save_transcript : Bool
  pub queue_capacity : ℕ

-- `RecordingRecord`. `rtf`, a `double` that is only printed, is kept as it prints.
pub record Recording : Type 0 where
  pub segment : Option SpeechSegment
  pub text : Text
  pub status : Text
  pub processing_ms : ℕ
  pub rtf : Text
  pub error : Text

-- Where the file of a segment goes, on the day of the call, and its path relative to the root;
-- whether its directory can be made, and the fate of its file; how the stream prints an integer
-- and the length of `n` samples at `d` samples a second (a `double`, to one decimal place); and, by
-- what the transcript holds and what is put out to it, how many bytes reach it if not all do.
pub record Environment : Type 0 where
  pub wav_path : ℕ → Text
  pub relative : Text → Text
  pub makes_directory : ℕ → Bool
  pub fate : ℕ → WriteFate
  pub decimal : ℕ → Text
  pub print_audio_ms : ℕ → ℕ → Text
  pub cut_off : Text → Text → Option ℕ

-- Where `worker_loop` stands: before `pop_for`, between a `pop_for` that has returned false and the
-- call of `closed()`, or behind the loop.
pub data Phase : Type 0 where
  polling missed finished : Phase

-- `worker` is whether the thread is joinable; `transcript` is what the file holds, and
-- `transcript_good` is `good()` of its stream.
pub record Store : Type 0 where
  pub config : Config
  pub queue : Queue Recording
  pub transcript : Text
  pub transcript_good : Bool
  pub worker : Bool
  pub phase : Phase
  pub dropped_records : ℕ
  pub failed_records : ℕ
  pub disk : Disk

unfoldable pub escape_byte : ℕ → Text
escape_byte c =
    if c == b'\\'
    then b'\\' ∷ b'\\' ∷ []
    else if c == b'"'
    then b'\\' ∷ b'"' ∷ []
    else if c == 10
    then b'\\' ∷ b'n' ∷ []
    else if c == 13
    then b'\\' ∷ b'r' ∷ []
    else if c == 9
    then b'\\' ∷ b't' ∷ []
    else c ∷ []

unfoldable pub json_escape : Text → Text
unfolding escape_byte
json_escape [] = []
json_escape (c ∷ cs) = escape_byte c ++ json_escape cs

unfoldable pub enabled : Config → Bool
unfolding is_empty
enabled c = not (is_empty c.root) && (c.save_audio || c.save_transcript)

-- The two arguments: whether the directories can be made, and whether the transcript opens.
unfoldable pub start : Bool → Bool → Store → Store × Result (Unit {0})
unfolding enabled
start makes_root opens s =
    if not (enabled s.config) || s.worker
    then (s, ok tt)
    else if not makes_root || (s.config.save_transcript && not opens)
    then (s, err Error.runtime_error)
    else (
      record s {
        worker = true;
        phase = polling;
        transcript_good = s.config.save_transcript || s.transcript_good;
      },
      ok tt,
    )

unfoldable pub count_drop : Store → Queue Recording × Bool → Store × Result Bool
count_drop s (q, true) = (record s { queue = q }, ok true)
count_drop s (q, false) =
    (record s { queue = q; dropped_records = (s.dropped_records + 1) % 2 ^ 64 }, ok false)

unfoldable pub enqueue : Recording → Store → Store × Result Bool
unfolding enabled try_push count_drop
enqueue r s =
    if not (enabled s.config)
    then (s, ok true)
    else if not s.worker
    then (s, err Error.logic_error)
    else count_drop s (try_push r s.queue)

-- Labels and values as the stream puts them out.
unfoldable pub streamed : List (Text × Text) → Text
streamed [] = []
streamed ((label, value) ∷ fields) = label ++ (value ++ streamed fields)

unfoldable pub audio_ms : Environment → SpeechSegment → Text
audio_ms e segment =
    if segment.channels == 0 || segment.sample_rate == 0
    then e.print_audio_ms 0 1
    else e.print_audio_ms (length segment.samples) (segment.channels * segment.sample_rate % 2 ^ 32)

unfoldable pub line_fields : Environment → Recording → SpeechSegment → Text → List (Text × Text)
unfolding json_escape audio_ms
line_fields e r segment audio_path =
    (bytes "{\"segment_id\":", e.decimal segment.id)
    ∷ (bytes ",\"start_timestamp_ms\":", e.decimal segment.start_timestamp_ms)
    ∷ (bytes ",\"end_timestamp_ms\":", e.decimal segment.end_timestamp_ms)
    ∷ (bytes ",\"audio_path\":\"", json_escape audio_path)
    ∷ (bytes "\",\"text\":\"", json_escape r.text)
    ∷ (bytes "\",\"status\":\"", json_escape r.status)
    ∷ (bytes "\",\"processing_ms\":", e.decimal r.processing_ms)
    ∷ (bytes ",\"audio_ms\":", audio_ms e segment)
    ∷ (bytes ",\"rtf\":", r.rtf)
    ∷ (bytes ",\"error\":\"", json_escape r.error)
    ∷ (bytes "\"}", [])
    ∷ []

-- The line of the transcript, without the line feed that ends it.
unfoldable pub transcript_fields : Environment → Recording → SpeechSegment → Text → Text
unfolding streamed line_fields
transcript_fields e r segment audio_path = streamed (line_fields e r segment audio_path)

-- What of some bytes reaches a file.
unfoldable pub written : Option ℕ → Text → Text
written none t = t
written (some n) t = take n t

unfoldable pub is_whole : Option ℕ → Bool
is_whole none = true
is_whole (some n) = false

-- `transcript_ << ...` and `flush`. A stream whose write has failed takes nothing more, and throws
-- nothing.
unfoldable pub put_out : Environment → Text → Store → Store
unfolding written is_whole
put_out e line s =
    if s.transcript_good
    then record s {
      transcript = s.transcript ++ written (e.cut_off s.transcript line) line;
      transcript_good = is_whole (e.cut_off s.transcript line);
    }
    else s

unfoldable pub append_transcript :
    Environment → Recording → SpeechSegment → Text → Store → Store × Bool
unfolding transcript_fields put_out
append_transcript e r segment audio_path s =
    if s.config.save_transcript
    then (put_out e (transcript_fields e r segment audio_path ++ 10 ∷ []) s, true)
    else (s, true)

unfoldable pub after_wav :
    Environment
    → Recording
    → SpeechSegment
    → Text
    → Store
    → Disk × Outcome (Unit {0})
    → Store × Bool
unfolding append_transcript
after_wav e r segment path s (disk, done u) =
    append_transcript e r segment (e.relative path) (record s { disk = disk })
after_wav e r segment path s (disk, thrown error) = (record s { disk = disk }, false)
after_wav e r segment path s (disk, out_of_bounds) = (record s { disk = disk }, false)
after_wav e r segment path s (disk, out_of_fuel) = (record s { disk = disk }, false)

unfoldable pub persist_segment :
    Environment → Recording → Option SpeechSegment → Store → Store × Bool
unfolding append_transcript after_wav write_wav
persist_segment e r none s = (s, false)
persist_segment e r (some segment) s =
    if not s.config.save_audio
    then append_transcript e r segment [] s
    else if not (e.makes_directory segment.id)
    then (s, false)
    else let path = e.wav_path segment.id in
      after_wav e r segment path s (write_wav s.disk (e.fate segment.id) path segment)

-- The flag says that no exception has left it.
unfoldable pub persist : Environment → Recording → Store → Store × Bool
unfolding persist_segment
persist e r s = persist_segment e r r.segment s

unfoldable pub count_failure : Store × Bool → Store
count_failure (s, true) = s
count_failure (s, false) = record s { failed_records = (s.failed_records + 1) % 2 ^ 64 }

unfoldable pub handle_popped : Environment → Store → Queue Recording × Option Recording → Store
unfolding persist count_failure
handle_popped e s (q, none) = record s { queue = q; phase = missed }
handle_popped e s (q, some r) = count_failure (persist e r (record s { queue = q }))

unfoldable pub popped :
    Environment → Store → Option (Queue Recording × Option Recording) → Option Store
unfolding handle_popped
popped e s none = none
popped e s (some answer) = some (handle_popped e s answer)

-- The next step of `worker_loop`; `none` while `pop_for` waits, and once the loop has been left.
unfoldable pub worker_step : Environment → Bool → Store → Option Store
unfolding pop_for popped
worker_step e timed_out s = elim s.phase [
  | polling ↦ popped e s (pop_for timed_out s.queue)
  | missed ↦ some (record s { phase = if s.queue.closed then finished else polling })
  | finished ↦ none
]

-- The first half of `stop()`, which then joins the thread; and what it does behind the join.
unfoldable pub begin_stop : Store → Store
unfolding close
begin_stop s = if s.worker then record s { queue = close s.queue } else s

unfoldable pub end_stop : Store → Store
end_stop s = record s { worker = false }
