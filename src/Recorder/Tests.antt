-- ===== src/Recorder/Tests.antt =====
-- The recorder on small stores.
use voice_edge_monitor.Base.{
  ℕ, zero, suc, ◌*◌, ◌/◌, ◌<◌, arith, ◌≡◌, refl, true, false, none, some, List, [], ◌∷◌, ◌++◌,
  if◌then◌else◌,
}
use voice_edge_monitor.Json.{all_bytes}
use voice_edge_monitor.Cli.{Text, bytes}
use voice_edge_monitor.Audio.{SpeechSegment}
use voice_edge_monitor.Json.Object.{read_object, is_number}
use voice_edge_monitor.Json.Decimal.{decimal, digits, decimal-is_number, tenths, tenths-is_number}
use voice_edge_monitor.Recorder.Reading.{line_members, read_object-transcript_fields}
use voice_edge_monitor.Queue.{close}
use voice_edge_monitor.Recorder.{
  Environment, Recording, Store, polling, missed, finished, persist, begin_stop, worker_step,
  enqueue, streamed, line_fields, json_escape, audio_ms, transcript_fields, written, is_whole,
}
use voice_edge_monitor.Recorder.Escape.{IsOneLine}
use voice_edge_monitor.Recorder.Lines.{persist_appends_line, puts_out, IsLineOf}
use voice_edge_monitor.Recorder.Drain.{stop_drains, persist_all, work}

abbrev here : Environment
here = record {
  wav_path = λ n. bytes "segment.wav";
  relative = λ path. path;
  makes_directory = λ n. true;
  fate =
      λ n. record { opens = true; completes = true; partial = []; removes = true; renames = true };
  decimal = λ n. bytes "7";
  print_audio_ms = λ n d. bytes "1.0";
  cut_off = λ held line. none;
}

abbrev utterance : SpeechSegment
utterance = record {
  id = 7;
  start_timestamp_ms = 7;
  end_timestamp_ms = 7;
  sample_rate = 16000;
  channels = 1;
  samples = 1 ∷ 2 ∷ [];
}

abbrev hello : Recording
hello = record {
  segment = some utterance;
  text = b'a' ∷ 10 ∷ b'b' ∷ [];
  status = bytes "final";
  processing_ms = 7;
  rtf = bytes "0.1000";
  error = [];
}

abbrev holding : List Recording → Store
holding rs = record {
  config = record {
    root = bytes "/data";
    save_audio = true;
    save_transcript = true;
    queue_capacity = 4;
  };
  queue = record { capacity = 4; queue = rs; dropped_items = 0; closed = false };
  transcript = [];
  transcript_good = true;
  worker = true;
  phase = polling;
  dropped_records = 0;
  failed_records = 0;
  disk = λ path. none;
}

-- A disk that is full after three bytes.
abbrev full : Environment
full = record here { cut_off = λ held line. some 3 }

persist_appends_line_example :
    (line : Text) × IsOneLine line
    × IsLineOf full hello
        (some utterance)
        (puts_out (holding []) (persist full hello (holding [])).1)
        line
    × ((persist full hello (holding [])).0.transcript
        ≡ []
          ++ (if puts_out (holding []) (persist full hello (holding [])).1
              then written (some 3) (line ++ 10 ∷ [])
              else []))
    × ((persist full hello (holding [])).0.transcript_good ≡ (
        if puts_out (holding []) (persist full hello (holding [])).1
        then is_whole (some 3)
        else true))
unfolding all_bytes
persist_appends_line_example =
    persist_appends_line full hello (holding []) ((λ n. refl), (λ n d. refl)) refl

-- Integers in decimal and quotients to one decimal place, as the stream prints them.
abbrev shown_quotient : ℕ → ℕ → Text
shown_quotient n zero = bytes "inf"
shown_quotient n (suc d) = tenths (n * 10000 / suc d)

shown_quotient-is_number : (n d : ℕ) → 0 < d → is_number (shown_quotient n d) ≡ true
shown_quotient-is_number n zero h = absurd (omega (arith, h))
shown_quotient-is_number n (suc d) h = tenths-is_number (n * 10000 / suc d)

abbrev printing : Environment
printing = record here { decimal = decimal; print_audio_ms = shown_quotient }

read_object-transcript_fields_example :
    read_object (transcript_fields printing hello utterance (bytes "segment.wav"))
    ≡ some (line_members printing hello utterance (bytes "segment.wav"))
unfolding all_bytes
read_object-transcript_fields_example =
    read_object-transcript_fields printing hello utterance (bytes "segment.wav")
      (decimal-is_number, shown_quotient-is_number) refl refl

-- 32768 channels at 131072 Hz: the product wraps round to 0, the length prints as `inf`, and the line
-- is no JSON object.
abbrev overflowing : SpeechSegment
overflowing = record utterance { channels = 32768; sample_rate = 131072 }

overflowing_unread :
    read_object (transcript_fields printing hello overflowing (bytes "segment.wav")) ≡ none
unfolding transcript_fields streamed line_fields json_escape audio_ms decimal digits tenths
    read_object
overflowing_unread = refl

stop_drains_example :
    work here 4 (begin_stop (holding (hello ∷ hello ∷ [])))
    ≡ some (record (persist_all here (hello ∷ hello ∷ []) (holding (hello ∷ hello ∷ []))) {
      queue = record (close (holding []).queue) { queue = [] };
      phase = finished;
    })
unfolding close
stop_drains_example = stop_drains here (holding (hello ∷ hello ∷ [])) refl refl

-- A `pop_for` times out; then a record is accepted and `stop()` closes the queue, before the thread
-- calls `closed()`: it leaves its loop, and the accepted record is never written.
abbrev timed_out : Store
timed_out = record (holding []) { phase = missed }

times_out : worker_step here true (holding []) ≡ some timed_out
unfolding worker_step
times_out = refl

accepted_then_lost :
    worker_step here false (begin_stop (enqueue hello timed_out).0)
    ≡ some (record (holding (hello ∷ [])) {
      queue = close (holding (hello ∷ [])).queue;
      phase = finished;
    })
unfolding worker_step begin_stop enqueue close
accepted_then_lost = refl
