-- ===== src/Server/Recognition.antt =====
-- board/ws_server.cpp: `ServerRuntime::asr_loop`, which has the queued segments recognised. The
-- recogniser is a parameter; the record of a segment goes to the store of Recorder.antt.
pub mod Answers
mod Tests
use voice_edge_monitor.Base.{
  ℕ, zero, suc, ◌+◌, ◌%◌, ◌^◌, Bool, true, false, Option, none, some, List, [], ◌∷◌, ◌++◌, Result,
  Error, ok, err,
}
use voice_edge_monitor.Audio.{SpeechSegment}
use voice_edge_monitor.Asr.{AsrResult}
use voice_edge_monitor.Segment.{incr}
use voice_edge_monitor.Protocol.{json_escape}
use voice_edge_monitor.Recorder.{Recording, Store, enqueue}

-- The messages that are broadcast; `asr_final` also has the segment's length and the `rtf`, which are
-- numbers of the segment and of `processing_ms`.
pub data AsrMessage : Type 0 where
  asr_started : ℕ → ℕ → ℕ → AsrMessage
  asr_final : ℕ → List ℕ → ℕ → AsrMessage
  asr_failed : ℕ → List ℕ → AsrMessage

-- `transcribe`, the message of an exception, and `rtf` as it prints.
pub record Recogniser : Type 0 where
  pub transcribe : SpeechSegment → Result AsrResult
  pub what : Error → List ℕ
  pub rtf : SpeechSegment → ℕ → List ℕ

-- `broadcasts` is a log that the program does not keep.
pub record AsrServer : Type 0 where
  pub recording_store : Option Store
  pub asr_processing : Bool
  pub asr_processing_ms : ℕ
  pub asr_failures : ℕ
  pub persist_drops : ℕ
  pub broadcasts : List AsrMessage

unfoldable pub tell : AsrMessage → AsrServer → AsrServer
tell m s = record s { broadcasts = s.broadcasts ++ m ∷ [] }

unfoldable pub stored : Store × Result Bool → AsrServer → Result AsrServer
stored (store, ok true) s = ok (record s { recording_store = some store })
stored (store, ok false) s =
    ok (record s { recording_store = some store; persist_drops = incr s.persist_drops })
stored (store, err e) s = err e

-- The `enqueue` of a record, if there is a store.
unfoldable pub keep_record : Recording → Option Store → AsrServer → Result AsrServer
unfolding stored
keep_record r none s = ok s
keep_record r (some store) s = stored (enqueue r store) s

unfoldable pub settled : Result AsrServer → Result AsrServer
settled (ok s) = ok (record s { asr_processing = false })
settled (err e) = err e

module _ (p : Recogniser) where
  unfoldable pub final_record : SpeechSegment → AsrResult → Recording
  final_record segment result = record {
    segment = some segment;
    text = result.text;
    status = b'f' ∷ b'i' ∷ b'n' ∷ b'a' ∷ b'l' ∷ [];
    processing_ms = result.processing_ms;
    rtf = p.rtf segment result.processing_ms;
    error = [];
  }

  unfoldable pub failed_record : SpeechSegment → Error → Recording
  failed_record segment e = record {
    segment = some segment;
    text = [];
    status = b'f' ∷ b'a' ∷ b'i' ∷ b'l' ∷ b'e' ∷ b'd' ∷ [];
    processing_ms = 0;
    rtf = p.rtf segment 0;
    error = p.what e;
  }

  -- The handler; an exception in it ends the program.
  unfoldable pub on_failure : SpeechSegment → Error → AsrServer → Result AsrServer
  unfolding tell keep_record failed_record
  on_failure segment e s =
      let t =
        tell (asr_failed segment.id (json_escape (p.what e)))
          (record s { asr_failures = incr s.asr_failures }) in
      keep_record (failed_record segment e) t.recording_store t

  -- What follows `transcribe`, in the `try` block and in its handler.
  unfoldable pub on_result : SpeechSegment → Result AsrResult → AsrServer → Result AsrServer
  unfolding on_failure final_record
  on_result segment (err e) s = on_failure segment e s
  on_result segment (ok result) s =
      let t =
        tell (asr_final segment.id (json_escape result.text) result.processing_ms)
          (record s { asr_processing_ms = result.processing_ms }) in
      elim (keep_record (final_record segment result) t.recording_store t) [
        | ok u ↦ ok u
        | err e ↦ on_failure segment e t
      ]

  -- One round of the loop that has popped a segment.
  unfoldable pub recognise : SpeechSegment → AsrServer → Result AsrServer
  unfolding on_result settled tell
  recognise segment s = settled (
      on_result segment (p.transcribe segment) (
        tell (asr_started segment.id segment.start_timestamp_ms segment.end_timestamp_ms)
          (record s { asr_processing = true })))

  -- The rounds for the segments that the queue delivers, in order.
  unfoldable pub asr_loop : List SpeechSegment → AsrServer → Result AsrServer
  unfolding recognise
  asr_loop [] s = ok s
  asr_loop (segment ∷ segments) s = elim (recognise segment s) [
    | ok t ↦ asr_loop segments t
    | err e ↦ err e
  ]
