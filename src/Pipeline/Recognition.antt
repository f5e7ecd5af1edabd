-- ===== src/Pipeline/Recognition.antt =====
-- board/pipeline_probe.cpp: `asr_worker`, which has the queued segments recognised. The recogniser is a
-- parameter, as for the server; the records are those that the server makes, too. Printing is left out.
pub mod Agreement
mod Tests
use voice_edge_monitor.Base.{
  ℕ, ◌+◌, ◌%◌, ◌^◌, Bool, true, false, Option, none, some, List, [], ◌∷◌, Result, Error, ok, err,
}
use voice_edge_monitor.Audio.{SpeechSegment}
use voice_edge_monitor.Asr.{AsrResult}
use voice_edge_monitor.Segment.{incr}
use voice_edge_monitor.Recorder.{Recording, Store, enqueue}
use voice_edge_monitor.Server.Recognition.{Recogniser, final_record, failed_record}

-- What the worker changes of `PipelineContext`.
pub record AsrWorker : Type 0 where
  pub recording_store : Option Store
  pub asr_processing_ms : ℕ
  pub asr_failures : ℕ
  pub persist_drops : ℕ

unfoldable pub count_persist : Store × Result Bool → AsrWorker → Result AsrWorker
count_persist (store, ok true) s = ok (record s { recording_store = some store })
count_persist (store, ok false) s =
    ok (record s { recording_store = some store; persist_drops = incr s.persist_drops })
count_persist (store, err e) s = err e

unfoldable pub persist_record : Recording → Option Store → AsrWorker → Result AsrWorker
unfolding count_persist
persist_record r none s = ok s
persist_record r (some store) s = count_persist (enqueue r store) s

module _ (p : Recogniser) where
  -- The handler; an exception in it ends the program.
  unfoldable pub on_failure : SpeechSegment → Error → AsrWorker → Result AsrWorker
  unfolding persist_record
  on_failure segment e s =
      let t = record s { asr_failures = incr s.asr_failures } in
      persist_record (failed_record p segment e) t.recording_store t

  unfoldable pub on_result : SpeechSegment → Result AsrResult → AsrWorker → Result AsrWorker
  unfolding on_failure
  on_result segment (err e) s = on_failure segment e s
  on_result segment (ok result) s =
      let t = record s { asr_processing_ms = result.processing_ms } in
      elim (persist_record (final_record p segment result) t.recording_store t) [
        | ok u ↦ ok u
        | err e ↦ on_failure segment e t
      ]

  -- The rounds for the segments that the queue delivers, in order.
  unfoldable pub asr_worker : List SpeechSegment → AsrWorker → Result AsrWorker
  unfolding on_result
  asr_worker [] s = ok s
  asr_worker (segment ∷ segments) s = elim (on_result segment (p.transcribe segment) s) [
    | ok t ↦ asr_worker segments t
    | err e ↦ err e
  ]
