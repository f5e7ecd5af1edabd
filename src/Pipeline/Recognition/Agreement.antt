-- ===== src/Pipeline/Recognition/Agreement.antt =====
-- The two recognising threads, of board/pipeline_probe.cpp and of board/ws_server.cpp.
use voice_edge_monitor.Base.{
  ◌≡◌, refl, ap, sym, ◌∙◌, Bool, true, false, Option, none, some, List, [], ◌∷◌, ◌++◌, Result,
  Error, ok, err,
}
use voice_edge_monitor.Audio.{SpeechSegment}
use voice_edge_monitor.Asr.{AsrResult}
use voice_edge_monitor.Segment.{incr}
use voice_edge_monitor.Protocol.{json_escape}
use voice_edge_monitor.Recorder.{Recording, Store, enqueue}
use voice_edge_monitor.Server.Recognition.{
  asr_started, asr_final, asr_failed, Recogniser, AsrServer, tell, stored, keep_record,
  final_record, failed_record, settled, recognise, asr_loop,
}
use voice_edge_monitor.Server.Recognition
use voice_edge_monitor.Pipeline.Recognition.{
  AsrWorker, count_persist, persist_record, on_failure, on_result, asr_worker,
}

-- The server's state without what the probe does not have.
abbrev pub forget : AsrServer → AsrWorker
forget s = record {
  recording_store = s.recording_store;
  asr_processing_ms = s.asr_processing_ms;
  asr_failures = s.asr_failures;
  persist_drops = s.persist_drops;
}

abbrev pub forget_result : Result AsrServer → Result AsrWorker
forget_result (ok s) = ok (forget s)
forget_result (err e) = err e

stored-count_persist :
    (answer : Store × Result Bool) (s : AsrServer)
    → count_persist answer (forget s) ≡ forget_result (stored answer s)
unfolding count_persist stored
stored-count_persist (store, ok true) s = refl
stored-count_persist (store, ok false) s = refl
stored-count_persist (store, err e) s = refl

keep_record-persist_record :
    (r : Recording) (o : Option Store) (s : AsrServer)
    → persist_record r o (forget s) ≡ forget_result (keep_record r o s)
unfolding persist_record keep_record
keep_record-persist_record r none s = refl
keep_record-persist_record r (some store) s = stored-count_persist (enqueue r store) s

module _ (p : Recogniser) where
  on_failure-forget :
      (segment : SpeechSegment) (e : Error) (s : AsrServer)
      → on_failure p segment e (forget s) ≡ forget_result (Recognition.on_failure p segment e s)
  unfolding on_failure Recognition.on_failure tell
  on_failure-forget segment e s =
      keep_record-persist_record (failed_record p segment e) s.recording_store (record s {
        asr_failures = incr s.asr_failures;
        broadcasts = s.broadcasts ++ asr_failed segment.id (json_escape (p.what e)) ∷ [];
      })

  -- What follows the `enqueue` in the `try` block, in the two programs.
  abbrev handled : SpeechSegment → AsrWorker → Result AsrWorker → Result AsrWorker
  unfolding on_failure
  handled segment s (ok u) = ok u
  handled segment s (err e) = on_failure p segment e s

  handled-forget :
      (segment : SpeechSegment) (s : AsrServer) (r : Result AsrServer)
      → handled segment (forget s) (forget_result r)
        ≡ forget_result (elim r [ ok u ↦ ok u | err e ↦ Recognition.on_failure p segment e s ])
  unfolding handled
  handled-forget segment s (ok u) = refl
  handled-forget segment s (err e) = on_failure-forget segment e s

  on_result-forget :
      (segment : SpeechSegment) (answer : Result AsrResult) (s : AsrServer)
      → on_result p segment answer (forget s)
        ≡ forget_result (Recognition.on_result p segment answer s)
  unfolding on_result handled Recognition.on_result tell
  on_result-forget segment (err e) s = on_failure-forget segment e s
  on_result-forget segment (ok result) s =
      let t : AsrServer = record s {
        asr_processing_ms = result.processing_ms;
        broadcasts =
            s.broadcasts
            ++ asr_final segment.id (json_escape result.text) result.processing_ms ∷ [];
      } in
      ap (handled segment (forget t))
        (keep_record-persist_record (final_record p segment result) s.recording_store t)
      ∙ handled-forget segment t (keep_record (final_record p segment result) s.recording_store t)

  settled-forget : (r : Result AsrServer) → forget_result (settled r) ≡ forget_result r
  unfolding settled
  settled-forget (ok s) = refl
  settled-forget (err e) = refl

  recognise-forget :
      (segment : SpeechSegment) (s : AsrServer)
      → on_result p segment (p.transcribe segment) (forget s)
        ≡ forget_result (recognise p segment s)
  unfolding recognise tell
  recognise-forget segment s =
      let t : AsrServer = record s {
        asr_processing = true;
        broadcasts =
            s.broadcasts
            ++ asr_started segment.id segment.start_timestamp_ms segment.end_timestamp_ms ∷ [];
      } in
      on_result-forget segment (p.transcribe segment) t
      ∙ sym (settled-forget (Recognition.on_result p segment (p.transcribe segment) t))

  abbrev continued : List SpeechSegment → Result AsrWorker → Result AsrWorker
  continued segments (ok t) = asr_worker p segments t
  continued segments (err e) = err e

  -- The recogniser's threads of the pipeline probe and of the server do the same for the same segments,
  -- whatever the recogniser and the recorder answer: from like states they leave like states of the recorder
  -- and of the counts of failures, drops and milliseconds, or end by the same exception.
  pub asr_worker-asr_loop :
      (segments : List SpeechSegment) (s : AsrServer)
      → asr_worker p segments (forget s) ≡ forget_result (asr_loop p segments s)
  unfolding asr_worker asr_loop
  asr_worker-asr_loop [] s = refl
  asr_worker-asr_loop (segment ∷ segments) s =
      go (recognise p segment s) (recognise-forget segment s) (λ t. asr_worker-asr_loop segments t)
    where
      go :
          (r : Result AsrServer)
          → on_result p segment (p.transcribe segment) (forget s) ≡ forget_result r
          → ((t : AsrServer)
              → asr_worker p segments (forget t) ≡ forget_result (asr_loop p segments t))
          → continued segments (on_result p segment (p.transcribe segment) (forget s))
            ≡ forget_result (elim r [ ok t ↦ asr_loop p segments t | err e ↦ err e ])
      go (ok t) e ih = ap (continued segments) e ∙ ih t
      go (err x) e ih = ap (continued segments) e
