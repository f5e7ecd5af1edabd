-- ===== src/Server/Recognition/Answers.antt =====
-- Every segment is answered (`asr_loop` of board/ws_server.cpp).
use voice_edge_monitor.Base.{
  ℕ, ◌+◌, ◌%◌, ◌^◌, ◌<◌, ◌≡◌, ◌⊎◌, refl, sym, ap, ◌∙◌, Bool, true, false, Option, none, some, List,
  [], ◌∷◌, ◌++◌, append_assoc, append-nil, Result, ok, err, arith,
}
use voice_edge_monitor.Audio.{SpeechSegment}
use voice_edge_monitor.Segment.{incr}
use voice_edge_monitor.Protocol.{json_escape}
use voice_edge_monitor.Queue.{Queue, try_push}
use voice_edge_monitor.Recorder.{Recording, Store, enqueue, enabled, count_drop}
use voice_edge_monitor.Asr.{AsrResult}
use voice_edge_monitor.Server.Recognition.{
  AsrMessage, asr_started, asr_final, asr_failed, Recogniser, AsrServer, tell, stored, keep_record,
  final_record, failed_record, on_failure, on_result, settled, recognise, asr_loop,
}

-- `enqueue` does not throw: there is no store, or it saves nothing, or its thread runs.
abbrev pub IsReady : Option Store → Type 0
IsReady none = Unit
IsReady (some store) = (enabled store.config ≡ false) ⊎ (store.worker ≡ true)

enqueue-IsReady :
    (r : Recording) (store : Store)
    → IsReady (some store)
    → (u : Store) × (b : Bool) × (enqueue r store ≡ (u, ok b)) × IsReady (some u)
unfolding enqueue count_drop
enqueue-IsReady r store h = go (enabled store.config) refl (try_push r store.queue) refl
  where
    go :
        (e : Bool)
        → enabled store.config ≡ e
        → (p : Queue Recording × Bool) → try_push r store.queue ≡ p
        → (u : Store) × (b : Bool) × (enqueue r store ≡ (u, ok b)) × IsReady (some u)
    go false q p q' = (store, true, ground arith, h)
    go true q (queue, true) q' = (record store { queue = queue }, true, ground arith, h)
    go true q (queue, false) q' = (
      record store { queue = queue; dropped_records = (store.dropped_records + 1) % 2 ^ 64 },
      false,
      ground arith,
      h,
    )

-- A record has been kept, or counted as dropped.
record Kept (s t : AsrServer) : Type 0 where
  same_broadcasts : t.broadcasts ≡ s.broadcasts
  same_failures : t.asr_failures ≡ s.asr_failures
  still_ready : IsReady t.recording_store

keep_record-Kept :
    (r : Recording) (s : AsrServer)
    → IsReady s.recording_store
    → (t : AsrServer) × (keep_record r s.recording_store s ≡ ok t) × Kept s t
unfolding keep_record
keep_record-Kept r s h = go s.recording_store refl h
  where
    go :
        (o : Option Store)
        → s.recording_store ≡ o
        → IsReady o
        → (t : AsrServer) × (keep_record r o s ≡ ok t) × Kept s t
    go none q h = (
      s,
      refl,
      record { same_broadcasts = refl; same_failures = refl; still_ready = ground arith },
    )
    go (some store) q h =
        let (u, b, e, k) = enqueue-IsReady r store h in
        let (t, e', k') = settle u b k in (t, ap (λ x. stored x s) e ∙ e', k')
      where
        settle :
            (u : Store) (b : Bool)
            → IsReady (some u)
            → (t : AsrServer) × (stored (u, ok b) s ≡ ok t) × Kept s t
        settle u true k = (
          record s { recording_store = some u },
          refl,
          record { same_broadcasts = refl; same_failures = refl; still_ready = k },
        )
        settle u false k = (
          record s { recording_store = some u; persist_drops = incr s.persist_drops },
          refl,
          record { same_broadcasts = refl; same_failures = refl; still_ready = k },
        )

module _ (p : Recogniser) where
  -- The messages about one segment, and how many of them report a failure.
  abbrev outcome_of : SpeechSegment → Result AsrResult → AsrMessage × ℕ
  outcome_of segment (ok result) =
      (asr_final segment.id (json_escape result.text) result.processing_ms, 0)
  outcome_of segment (err e) = (asr_failed segment.id (json_escape (p.what e)), 1)

  abbrev pub answers : List SpeechSegment → List AsrMessage
  answers [] = []
  answers (segment ∷ segments) =
      asr_started segment.id segment.start_timestamp_ms segment.end_timestamp_ms
      ∷ (outcome_of segment (p.transcribe segment)).0
      ∷ answers segments

  abbrev pub failures : List SpeechSegment → ℕ
  failures [] = 0
  failures (segment ∷ segments) = (outcome_of segment (p.transcribe segment)).1 + failures segments

  -- `ms` have been told, and `n` more failures counted.
  record Answered (ms : List AsrMessage) (n : ℕ) (s t : AsrServer) : Type 0 where
    told : t.broadcasts ≡ s.broadcasts ++ ms
    tallied : t.asr_failures ≡ (s.asr_failures + n) % 2 ^ 64
    ready : IsReady t.recording_store

  on_result-Answered :
      (segment : SpeechSegment) (r : Result AsrResult) (s : AsrServer)
      → IsReady s.recording_store
      → s.asr_failures < 2 ^ 64
      → (t : AsrServer) × (on_result p segment r s ≡ ok t)
        × Answered ((outcome_of segment r).0 ∷ []) (outcome_of segment r).1 s t
  unfolding on_result on_failure tell
  on_result-Answered segment (err e) s h l =
      let s1 = record s {
        asr_failures = incr s.asr_failures;
        broadcasts = s.broadcasts ++ asr_failed segment.id (json_escape (p.what e)) ∷ [];
      } in
      let (t, q, k) = keep_record-Kept (failed_record p segment e) s1 h in
      (t, q, record { told = k.same_broadcasts; tallied = k.same_failures; ready = k.still_ready })
  on_result-Answered segment (ok result) s h l =
      let s1 = record s {
        asr_processing_ms = result.processing_ms;
        broadcasts =
            s.broadcasts
            ++ asr_final segment.id (json_escape result.text) result.processing_ms ∷ [];
      } in
      let (t, q, k) = keep_record-Kept (final_record p segment result) s1 h in
      (
        t,
        ground (arith, q),
        record {
          told = k.same_broadcasts;
          tallied = omega (arith, k.same_failures, l);
          ready = k.still_ready;
        },
      )

  recognise-Answered :
      (segment : SpeechSegment) (s : AsrServer)
      → IsReady s.recording_store
      → s.asr_failures < 2 ^ 64
      → (t : AsrServer) × (recognise p segment s ≡ ok t)
        × (t.asr_processing ≡ false)
        × Answered (answers (segment ∷ [])) (failures (segment ∷ [])) s t
  unfolding recognise settled tell
  recognise-Answered segment s h l =
      let s1 = record s {
        asr_processing = true;
        broadcasts =
            s.broadcasts
            ++ asr_started segment.id segment.start_timestamp_ms segment.end_timestamp_ms ∷ [];
      } in
      let (t, q, k) = on_result-Answered segment (p.transcribe segment) s1 h l in
      (
        record t { asr_processing = false },
        ap settled q,
        refl,
        record {
          told = k.told ∙ append_assoc s.broadcasts _ _;
          tallied = omega (arith, k.tallied);
          ready = k.ready;
        },
      )

  asr_loop-Answered :
      (segments : List SpeechSegment) (s : AsrServer)
      → IsReady s.recording_store
      → s.asr_failures < 2 ^ 64
      → s.asr_processing ≡ false
      → (t : AsrServer) × (asr_loop p segments s ≡ ok t)
        × (t.asr_processing ≡ false)
        × Answered (answers segments) (failures segments) s t
  unfolding asr_loop
  asr_loop-Answered [] s h l b = (
    s,
    refl,
    b,
    record { told = sym (append-nil s.broadcasts); tallied = omega (arith, l); ready = h },
  )
  asr_loop-Answered (segment ∷ segments) s h l b =
      let (t, q, b', k) = recognise-Answered segment s h l in
      let (u, q', b'', k') = asr_loop-Answered segments t k.ready (omega (arith, k.tallied)) b' in
      (
        u,
        ground (arith, q, q'),
        b'',
        record {
          told =
              k'.told
              ∙ ap (λ ms. ms ++ answers segments) k.told
              ∙ append_assoc s.broadcasts (answers (segment ∷ [])) (answers segments);
          tallied = omega (arith, k.tallied, k'.tallied);
          ready = k'.ready;
        },
      )

  -- The recogniser's thread ends without an exception, whatever the recogniser returns or throws for the
  -- segments it is given, if there is no store, or it saves nothing, or its thread runs: each
  -- segment is announced and then answered, in order, by its text or by its failure; the failures
  -- are counted, modulo 2^64; and it does not stay in the state of processing.
  pub asr_loop-answers :
      (segments : List SpeechSegment) (s : AsrServer)
      → IsReady s.recording_store
      → s.asr_failures < 2 ^ 64
      → s.asr_processing ≡ false
      → (t : AsrServer) × (asr_loop p segments s ≡ ok t)
        × (t.asr_processing ≡ false)
        × (t.broadcasts ≡ s.broadcasts ++ answers segments)
        × (t.asr_failures ≡ (s.asr_failures + failures segments) % 2 ^ 64)
  asr_loop-answers segments s h l b =
      let (t, q, b', k) = asr_loop-Answered segments s h l b in (t, q, b', k.told, k.tallied)
