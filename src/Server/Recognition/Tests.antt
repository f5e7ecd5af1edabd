-- ===== src/Server/Recognition/Tests.antt =====
-- Two segments, of which the recogniser refuses one (`asr_loop` of board/ws_server.cpp).
use voice_edge_monitor.Base.{
  ℕ, ◌+◌, ◌%◌, ◌^◌, ◌≡◌, refl, false, none, List, [], ◌∷◌, ◌++◌, length, Result, Error, ok, err,
  if◌then◌else◌, ◌==◌, arith,
}
use voice_edge_monitor.Audio.{SpeechSegment}
use voice_edge_monitor.Asr.{AsrResult}
use voice_edge_monitor.Server.Recognition.{Recogniser, AsrServer, asr_loop}
use voice_edge_monitor.Server.Recognition.Answers.{answers, failures, asr_loop-answers}

abbrev segment : ℕ → List ℕ → SpeechSegment
segment id samples = record {
  id = id;
  start_timestamp_ms = 100;
  end_timestamp_ms = 900;
  sample_rate = 16000;
  channels = 1;
  samples = samples;
}

abbrev transcribe : SpeechSegment → Result AsrResult
transcribe s =
    if length s.samples == 0
    then err Error.invalid_argument
    else ok (record { text = 97 ∷ []; processing_ms = 12 })

abbrev recogniser : Recogniser
recogniser = record { transcribe = transcribe; what = λ e. 98 ∷ []; rtf = λ s ms. 48 ∷ [] }

abbrev idle_server : AsrServer
idle_server = record {
  recording_store = none;
  asr_processing = false;
  asr_processing_ms = 0;
  asr_failures = 0;
  persist_drops = 0;
  broadcasts = [];
}

abbrev segments : List SpeechSegment
segments = segment 0 (1 ∷ 2 ∷ []) ∷ segment 1 [] ∷ []

asr_loop-answers_example :
    (t : AsrServer) × (asr_loop recogniser segments idle_server ≡ ok t)
    × (t.asr_processing ≡ false)
    × (t.broadcasts ≡ [] ++ answers recogniser segments)
    × (t.asr_failures ≡ (0 + failures recogniser segments) % 2 ^ 64)
asr_loop-answers_example = asr_loop-answers recogniser segments idle_server tt (omega arith) refl
