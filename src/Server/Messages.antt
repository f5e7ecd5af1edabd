-- ===== src/Server/Messages.antt =====
-- board/ws_server.cpp: the texts that `ServerRuntime` broadcasts (`make_vad_event_json`, `make_state_json`,
-- and those written in `asr_loop`, `handle_vad_segment` and `reopen_capture`), with the names of
-- board/energy_vad.hpp. How the stream prints doubles is a parameter.
pub mod Reading
pub mod State
pub mod Event
mod Tests
use voice_edge_monitor.Base.{ℕ, Bool, true, false, List, [], ◌∷◌, ◌==◌, if◌then◌else◌}
use voice_edge_monitor.Audio.{SpeechSegment, Floats}
use voice_edge_monitor.Cli.{Text, bytes}
use voice_edge_monitor.Json.Decimal.{decimal}
use voice_edge_monitor.Vad.{
  VadState, idle, starting, speaking, ending, VadEventType, started, ended, VadEvent,
}
use voice_edge_monitor.Segment.{Notice, segment_overflow, segment_dropped}
use voice_edge_monitor.Protocol.{json_escape}
use voice_edge_monitor.Recorder.{streamed}
use voice_edge_monitor.Server.{
  Server, Broadcast, vad_event, asr_notice, capture_reconnecting, capture_reconnected, packet,
}
use voice_edge_monitor.Server.Clients.{Clients, active_client_count}
use voice_edge_monitor.Server.Recognition.{
  AsrMessage, asr_started, asr_final, asr_failed, AsrServer,
}

unfoldable pub vad_state_name : VadState → Text
vad_state_name idle = bytes "idle"
vad_state_name starting = bytes "starting"
vad_state_name speaking = bytes "speaking"
vad_state_name ending = bytes "ending"

unfoldable pub vad_event_name : VadEventType → Text
vad_event_name started = bytes "vad_started"
vad_event_name ended = bytes "vad_ended"

-- The length of a segment and the `rtf` for a segment and `processing_ms`, as they print.
pub record AsrPrinter : Type 0 where
  pub audio_ms : SpeechSegment → Text
  pub rtf : SpeechSegment → ℕ → Text

-- The message of the recogniser's thread; the segment is the one it is about.
unfoldable pub asr_fields : AsrPrinter → SpeechSegment → AsrMessage → List (Text × Text)
unfolding decimal
asr_fields p segment (asr_started id start_timestamp_ms end_timestamp_ms) =
    (bytes "{\"type\":\"asr_started\",\"segment_id\":", decimal id)
    ∷ (bytes ",\"start_timestamp_ms\":", decimal start_timestamp_ms)
    ∷ (bytes ",\"end_timestamp_ms\":", decimal end_timestamp_ms)
    ∷ (bytes "}", [])
    ∷ []
asr_fields p segment (asr_final id escaped processing_ms) =
    (bytes "{\"type\":\"asr_final\",\"segment_id\":", decimal id)
    ∷ (bytes ",\"text\":\"", escaped)
    ∷ (bytes "\",\"processing_ms\":", decimal processing_ms)
    ∷ (bytes ",\"audio_ms\":", p.audio_ms segment)
    ∷ (bytes ",\"rtf\":", p.rtf segment processing_ms)
    ∷ (bytes "}", [])
    ∷ []
asr_fields p segment (asr_failed id escaped) =
    (bytes "{\"type\":\"asr_failed\",\"segment_id\":", decimal id)
    ∷ (bytes ",\"reason\":\"", escaped)
    ∷ (bytes "\"}", [])
    ∷ []

unfoldable pub asr_json : AsrPrinter → SpeechSegment → AsrMessage → Text
unfolding streamed asr_fields
asr_json p segment m = streamed (asr_fields p segment m)

unfoldable pub notice_json : Notice → Text
notice_json segment_overflow = bytes "{\"type\":\"asr_event\",\"event\":\"segment_overflow\"}"
notice_json segment_dropped = bytes "{\"type\":\"asr_event\",\"event\":\"segment_dropped\"}"

unfoldable pub asr_word : Bool → Text
asr_word true = bytes "processing"
asr_word false = bytes "idle"

unfoldable pub audio_word : ℕ → Text
audio_word n = if n == 0 then bytes "online" else bytes "reconnecting"

module _ (f : Floats) where
  unfoldable pub vad_event_fields : (f.Double → Text) → VadEvent → f.Double → List (Text × Text)
  unfolding vad_event_name decimal
  vad_event_fields print_rms event rms =
      (bytes "{\"type\":\"vad_event\",\"event\":\"", vad_event_name event.type)
      ∷ (bytes "\",\"timestamp_ms\":", decimal event.timestamp_ms)
      ∷ (bytes ",\"duration_ms\":", decimal event.duration_ms)
      ∷ (bytes ",\"rms\":", print_rms rms)
      ∷ (bytes "}", [])
      ∷ []

  unfoldable pub make_vad_event_json : (f.Double → Text) → VadEvent → f.Double → Text
  unfolding streamed vad_event_fields
  make_vad_event_json print_rms event rms = streamed (vad_event_fields print_rms event rms)

  -- What is sent to the clients for an entry of the capture thread's log.
  unfoldable pub broadcast_bytes : (f.Double → Text) → Broadcast f → List ℕ
  unfolding make_vad_event_json notice_json
  broadcast_bytes print_rms (vad_event event rms) = make_vad_event_json print_rms event rms
  broadcast_bytes print_rms (asr_notice notice) = notice_json notice
  broadcast_bytes print_rms capture_reconnecting =
      bytes "{\"type\":\"audio_event\",\"event\":\"capture_reconnecting\"}"
  broadcast_bytes print_rms capture_reconnected =
      bytes "{\"type\":\"audio_event\",\"event\":\"capture_reconnected\"}"
  broadcast_bytes print_rms (packet p) = p

  -- What the state message reads: `options_.device`, the capture thread's, the recogniser thread's and the
  -- clients' state, and `stats_.persist_failures`.
  pub record View : Type 0 where
    pub device : Text
    pub capture : Server f
    pub recognition : AsrServer
    pub sessions : Clients
    pub persist_failures : ℕ

  unfoldable pub state_fields : View → ℕ → List (Text × Text)
  unfolding decimal json_escape active_client_count vad_state_name asr_word audio_word
  state_fields v elapsed_ms =
      (bytes "{\"type\":\"state\",\"version\":1,\"timestamp_ms\":", decimal elapsed_ms)
      ∷ (bytes ",\"device\":\"", json_escape v.device)
      ∷ (bytes "\",\"sample_rate\":", decimal v.capture.audio.rate)
      ∷ (bytes ",\"channels\":", decimal v.capture.audio.channels)
      ∷ (bytes ",\"format\":\"S16_LE\",\"captured_frames\":", decimal v.capture.captured_frames)
      ∷ (bytes ",\"xruns\":", decimal v.capture.xruns)
      ∷ (bytes ",\"recoveries\":", decimal v.capture.recoveries)
      ∷ (bytes ",\"read_errors\":", decimal v.capture.read_errors)
      ∷ (bytes ",\"clients\":", decimal (active_client_count v.sessions))
      ∷ (bytes ",\"vad\":\"", vad_state_name v.capture.vad_state)
      ∷ (bytes "\",\"vad_started\":", decimal v.capture.vad_started)
      ∷ (bytes ",\"vad_ended\":", decimal v.capture.vad_ended)
      ∷ (bytes ",\"asr\":\"", asr_word v.recognition.asr_processing)
      ∷ (bytes "\",\"asr_segments\":", decimal v.capture.segmenter.asr_segments)
      ∷ (bytes ",\"asr_drops\":", decimal v.capture.segmenter.asr_drops)
      ∷ (bytes ",\"asr_failures\":", decimal v.recognition.asr_failures)
      ∷ (bytes ",\"asr_processing_ms\":", decimal v.recognition.asr_processing_ms)
      ∷ (bytes ",\"audio_state\":\"", audio_word v.capture.audio_state)
      ∷ (bytes "\",\"capture_reconnects\":", decimal v.capture.capture_reconnects)
      ∷ (bytes ",\"capture_reconnect_failures\":", decimal v.capture.capture_reconnect_failures)
      ∷ (bytes ",\"persist_drops\":", decimal v.recognition.persist_drops)
      ∷ (bytes ",\"persist_failures\":", decimal v.persist_failures)
      ∷ (bytes "}", [])
      ∷ []

  unfoldable pub make_state_json : View → ℕ → Text
  unfolding streamed state_fields
  make_state_json v elapsed_ms = streamed (state_fields v elapsed_ms)
