-- ===== src/Server/Messages/Tests.antt =====
-- The messages of the server (board/ws_server.cpp) at concrete values.
use voice_edge_monitor.Base.{◌≡◌, refl, false, true, none, some, [], ◌∷◌}
use voice_edge_monitor.Audio.{SpeechSegment}
use voice_edge_monitor.Audio.FixedPoint.{fixed}
use voice_edge_monitor.Cli.{bytes}
use voice_edge_monitor.Json.{all_bytes}
use voice_edge_monitor.Json.Decimal.{decimal}
use voice_edge_monitor.Json.Object.{read_object}
use voice_edge_monitor.Protocol.{json_escape}
use voice_edge_monitor.Alsa.{AlsaCapture}
use voice_edge_monitor.Queue.{Queue}
use voice_edge_monitor.Vad.{EnergyVad, idle, ended, VadEvent}
use voice_edge_monitor.Segment
use voice_edge_monitor.Server.{Server, initial}
use voice_edge_monitor.Server.Recognition.{asr_final}
use voice_edge_monitor.Server.Messages.{AsrPrinter, asr_json, View, make_state_json}
use voice_edge_monitor.Server.Messages.Reading.{final_members, read_object-asr_json}
use voice_edge_monitor.Server.Messages.State.{state_members, read_object-make_state_json}

decimal_zero : decimal 0 ≡ bytes "0"
unfolding decimal
decimal_zero = refl

decimal_max : decimal 18446744073709551615 ≡ bytes "18446744073709551615"
unfolding decimal
decimal_max = refl

abbrev printer : AsrPrinter
printer = record { audio_ms = λ s. bytes "20.0"; rtf = λ s ms. bytes "0.3500" }

abbrev segment : SpeechSegment
segment = record {
  id = 12;
  start_timestamp_ms = 5;
  end_timestamp_ms = 25;
  sample_rate = 16000;
  channels = 1;
  samples = 9 ∷ 65535 ∷ [];
}

final_text :
    asr_json printer segment (asr_final 12 (json_escape (bytes "a\"b")) 7)
    ≡ bytes
        "{\"type\":\"asr_final\",\"segment_id\":12,\"text\":\"a\\\"b\",\"processing_ms\":7,\"audio_ms\":20.0,\"rtf\":0.3500}"
unfolding asr_json json_escape
final_text = refl

read_object-asr_json_example :
    read_object (asr_json printer segment (asr_final 12 (json_escape (bytes "a\"b")) 7))
    ≡ some (final_members printer segment (bytes "a\"b") 7)
unfolding all_bytes
read_object-asr_json_example = read_object-asr_json printer segment (bytes "a\"b") 7 refl refl

abbrev event : VadEvent
event = record { type = ended; timestamp_ms = 1900; duration_ms = 900 }

abbrev vad : EnergyVad fixed
vad = record {
  config = record { start_rms = 491; end_rms = 393; min_speech_ms = 125; silence_ms = 1000 };
  state = idle;
  candidate_start_ms = 0;
  speech_start_ms = 0;
  silence_start_ms = 0;
}

abbrev asr_queue : Queue SpeechSegment
asr_queue = record { capacity = 4; queue = []; dropped_items = 0; closed = false }

abbrev device : AlsaCapture
device = record { rate = 16000; channels = 1; period_frames = 4; buffer_frames = 16 }

abbrev capture : Server fixed
capture = initial fixed device (Segment.initial fixed true 30000 vad asr_queue)

abbrev view : View fixed
view = record {
  device = bytes "hw:CARD=\"U\",DEV=0";
  capture = capture;
  recognition = record {
    recording_store = none;
    asr_processing = true;
    asr_processing_ms = 12;
    asr_failures = 1;
    persist_drops = 0;
    broadcasts = [];
  };
  sessions = record { max_clients = 1; client_queue_capacity = 8; clients = [] };
  persist_failures = 0;
}

read_object-make_state_json_example :
    read_object (make_state_json fixed view 1000) ≡ some (state_members fixed view 1000)
unfolding all_bytes
read_object-make_state_json_example = read_object-make_state_json fixed view 1000
