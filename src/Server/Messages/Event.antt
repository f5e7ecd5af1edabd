-- ===== src/Server/Messages/Event.antt =====
-- `make_vad_event_json` of board/ws_server.cpp against the reader of JSON objects.
use voice_edge_monitor.Base.{◌≡◌, refl, ap, ◌∙◌, true, some, List, [], ◌∷◌}
use voice_edge_monitor.Audio.{Floats}
use voice_edge_monitor.Cli.{Text, bytes}
use voice_edge_monitor.Json.{all_bytes}
use voice_edge_monitor.Json.Decimal.{decimal, decimal-is_number}
use voice_edge_monitor.Json.Object.{Value, text, number, is_number, read_object}
use voice_edge_monitor.Json.Printing.{Shown, numeral, print, end, ◌and◌, IsPlain, read_object-print}
use voice_edge_monitor.Vad.{VadEventType, started, ended, VadEvent}
use voice_edge_monitor.Recorder.{streamed}
use voice_edge_monitor.Server.Messages.{vad_event_name, vad_event_fields, make_vad_event_json}
use voice_edge_monitor.Server.Messages.Reading.{said, said-IsShown}

vad_event_name-IsPlain : (t : VadEventType) → IsPlain (vad_event_name t)
unfolding vad_event_name all_bytes
vad_event_name-IsPlain started = refl
vad_event_name-IsPlain ended = refl

module _ (f : Floats) where
  abbrev pub event_members : (f.Double → Text) → VadEvent → f.Double → List (Text × Value)
  event_members print_rms event rms =
      (bytes "type", text (bytes "vad_event"))
      ∷ (bytes "event", text (vad_event_name event.type))
      ∷ (bytes "timestamp_ms", number (decimal event.timestamp_ms))
      ∷ (bytes "duration_ms", number (decimal event.duration_ms))
      ∷ (bytes "rms", number (print_rms rms))
      ∷ []

  abbrev event_fields : (f.Double → Text) → VadEvent → f.Double → List (Text × Shown)
  event_fields print_rms event rms =
      (bytes "event", said (vad_event_name event.type))
      ∷ (bytes "timestamp_ms", numeral (decimal event.timestamp_ms))
      ∷ (bytes "duration_ms", numeral (decimal event.duration_ms))
      ∷ (bytes "rms", numeral (print_rms rms))
      ∷ []

  make_vad_event_json-print :
      (print_rms : f.Double → Text) (event : VadEvent) (rms : f.Double)
      → make_vad_event_json f print_rms event rms
        ≡ print (bytes "type") (said (bytes "vad_event")) (event_fields print_rms event rms)
  unfolding make_vad_event_json streamed vad_event_fields
  make_vad_event_json-print print_rms event rms = refl

  -- If the stream prints the level as a JSON number, the message of an event is a JSON object that reads
  -- back as the event.
  read_object-make_vad_event_json :
      (print_rms : f.Double → Text) (event : VadEvent) (rms : f.Double)
      → is_number (print_rms rms) ≡ true
      → read_object (make_vad_event_json f print_rms event rms)
        ≡ some (event_members print_rms event rms)
  unfolding all_bytes
  read_object-make_vad_event_json print_rms event rms h =
      ap read_object (make_vad_event_json-print print_rms event rms)
      ∙ read_object-print (bytes "type") (said (bytes "vad_event"))
          (event_fields print_rms event rms)
          ((refl, said-IsShown (bytes "vad_event") refl)
            and (refl, said-IsShown (vad_event_name event.type) (vad_event_name-IsPlain event.type))
            and (refl, decimal-is_number event.timestamp_ms)
            and (refl, decimal-is_number event.duration_ms)
            and (refl, h)
            and end)
