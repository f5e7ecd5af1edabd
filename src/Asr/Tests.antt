-- ===== src/Asr/Tests.antt =====
-- A segment that is recognised (board/offline_asr.hpp).
use voice_edge_monitor.Base.{◌≡◌, true, false, some, List, [], ◌∷◌, Result}
use voice_edge_monitor.Audio.{SpeechSegment}
use voice_edge_monitor.Audio.FixedPoint.{fixed}
use voice_edge_monitor.Wav.{done}
use voice_edge_monitor.Asr.{AsrResult, Decoding, Call, transcribe}
use voice_edge_monitor.Asr.Resources.{IsClean, transcribe-IsClean}

abbrev segment : SpeechSegment
segment = record {
  id = 0;
  start_timestamp_ms = 100;
  end_timestamp_ms = 900;
  sample_rate = 16000;
  channels = 2;
  samples = 1 ∷ 2 ∷ 65535 ∷ 3 ∷ 9 ∷ [];
}

abbrev answer : Decoding
answer = record { creates = true; result = some (some (97 ∷ [])); elapsed_ms = 12 }

transcribe-IsClean_example :
    (cs : List (Call fixed)) × (r : Result AsrResult) × (transcribe fixed true answer segment
      ≡ done (cs, r))
    × IsClean fixed false false cs
transcribe-IsClean_example = transcribe-IsClean fixed true answer segment
