-- ===== src/AsrProbe/Tests.antt =====
-- A recorded segment that the recogniser probe is run on (board/asr_probe.cpp).
use voice_edge_monitor.Base.{ℕ, ◌≡◌, refl, true, none, some, List, [], ◌∷◌, Result, arith}
use voice_edge_monitor.Audio.{SpeechSegment}
use voice_edge_monitor.Audio.FixedPoint.{fixed}
use voice_edge_monitor.Wav.{done, WriteFate, Disk, write_wav}
use voice_edge_monitor.Asr.{AsrResult, Decoding}
use voice_edge_monitor.Asr
use voice_edge_monitor.AsrProbe.{Call, probe}
use voice_edge_monitor.AsrProbe.Agreement.{Agree, probe-Agree}

abbrev stereo : SpeechSegment
stereo = record {
  id = 3;
  start_timestamp_ms = 5;
  end_timestamp_ms = 25;
  sample_rate = 16000;
  channels = 2;
  samples = 9 ∷ 65535 ∷ 4 ∷ 8 ∷ [];
}

abbrev no_file : Disk
no_file p = none

abbrev wave_path : List ℕ
wave_path = b'w' ∷ []

abbrev works : WriteFate
works = record { opens = true; completes = true; partial = []; removes = true; renames = true }

abbrev disk : Disk
disk = (write_wav no_file works wave_path stereo).0

stereo_written : write_wav no_file works wave_path stereo ≡ (disk, done tt)
unfolding write_wav
stereo_written = refl

abbrev answer : Decoding
answer = record { creates = true; result = some (some (b'o' ∷ b'k' ∷ [])); elapsed_ms = 7 }

probe-Agree_example :
    (a : List (Asr.Call fixed) × Result AsrResult) × (b : List (Call fixed) × Result AsrResult)
    × (Asr.transcribe fixed true answer stereo ≡ done a)
    × (probe fixed (record { creates = true; decoding = answer }) (disk wave_path) ≡ done b)
    × Agree fixed a b
probe-Agree_example =
    probe-Agree fixed no_file disk works wave_path stereo answer (omega arith) refl stereo_written
