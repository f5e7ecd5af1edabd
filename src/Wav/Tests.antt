-- ===== src/Wav/Tests.antt =====
-- Runs of `write_wav` and `read_wave` (board/recording_store.hpp, board/asr_probe.cpp), and their
-- theorems at concrete inputs.
use voice_edge_monitor.Base.{ℕ, ◌≡◌, refl, true, false, none, some, List, [], ◌∷◌, Error, arith, ok}
use voice_edge_monitor.Base.Int.{pos, signed32, ◌+ℤ◌}
use voice_edge_monitor.Audio.{SpeechSegment}
use voice_edge_monitor.Audio.FixedPoint.{fixed}
use voice_edge_monitor.Wav.{
  done, thrown, Disk, WriteFate, write_wav, wav_bytes, write_u16, write_u32,
}
use voice_edge_monitor.Wav.Atomic.{write_wav_atomic}
use voice_edge_monitor.Wav.Read.{read_wave, mix_frames}
use voice_edge_monitor.Wav.Read.Safety.{read_wave-Ends, Ends, Any}
use voice_edge_monitor.Wav.Read.Mixing.{read-write}
use voice_edge_monitor.Wav.Writer.{recorded}
use voice_edge_monitor.Wav.Writer.Same.{recorded-Same, granted}

abbrev stereo : SpeechSegment
stereo = record {
  id = 0;
  start_timestamp_ms = 0;
  end_timestamp_ms = 10;
  sample_rate = 16000;
  channels = 2;
  samples = 100 ∷ 200 ∷ 65535 ∷ 1 ∷ 7 ∷ 8 ∷ [];
}

abbrev empty_disk : Disk
empty_disk p = none

abbrev path : List ℕ
path = b'a' ∷ []

abbrev smooth : WriteFate
smooth = record { opens = true; completes = true; partial = []; removes = true; renames = true }

abbrev full : WriteFate
full = record {
  opens = true;
  completes = false;
  partial = b'R' ∷ [];
  removes = true;
  renames = true;
}

write_wav_atomic_example :
    let r = write_wav empty_disk full path stereo in
    (r.1 ≡ thrown Error.runtime_error) × (r.0 path ≡ none)
write_wav_atomic_example = write_wav_atomic empty_disk full path stereo path refl

abbrev disk : Disk
disk = (write_wav empty_disk smooth path stereo).0

written : write_wav empty_disk smooth path stereo ≡ (disk, done tt)
unfolding write_wav
written = refl

read_back :
    read_wave fixed (disk path)
    ≡ done (record { sample_rate = pos 16000; samples = pos 300 ∷ pos 0 ∷ pos 15 ∷ [] })
unfolding write_wav read_wave write_u32 write_u16 ◌+ℤ◌
read_back = refl

read-write_example :
    (xs : List fixed.Float) × (mix_frames fixed 7 stereo.samples 2 0 ≡ done xs)
    × (read_wave fixed (disk path) ≡ done (record { sample_rate = signed32 16000; samples = xs }))
read-write_example = read-write fixed empty_disk disk smooth path stereo (omega arith) written

-- A file that ends inside its first chunk.
read_wave-Ends_example : Ends Any (read_wave fixed (some (b'R' ∷ b'I' ∷ b'F' ∷ b'F' ∷ [])))
read_wave-Ends_example = read_wave-Ends fixed (some (b'R' ∷ b'I' ∷ b'F' ∷ b'F' ∷ []))

abbrev periods : List (List ℕ)
periods = (100 ∷ 200 ∷ 65535 ∷ 1 ∷ []) ∷ (7 ∷ 8 ∷ []) ∷ []

recorded-Same_example : recorded granted 16000 2 periods ≡ ok (wav_bytes stereo)
recorded-Same_example =
    recorded-Same stereo periods refl (omega arith) (omega arith) (omega arith) (omega arith)
