-- ===== src/Wav.antt =====
-- WAV files: `RecordingStore::write_wav` of board/recording_store.hpp, which the recorder writes
-- them with, and `read_wave` of board/asr_probe.cpp, which reads them. `size_t` sums stay below
-- 2^64, since a file is smaller.
pub mod Read
pub mod Writer
pub mod Atomic
mod Tests
use voice_edge_monitor.Base.{
  ℕ, zero, suc, ◌+◌, ◌-◌, ◌*◌, ◌/◌, ◌%◌, ◌^◌, Bool, true, false, ◌||◌, ◌&&◌, not, Option, none,
  some, List, [], ◌∷◌, ◌++◌, ltb, leb, ◌==◌, if◌then◌else◌, length, bytes_eq, take, drop, Error,
}
use voice_edge_monitor.Base.Int.{ℤ, pos, ◌+ℤ◌, signed16}
use voice_edge_monitor.Base.Maybe.{get_elem?}
use voice_edge_monitor.Audio.{SpeechSegment, Floats}
use voice_edge_monitor.Protocol.{sample_bytes}

-- `write_u16` and `write_u32`, as the bytes that they put out.
unfoldable pub write_u16 : ℕ → List ℕ
write_u16 value = value % 256 ∷ (value / 2 ^ 8) % 256 ∷ []

unfoldable pub write_u32 : ℕ → List ℕ
write_u32 value =
    value % 256 ∷ (value / 2 ^ 8) % 256 ∷ (value / 2 ^ 16) % 256 ∷ (value / 2 ^ 24) % 256 ∷ []

-- What a call leaves behind: a value, an exception, a read outside a buffer, or (only in the
-- model) a loop cut short.
pub data Outcome {ℓ} (A : Type ℓ) : Type ℓ where
  done : A → Outcome A
  thrown : Error → Outcome A
  out_of_bounds : Outcome A
  out_of_fuel : Outcome A

infixl 5 ◌>>=◌
abbrev pub ◌>>=◌ {ℓ κ} : {A : Type ℓ} {B : Type κ} → Outcome A → (A → Outcome B) → Outcome B
done a >>= k = k a
thrown e >>= k = thrown e
out_of_bounds >>= k = out_of_bounds
out_of_fuel >>= k = out_of_fuel

-- The whole file that `write_wav` puts out for a segment that passes its checks.
unfoldable pub wav_bytes : SpeechSegment → List ℕ
unfolding sample_bytes
wav_bytes segment =
    let data_bytes = length segment.samples * 2 in
    let byte_rate = segment.sample_rate * segment.channels % 2 ^ 32 * 2 % 2 ^ 32 in
    let block_align = segment.channels * 2 % 2 ^ 32 % 2 ^ 16 in
    (b'R' ∷ b'I' ∷ b'F' ∷ b'F' ∷ [])
    ++ (write_u32 ((36 + data_bytes) % 2 ^ 32)
        ++ ((b'W' ∷ b'A' ∷ b'V' ∷ b'E' ∷ b'f' ∷ b'm' ∷ b't' ∷ b' ' ∷ [])
            ++ (write_u32 16
                ++ (write_u16 1
                    ++ (write_u16 (segment.channels % 2 ^ 16)
                        ++ (write_u32 segment.sample_rate
                            ++ (write_u32 byte_rate
                                ++ (write_u16 block_align
                                    ++ (write_u16 16
                                        ++ ((b'd' ∷ b'a' ∷ b't' ∷ b'a' ∷ [])
                                            ++ (write_u32 (data_bytes % 2 ^ 32)
                                                ++ sample_bytes segment.samples)))))))))))

is_empty : List ℕ → Bool
is_empty [] = true
is_empty (s ∷ ss) = false

-- The files by path, and what the system lets happen in one call: whether the temporary file
-- opens, whether all that was written reaches it (`partial` is what does otherwise), and whether
-- `remove` and `rename` succeed; they throw `filesystem_error`, a `runtime_error`, if not.
abbrev pub Disk : Type 0
Disk = List ℕ → Option (List ℕ)

pub record WriteFate : Type 0 where
  pub opens : Bool
  pub completes : Bool
  pub partial : List ℕ
  pub removes : Bool
  pub renames : Bool

abbrev pub update : Disk → List ℕ → Option (List ℕ) → Disk
update disk path contents p = if bytes_eq path p then contents else disk p

abbrev pub tmp_suffix : List ℕ
tmp_suffix = b'.' ∷ b't' ∷ b'm' ∷ b'p' ∷ []

unfoldable pub write_wav : Disk → WriteFate → List ℕ → SpeechSegment → Disk × Outcome (Unit {0})
unfolding wav_bytes is_empty
write_wav disk fate path segment =
    let temporary = path ++ tmp_suffix in
    let data_bytes = length segment.samples * 2 in
    if segment.sample_rate == 0 || (segment.channels == 0 || is_empty segment.samples)
    then (disk, thrown Error.invalid_argument)
    else if ltb 0xffff_ffff data_bytes
    then (disk, thrown Error.runtime_error)
    else if not fate.opens
    then (disk, thrown Error.runtime_error)
    else if not fate.completes
    then (let written = update disk temporary (some fate.partial) in
        (
          if fate.removes then update written temporary none else written,
          thrown Error.runtime_error,
        ))
    else (let written = update disk temporary (some (wav_bytes segment)) in
        if not fate.renames
        then (written, thrown Error.runtime_error)
        else (update (update written path (written temporary)) temporary none, done tt))
