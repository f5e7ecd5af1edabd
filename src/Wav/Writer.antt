-- ===== src/Wav/Writer.antt =====
-- `WavWriter` of board/capture_probe.cpp, which puts out a header with empty sizes, then the captured
-- buffers, and at the end the sizes. The fate of a call says whether the system lets it.
pub mod Same
use voice_edge_monitor.Base.{
  ℕ, ◌+◌, ◌*◌, ◌%◌, ◌^◌, Bool, true, false, ◌||◌, not, List, [], ◌∷◌, ◌++◌, ltb, ◌==◌,
  if◌then◌else◌, length, take, drop, Result, Error, ok, err,
}
use voice_edge_monitor.Protocol.{sample_bytes}
use voice_edge_monitor.Wav.{WriteFate, write_u16, write_u32}

pub record WavWriter : Type 0 where
  pub is_open : Bool
  pub output : List ℕ
  pub data_bytes : ℕ

unfoldable pub fresh : WavWriter
fresh = record { is_open = false; output = []; data_bytes = 0 }

unfoldable pub header : ℕ → ℕ → List ℕ
unfolding write_u16 write_u32
header rate channels =
    let bytes_per_frame = channels * 2 in
    (b'R' ∷ b'I' ∷ b'F' ∷ b'F' ∷ [])
    ++ (write_u32 0
        ++ ((b'W' ∷ b'A' ∷ b'V' ∷ b'E' ∷ [])
            ++ ((b'f' ∷ b'm' ∷ b't' ∷ b' ' ∷ [])
                ++ (write_u32 16
                    ++ (write_u16 1
                        ++ (write_u16 (channels % 2 ^ 16)
                            ++ (write_u32 rate
                                ++ (write_u32 (rate * bytes_per_frame % 2 ^ 64 % 2 ^ 32)
                                    ++ (write_u16 (bytes_per_frame % 2 ^ 16)
                                        ++ (write_u16 16
                                            ++ ((b'd' ∷ b'a' ∷ b't' ∷ b'a' ∷ [])
                                                ++ write_u32 0)))))))))))

unfoldable pub open_output : WriteFate → ℕ → ℕ → WavWriter → WavWriter × Result (Unit {0})
unfolding header
open_output fate rate channels w =
    if channels == 0 || ltb 0xffff channels
    then (w, err Error.invalid_argument)
    else if ltb 0xffff_ffff (rate * (channels * 2) % 2 ^ 64)
    then (w, err Error.invalid_argument)
    else if not fate.opens
    then (w, err Error.runtime_error)
    else if not fate.completes
    then (record w { is_open = true; output = fate.partial }, err Error.runtime_error)
    else (record w { is_open = true; output = header rate channels }, ok tt)

unfoldable pub write : WriteFate → List ℕ → WavWriter → WavWriter × Result (Unit {0})
unfolding sample_bytes
write fate samples w =
    let size = length samples * 2 in
    if not w.is_open
    then (w, ok tt)
    else if ltb 0xffff_ffff ((w.data_bytes + size) % 2 ^ 64)
    then (w, err Error.runtime_error)
    else if not fate.completes
    then (record w { output = w.output ++ fate.partial }, err Error.runtime_error)
    else (
      record w {
        output = w.output ++ sample_bytes samples;
        data_bytes = (w.data_bytes + size) % 2 ^ 64;
      },
      ok tt,
    )

-- `seekp`, and a write over what stands there.
unfoldable pub overwrite : ℕ → List ℕ → List ℕ → List ℕ
overwrite offset content output =
    take offset output ++ (content ++ drop (offset + length content) output)

unfoldable pub close : WavWriter → WavWriter
unfolding overwrite write_u32
close w = if not w.is_open then w else record w {
  is_open = false;
  output =
      overwrite 40 (write_u32 (w.data_bytes % 2 ^ 32))
        (overwrite 4 (write_u32 ((36 + w.data_bytes) % 2 ^ 32)) w.output);
}

-- The buffers of a capture, written one after the other until a call throws.
unfoldable pub write_all : WriteFate → List (List ℕ) → WavWriter → WavWriter × Result (Unit {0})
unfolding write
write_all fate [] w = (w, ok tt)
write_all fate (samples ∷ buffers) w =
    let (w', r) = write fate samples w in
    elim r [ err e ↦ (w', err e) | ok u ↦ write_all fate buffers w' ]

-- The file of a capture: `open`, the buffers, and `close`.
unfoldable pub recorded : WriteFate → ℕ → ℕ → List (List ℕ) → Result (List ℕ)
unfolding open_output write_all close fresh
recorded fate rate channels buffers =
    let (w, opened) = open_output fate rate channels fresh in
    elim opened [
      | err e ↦ err e
      | ok u ↦
          let (w', written) = write_all fate buffers w in
          elim written [ err e ↦ err e | ok u' ↦ ok (close w').output ]
    ]
