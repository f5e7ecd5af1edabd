-- ===== src/Wav/Writer/Same.antt =====
-- The two writers of WAV files put out the same files.
use voice_edge_monitor.Base.{
  ℕ, ◌+◌, ◌*◌, ◌%◌, ◌/◌, ◌^◌, ◌≡◌, ◌<◌, refl, sym, ap, ◌∙◌, true, List, [], ◌∷◌, ◌++◌, length,
  arith, Result, ok, err, append_assoc, append-nil, subst, length-append,
}
use voice_edge_monitor.Audio.{SpeechSegment}
use voice_edge_monitor.Protocol.{sample_bytes}
use voice_edge_monitor.Wav.{WriteFate, wav_bytes, write_u16, write_u32}
use voice_edge_monitor.Wav.Writer.{
  WavWriter, fresh, header, recorded, open_output, write, write_all, overwrite, close,
}

abbrev pub samples_of : List (List ℕ) → List ℕ
samples_of [] = []
samples_of (samples ∷ buffers) = samples ++ samples_of buffers

sample_bytes-append :
    (xs ys : List ℕ) → sample_bytes (xs ++ ys) ≡ sample_bytes xs ++ sample_bytes ys
unfolding sample_bytes
sample_bytes-append [] ys = refl
sample_bytes-append (x ∷ xs) ys = ap (λ l. x % 256 ∷ x / 256 % 256 ∷ l) (sample_bytes-append xs ys)

-- A system that lets every call succeed.
abbrev pub granted : WriteFate
granted = record { opens = true; completes = true; partial = []; removes = true; renames = true }

abbrev writing : List ℕ → ℕ → WavWriter
writing output n = record { is_open = true; output = output; data_bytes = n }

write-granted :
    (samples output : List ℕ) (n : ℕ)
    → n + length samples * 2 < 2 ^ 32
    → write granted samples (writing output n)
      ≡ (writing (output ++ sample_bytes samples) (n + length samples * 2), ok tt)
unfolding write
write-granted samples output n h = ground arith

write_all-granted :
    (buffers : List (List ℕ)) (output : List ℕ) (n : ℕ)
    → n + length (samples_of buffers) * 2 < 2 ^ 32
    → write_all granted buffers (writing output n) ≡ (
      writing (output ++ sample_bytes (samples_of buffers)) (n + length (samples_of buffers) * 2),
      ok tt,
    )
unfolding write_all sample_bytes
write_all-granted [] output n h =
    ap (λ o. (writing o n, ok tt)) (sym (append-nil output))
    ∙ ap (λ m. (writing (output ++ []) m, ok tt)) (omega arith)
write_all-granted (samples ∷ buffers) output n h =
    let rest = samples_of buffers in
    let total = length-append samples rest in
    ap (λ x. elim x.1 [ err e ↦ (x.0, err e) | ok u ↦ write_all granted buffers x.0 ])
      (write-granted samples output n (omega (arith, total)))
    ∙ write_all-granted buffers (output ++ sample_bytes samples) (n + length samples * 2)
        (omega (arith, total))
    ∙ ap (λ o. (writing o (n + length samples * 2 + length rest * 2), ok tt))
        (append_assoc output (sample_bytes samples) (sample_bytes rest)
          ∙ ap (λ l. output ++ l) (sym (sample_bytes-append samples rest)))
    ∙ ap (λ m. (writing (output ++ sample_bytes (samples ++ rest)) m, ok tt)) (omega (arith, total))

open_output-granted :
    (rate channels : ℕ)
    → 0 < channels
    → channels < 2 ^ 16
    → rate * (channels * 2) < 2 ^ 32
    → open_output granted rate channels fresh ≡ (writing (header rate channels) 0, ok tt)
unfolding open_output fresh
open_output-granted rate channels h k l = ground arith

byte_rates :
    (rate channels : ℕ)
    → rate * (channels * 2) < 2 ^ 32
    → rate * (channels * 2) % 2 ^ 64 % 2 ^ 32 ≡ rate * channels % 2 ^ 32 * 2 % 2 ^ 32
byte_rates rate channels h = omega arith

block_aligns :
    (channels : ℕ) → channels < 2 ^ 16 → channels * 2 % 2 ^ 16 ≡ channels * 2 % 2 ^ 32 % 2 ^ 16
block_aligns channels h = omega arith

close-writing :
    (segment : SpeechSegment)
    → 0 < segment.channels
    → segment.channels < 2 ^ 16
    → segment.sample_rate * (segment.channels * 2) < 2 ^ 32
    → (close (
        writing
          (header segment.sample_rate segment.channels ++ sample_bytes segment.samples)
          (length segment.samples * 2))).output
      ≡ wav_bytes segment
unfolding close overwrite header write_u16 write_u32 wav_bytes
close-writing segment h k l =
    rw (byte_rates segment.sample_rate segment.channels l, block_aligns segment.channels k)

after_open : List (List ℕ) → WavWriter × Result (Unit {0}) → Result (List ℕ)
after_open buffers x = elim x.1 [
  | err e ↦ err e
  | ok u ↦ elim (write_all granted buffers x.0).1 [
    | err e ↦ err e
    | ok u' ↦ ok (close (write_all granted buffers x.0).0).output
  ]
]

-- If the system lets every call succeed, the capture probe's `WavWriter`, however the captured
-- samples are divided into buffers, ends with the very file that the recorder's `write_wav` puts out
-- for them as one segment, when there are 1 to 65535 channels and fewer than 2^32 bytes of samples
-- and of samples a second.
pub recorded-Same :
    (segment : SpeechSegment) (buffers : List (List ℕ))
    → segment.samples ≡ samples_of buffers
    → 0 < segment.channels
    → segment.channels < 2 ^ 16
    → segment.sample_rate * (segment.channels * 2) < 2 ^ 32
    → length segment.samples * 2 < 2 ^ 32
    → recorded granted segment.sample_rate segment.channels buffers ≡ ok (wav_bytes segment)
unfolding recorded after_open
recorded-Same segment buffers e h k l m =
    let rate = segment.sample_rate in
    let channels = segment.channels in
    ap (after_open buffers) (open_output-granted rate channels h k l)
    ∙ ap (λ x. elim x.1 [ err e ↦ err e | ok u ↦ ok (close x.0).output ])
        (write_all-granted buffers (header rate channels) 0
          (omega (arith, subst (λ xs. length xs * 2 < 2 ^ 32) e m)))
    ∙ ap
        (λ n.
          ok (close (writing (header rate channels ++ sample_bytes (samples_of buffers)) n)).output)
        (omega arith)
    ∙ ap
        (λ xs.
          ok (close (writing (header rate channels ++ sample_bytes xs) (length xs * 2))).output)
        (sym e)
    ∙ ap ok (close-writing segment h k l)
