-- ===== src/Wav/Read/RoundTrip.antt =====
-- Reading back what `RecordingStore::write_wav` (board/recording_store.hpp) wrote with `read_wave`
-- (board/asr_probe.cpp).
use native.Mathlib.Nat.{div-add-mod, mod-lt, div-le_self}
use voice_edge_monitor.Base.{
  ℕ, zero, suc, ◌+◌, ◌*◌, ◌/◌, ◌%◌, ◌^◌, ◌≤◌, ◌<◌, ◌≡◌, refl, ap, ◌∙◌, subst, true, false, ◌||◌,
  some, List, [], ◌∷◌, ◌++◌, ltb, leb, ◌==◌, length, arith, if_false, All,
}
use voice_edge_monitor.Base.Int.{ℤ, pos, signed32, IsInt16}
use voice_edge_monitor.Base.Maybe.{get_elem?, get_elem?-in_range}
use voice_edge_monitor.Audio.{Floats, SpeechSegment}
use voice_edge_monitor.Protocol.{sample_bytes}
use voice_edge_monitor.Protocol.RoundTrip.{length-sample_bytes}
use voice_edge_monitor.Wav.{Outcome, done, wav_bytes, write_u16, write_u32}
use voice_edge_monitor.Wav.Read.{
  at, read_u16, Chunks, no_chunks, read_next, read_chunks, sum_channels, read_frames, read_samples,
  read_wave, WaveData, slice, riff, wave, mix_channels, mix_frames,
}

get_elem?-append_right {ℓ} :
    {A : Type ℓ} (xs ys : List A) (k : ℕ) → get_elem? (xs ++ ys) (length xs + k) ≡ get_elem? ys k
get_elem?-append_right [] ys k = let e : 0 + k ≡ k = omega arith in rw e
get_elem?-append_right (x ∷ xs) ys k =
    let e : suc (length xs) + k ≡ suc (length xs + k) = omega arith in
    rw e (get_elem?-append_right xs ys k)

-- Where the two bytes of a sample stand.
bytes_of_sample :
    (ss : List ℕ) (i s : ℕ)
    → get_elem? ss i ≡ some s
    → (get_elem? (sample_bytes ss) (i * 2) ≡ some (s % 256))
      × (get_elem? (sample_bytes ss) (suc (i * 2)) ≡ some (s / 256 % 256))
unfolding sample_bytes
bytes_of_sample [] i s h = cc
bytes_of_sample (x ∷ xs) zero s h = ground arith
bytes_of_sample (x ∷ xs) (suc i) s h =
    let e : suc i * 2 ≡ suc (suc (i * 2)) = omega arith in rw e (bytes_of_sample xs i s h)

All-get_elem? : (P : ℕ → Type 0) (ss : List ℕ) (i s : ℕ) → All P ss → get_elem? ss i ≡ some s → P s
All-get_elem? P [] i s a h = absurd (ground arith)
All-get_elem? P (x ∷ xs) zero s a h = let e : x ≡ s = ground arith in subst P e a.0
All-get_elem? P (x ∷ xs) (suc i) s a h = All-get_elem? P xs i s a.1 h

pub at-some : (xs : List ℕ) (i b : ℕ) → get_elem? xs i ≡ some b → at xs i ≡ done b
at-some xs i b e = rw (e, at)

-- A file with the samples behind `header` gives them back.
module _ (header ss : List ℕ) (fit : All IsInt16 ss) where
  abbrev file : List ℕ
  file = header ++ sample_bytes ss

  read_sample : (i : ℕ) → i < length ss → read_u16 file (length header + i * 2) ≡ at ss i
  unfolding read_u16
  read_sample i h =
      let (s, e) = get_elem?-in_range ss i h in
      let (lo, hi) = bytes_of_sample ss i s e in
      let w = All-get_elem? IsInt16 ss i s fit e in
      let n : length header + i * 2 + 1 ≡ length header + suc (i * 2) = omega arith in
      let front = get_elem?-append_right header (sample_bytes ss) in
      rw
        (
          n,
          at-some file _ _ (front (i * 2) ∙ lo),
          at-some file _ _ (front (suc (i * 2)) ∙ hi),
          at-some ss i s e,
        )
        (ap done (omega arith))

  sum_channels-mix :
      (n i : ℕ) (sum : ℤ)
      → i + n ≤ length ss
      → sum_channels n file (length header) i sum ≡ mix_channels n ss i sum
  unfolding sum_channels mix_channels
  sum_channels-mix zero i sum h = refl
  sum_channels-mix (suc n) i sum h =
      let (s, e) = get_elem?-in_range ss i (omega arith) in
      rw (read_sample i (omega arith), at-some ss i s e)
        (sum_channels-mix n (i + 1) _ (omega arith))

  module _ (f : Floats) (channels : ℕ) (some_channel : 0 < channels) where
    -- `n` whole frames and `r` samples are left at `base`; both loops read them alike.
    read_frames-mix :
        (n frame base r fuel : ℕ)
        → base ≡ frame * channels
        → base + n * channels + r ≡ length ss
        → r < channels
        → n < fuel
        → read_frames f n file (length header) channels frame ≡ mix_frames f fuel ss channels base
    unfolding read_frames mix_frames
    read_frames-mix n frame base r zero e t l u = absurd (omega arith)
    read_frames-mix zero frame base r (suc fuel) e t l u =
        let b : leb (base + channels) (length ss) ≡ false = ground arith in rw (b, mix_frames)
    read_frames-mix (suc n) frame base r (suc fuel) e t l u =
        let b : leb (base + channels) (length ss) ≡ true = ground arith in
        rw
          (
            b,
            mix_frames,
            ← e,
            sum_channels-mix channels base (pos 0) (omega arith),
            read_frames-mix n (frame + 1) (base + channels) r fuel (omega arith) (omega arith) l
                (omega arith),
          )
          refl

-- A round of the chunk loop, and its end.
chunk_step :
    (fuel : ℕ) (bytes : List ℕ) (offset : ℕ) (s : Chunks) (r : ℕ × Chunks)
    → leb (offset + 8) (length bytes) ≡ true
    → read_next bytes offset s ≡ done r
    → read_chunks (suc fuel) bytes offset s ≡ read_chunks fuel bytes r.0 r.1
unfolding read_chunks
chunk_step fuel bytes offset s r b e = rw (b, e, read_chunks)

chunk_end :
    (fuel : ℕ) (bytes : List ℕ) (offset : ℕ) (s : Chunks)
    → leb (offset + 8) (length bytes) ≡ false
    → read_chunks (suc fuel) bytes offset s ≡ done s
unfolding read_chunks
chunk_end fuel bytes offset s b = rw (b, read_chunks)

-- The widths of the fields of a segment, its channels within the two bytes that a WAV file has.
pub record IsSegment (s : SpeechSegment) : Type 0 where
  pub rate_fits : s.sample_rate < 2 ^ 32
  pub rate_pos : 0 < s.sample_rate
  pub channels_fit : s.channels < 2 ^ 16
  pub channels_pos : 0 < s.channels
  pub samples_fit : All IsInt16 s.samples
  pub samples_some : 0 < length s.samples
  pub size_fits : length s.samples * 2 < 2 ^ 32

abbrev le4 : ℕ → List ℕ → List ℕ
le4 v rest = v % 256 ∷ v / 2 ^ 8 % 256 ∷ v / 2 ^ 16 % 256 ∷ v / 2 ^ 24 % 256 ∷ rest

abbrev le2 : ℕ → List ℕ → List ℕ
le2 v rest = v % 256 ∷ v / 2 ^ 8 % 256 ∷ rest

-- The 44 bytes in front of the samples.
abbrev wav_header : ℕ → ℕ → ℕ → ℕ → ℕ → ℕ → List ℕ
wav_header riff_size channels rate byte_rate block_align size =
    b'R'
    ∷ b'I'
    ∷ b'F'
    ∷ b'F'
    ∷ le4 riff_size (
        b'W'
        ∷ b'A'
        ∷ b'V'
        ∷ b'E'
        ∷ b'f'
        ∷ b'm'
        ∷ b't'
        ∷ b' '
        ∷ 16
        ∷ 0
        ∷ 0
        ∷ 0
        ∷ 1
        ∷ 0
        ∷ le2 channels (
            le4 rate
              (le4 byte_rate (le2 block_align (16 ∷ 0 ∷ b'd' ∷ b'a' ∷ b't' ∷ b'a' ∷ le4 size [])))))

abbrev header_of : SpeechSegment → List ℕ
header_of s =
    wav_header ((36 + length s.samples * 2) % 2 ^ 32) (s.channels % 2 ^ 16) s.sample_rate
      (s.sample_rate * s.channels % 2 ^ 32 * 2 % 2 ^ 32) (s.channels * 2 % 2 ^ 32 % 2 ^ 16)
      (length s.samples * 2 % 2 ^ 32)

pub wav_bytes-header : (s : SpeechSegment) → wav_bytes s ≡ header_of s ++ sample_bytes s.samples
unfolding wav_bytes write_u16 write_u32
wav_bytes-header s = refl

abbrev fmt_read : SpeechSegment → Chunks
fmt_read s = record no_chunks {
  format = 1;
  channels = s.channels;
  sample_rate = s.sample_rate;
  bits = 16;
}

abbrev all_read : SpeechSegment → Chunks
all_read s = record (fmt_read s) { data_offset = 44; data_size = length s.samples * 2 }

module _ (s : SpeechSegment) (w : IsSegment s) where
  abbrev bytes : List ℕ
  bytes = header_of s ++ sample_bytes s.samples

  first_four : slice bytes 0 4 ≡ done riff
  first_four = ground (arith, length-sample_bytes s.samples)

  second_four : slice bytes 8 4 ≡ done wave
  second_four = ground (arith, length-sample_bytes s.samples)

  first_chunk : read_next bytes 12 no_chunks ≡ done (36, fmt_read s)
  unfolding read_next
  first_chunk = ground (arith, length-sample_bytes s.samples, w.rate_fits, w.channels_fit)

  second_chunk : read_next bytes 36 (fmt_read s) ≡ done (44 + length s.samples * 2, all_read s)
  unfolding read_next
  second_chunk = ground (arith, length-sample_bytes s.samples, w.size_fits)

  -- After the two chunks the file is used up.
  third_step : leb (44 + length s.samples * 2 + 8) (length bytes) ≡ false
  third_step = ground (arith, length-sample_bytes s.samples)

  chunk_loop : read_chunks (length bytes) bytes 12 no_chunks ≡ done (all_read s)
  chunk_loop =
      chunk_step _ bytes 12 no_chunks (36, fmt_read s) (ground arith) first_chunk
      ∙ chunk_step _ bytes 36 (fmt_read s) (44 + length s.samples * 2, all_read s) (ground arith)
          second_chunk
      ∙ chunk_end _ bytes (44 + length s.samples * 2) (all_read s) third_step

  module _ (f : Floats) where
    abbrev pub frames_mixed : Outcome (List f.Float)
    frames_mixed = mix_frames f (suc (length s.samples)) s.samples s.channels 0

    frames_read :
        read_frames f (length s.samples * 2 / 2 / s.channels) bytes 44 s.channels 0 ≡ frames_mixed
    frames_read =
        read_frames-mix (header_of s) s.samples w.samples_fit f s.channels w.channels_pos
          (length s.samples * 2 / 2 / s.channels) 0 0 (length s.samples % s.channels)
          (suc (length s.samples)) (omega arith) whole (mod-lt (length s.samples) w.channels_pos)
          (omega (arith, whole, few))
      where
        halves : length s.samples * 2 / 2 ≡ length s.samples
        halves = omega arith

        whole :
            0 + length s.samples * 2 / 2 / s.channels * s.channels + length s.samples % s.channels
            ≡ length s.samples
        whole = rw halves (omega (arith, div-add-mod (length s.samples) s.channels))

        few : length s.samples * 2 / 2 / s.channels ≤ length s.samples
        few = rw halves (div-le_self (length s.samples) s.channels)

    unfoldable pub wave_of : List f.Float → WaveData f
    wave_of xs = record { sample_rate = signed32 s.sample_rate; samples = xs }

    format_accepted :
        (xs : List f.Float)
        → frames_mixed ≡ done xs
        → read_samples f bytes (all_read s) ≡ done (wave_of xs)
    unfolding read_samples wave_of
    format_accepted xs e =
        if_false (s.channels == 0 || (s.sample_rate == 0 || (false || length s.samples * 2 == 0))) _
          _ (ground (arith, w.channels_pos, w.rate_pos, w.samples_some))
        ∙ rw (frames_read ∙ e)

    pub read-bytes :
        (xs : List f.Float) → frames_mixed ≡ done xs → read_wave f (some bytes) ≡ done (wave_of xs)
    unfolding read_wave
    read-bytes xs e =
        if_false (ltb (length bytes) 12) _ _ (ground arith)
        ∙ rw (first_four, second_four, chunk_loop, format_accepted xs e)
