-- ===== src/Wav/Read.antt =====
-- `read_wave` of board/asr_probe.cpp, and the mixing loop of `OfflineASR::transcribe`
-- (board/offline_asr.hpp).
pub mod Safety
pub mod RoundTrip
pub mod Mixing
use voice_edge_monitor.Base.{
  ℕ, zero, suc, ◌+◌, ◌-◌, ◌*◌, ◌/◌, ◌%◌, ◌^◌, Bool, true, false, ◌||◌, ◌&&◌, not, Option, none,
  some, List, [], ◌∷◌, ◌++◌, ltb, leb, ◌==◌, if◌then◌else◌, length, bytes_eq, take, drop, Error,
}
use voice_edge_monitor.Base.Int.{ℤ, pos, ◌+ℤ◌, signed16, signed32}
use voice_edge_monitor.Base.Maybe.{get_elem?}
use voice_edge_monitor.Audio.{SpeechSegment, Floats}
use voice_edge_monitor.Wav.{Outcome, done, thrown, out_of_bounds, out_of_fuel, ◌>>=◌}

-- `bytes[i]`.
abbrev pub at : List ℕ → ℕ → Outcome ℕ
at bytes i = elim (get_elem? bytes i) [ none ↦ out_of_bounds | some b ↦ done b ]

pub read_u16 : List ℕ → ℕ → Outcome ℕ
read_u16 bytes offset = do a ← at bytes offset; b ← at bytes (offset + 1); done (a + b * 2 ^ 8)

pub read_u32 : List ℕ → ℕ → Outcome ℕ
read_u32 bytes offset = do
  a ← at bytes offset
  b ← at bytes (offset + 1)
  c ← at bytes (offset + 2)
  d ← at bytes (offset + 3)
  done (a + b * 2 ^ 8 + c * 2 ^ 16 + d * 2 ^ 24)

-- `std::string(bytes.begin() + offset, bytes.begin() + offset + n)`.
abbrev pub slice : List ℕ → ℕ → ℕ → Outcome (List ℕ)
slice bytes offset n =
    if leb (offset + n) (length bytes) then done (take n (drop offset bytes)) else out_of_bounds

abbrev pub riff : List ℕ
riff = b'R' ∷ b'I' ∷ b'F' ∷ b'F' ∷ []

abbrev pub wave : List ℕ
wave = b'W' ∷ b'A' ∷ b'V' ∷ b'E' ∷ []

abbrev pub fmt_chunk : List ℕ
fmt_chunk = b'f' ∷ b'm' ∷ b't' ∷ b' ' ∷ []

abbrev pub data_chunk : List ℕ
data_chunk = b'd' ∷ b'a' ∷ b't' ∷ b'a' ∷ []

-- The variables of the chunk loop.
pub record Chunks : Type 0 where
  pub format : ℕ
  pub channels : ℕ
  pub sample_rate : ℕ
  pub bits : ℕ
  pub data_offset : ℕ
  pub data_size : ℕ

abbrev pub no_chunks : Chunks
no_chunks = record {
  format = 0;
  channels = 0;
  sample_rate = 0;
  bits = 0;
  data_offset = 0;
  data_size = 0;
}

pub read_fmt : List ℕ → ℕ → Chunks → Outcome Chunks
unfolding read_u16 read_u32
read_fmt bytes payload s = do
  format ← read_u16 bytes payload
  channels ← read_u16 bytes (payload + 2)
  sample_rate ← read_u32 bytes (payload + 4)
  bits ← read_u16 bytes (payload + 14)
  done (record s { format = format; channels = channels; sample_rate = sample_rate; bits = bits })

pub read_chunk : List ℕ → List ℕ → ℕ → ℕ → Chunks → Outcome Chunks
unfolding read_fmt
read_chunk bytes chunk payload chunk_size s =
    if bytes_eq chunk fmt_chunk
    then if ltb chunk_size 16 then thrown Error.runtime_error else read_fmt bytes payload s
    else if bytes_eq chunk data_chunk
    then done (record s { data_offset = payload; data_size = chunk_size })
    else done s

-- The body of the chunk loop: the next offset and the variables.
pub read_next : List ℕ → ℕ → Chunks → Outcome (ℕ × Chunks)
unfolding read_u32 read_chunk
read_next bytes offset s = do
  chunk ← slice bytes offset 4
  chunk_size ← read_u32 bytes (offset + 4)
  let payload = offset + 8
  if ltb (length bytes) (payload + chunk_size) then thrown Error.runtime_error else do
    s' ← read_chunk bytes chunk payload chunk_size s
    done (payload + chunk_size + chunk_size % 2, s')

-- `while (offset + 8 <= bytes.size())`; each round goes eight bytes on at least.
pub read_chunks : ℕ → List ℕ → ℕ → Chunks → Outcome Chunks
unfolding read_next
read_chunks zero bytes offset s = out_of_fuel
read_chunks (suc fuel) bytes offset s = elim (leb (offset + 8) (length bytes)) [
  | false ↦ done s
  | true ↦ read_next bytes offset s >>= λ r. read_chunks fuel bytes r.0 r.1
]

-- The inner loop over the channels of one frame: `n` channels are left, `i` is the next sample.
pub sum_channels : ℕ → List ℕ → ℕ → ℕ → ℤ → Outcome ℤ
unfolding read_u16
sum_channels zero bytes data_offset i sum = done sum
sum_channels (suc n) bytes data_offset i sum = do
  raw ← read_u16 bytes (data_offset + i * 2)
  sum_channels n bytes data_offset (i + 1) (sum +ℤ signed16 raw)

-- The inner loop of `transcribe` on its samples: `n` channels are left, `i` is the next sample.
pub mix_channels : ℕ → List ℕ → ℕ → ℤ → Outcome ℤ
mix_channels zero samples i sum = done sum
mix_channels (suc n) samples i sum = do
  s ← at samples i
  mix_channels n samples (i + 1) (sum +ℤ signed16 s)

module _ (f : Floats) where
  -- `static_cast<float>(sum) / (32768.0F * static_cast<float>(channels))`.
  abbrev pub mixed : ℤ → ℕ → f.Float
  mixed sum channels =
      f.div_float (f.float_of sum)
        (f.mul_float (f.float_of (pos 32768)) (f.float_of (pos channels)))

  pub record WaveData : Type 0 where
    pub sample_rate : ℤ
    pub samples : List f.Float

  -- The outer loop: `n` frames are left, the next one is `frame`.
  pub read_frames : ℕ → List ℕ → ℕ → ℕ → ℕ → Outcome (List f.Float)
  unfolding sum_channels
  read_frames zero bytes data_offset channels frame = done []
  read_frames (suc n) bytes data_offset channels frame = do
    sum ← sum_channels channels bytes data_offset (frame * channels) (pos 0)
    rest ← read_frames n bytes data_offset channels (frame + 1)
    done (mixed sum channels ∷ rest)

  pub read_samples : List ℕ → Chunks → Outcome WaveData
  unfolding read_frames
  read_samples bytes s =
      if not (s.format == 1)
        || (s.channels == 0 || (s.sample_rate == 0 || (not (s.bits == 16) || s.data_size == 0)))
      then thrown Error.runtime_error
      else (do
        let frames = s.data_size / 2 / s.channels
        samples ← read_frames frames bytes s.data_offset s.channels 0
        done (record { sample_rate = signed32 s.sample_rate; samples = samples }))

  -- `contents` is what the file holds, if it opens.
  unfoldable pub read_wave : Option (List ℕ) → Outcome WaveData
  unfolding read_chunks read_samples
  read_wave none = thrown Error.runtime_error
  read_wave (some bytes) = if ltb (length bytes) 12 then thrown Error.runtime_error else do
    first ← slice bytes 0 4
    if not (bytes_eq first riff) then thrown Error.runtime_error else do
      second ← slice bytes 8 4
      if not (bytes_eq second wave)
          then thrown Error.runtime_error
          else do s ← read_chunks (length bytes) bytes 12 no_chunks; read_samples bytes s

  -- Its outer loop: `n` rounds bound the loop, `frame` is the index of the next sample.
  pub mix_frames : ℕ → List ℕ → ℕ → ℕ → Outcome (List f.Float)
  unfolding mix_channels
  mix_frames zero samples channels frame = out_of_fuel
  mix_frames (suc n) samples channels frame = elim (leb (frame + channels) (length samples)) [
    | false ↦ done []
    | true ↦ mix_channels channels samples frame (pos 0) >>= λ sum.
        mix_frames n samples channels (frame + channels) >>= λ rest.
        done (mixed sum channels ∷ rest)
  ]
