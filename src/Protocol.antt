-- ===== src/Protocol.antt =====
-- board/voiceedge_protocol.hpp: the binary audio packet. A byte is a number below 256; `x >> k` and
-- `x & 0xff` are `/ 2 ^ k` and `% 256`, and `|` of values that share no bit is `+`. A read outside
-- the packet, which C++ leaves undefined, is `none`.
pub mod RoundTrip
pub mod Safety
pub mod Escape
mod Tests
use voice_edge_monitor.Base.{
  ℕ, zero, suc, ◌+◌, ◌*◌, ◌/◌, ◌%◌, ◌^◌, Bool, true, false, ◌&&◌, ◌||◌, not, Option, none, some,
  List, [], ◌∷◌, ◌++◌, ltb, ◌==◌, if◌then◌else◌, length, Result, Error, ok, err,
}
use voice_edge_monitor.Base.Maybe.{◌>>=◌, get_elem?}
use voice_edge_monitor.Audio.{AudioFrame}

abbrev pub audio_header_size : ℕ
audio_header_size = 32

abbrev pub protocol_version : ℕ
protocol_version = 1

abbrev pub codec_pcm_s16_le : ℕ
codec_pcm_s16_le = 0

pub record AudioPacketInfo : Type 0 where
  pub version : ℕ
  pub codec : ℕ
  pub channels : ℕ
  pub sample_rate : ℕ
  pub sequence : ℕ
  pub timestamp_ms : ℕ
  pub sample_count : ℕ

unfoldable pub append_u32_le : List ℕ → ℕ → List ℕ
append_u32_le output value =
    output
    ++ (value % 256 ∷ (value / 2 ^ 8) % 256 ∷ (value / 2 ^ 16) % 256 ∷ (value / 2 ^ 24) % 256 ∷ [])

-- The loop of `append_u64_le`, with the rounds left.
append_bytes : ℕ → ℕ → List ℕ → ℕ → List ℕ
append_bytes zero shift output value = output
append_bytes (suc n) shift output value =
    append_bytes n (shift + 8) (output ++ ((value / 2 ^ shift) % 256 ∷ [])) value

pub append_u64_le : List ℕ → ℕ → List ℕ
unfolding append_bytes
append_u64_le output value = append_bytes 8 0 output value

pub read_u32_le : List ℕ → ℕ → Option ℕ
read_u32_le input offset = do
  a ← get_elem? input offset
  b ← get_elem? input (offset + 1)
  c ← get_elem? input (offset + 2)
  d ← get_elem? input (offset + 3)
  some (a + b * 2 ^ 8 + c * 2 ^ 16 + d * 2 ^ 24)

-- The loop of `read_u64_le`, with the rounds left.
read_bytes : ℕ → ℕ → List ℕ → ℕ → ℕ → Option ℕ
read_bytes zero shift input offset value = some value
read_bytes (suc n) shift input offset value = do
  b ← get_elem? input (offset + shift / 8)
  read_bytes n (shift + 8) input offset (value + b * 2 ^ shift)

pub read_u64_le : List ℕ → ℕ → Option ℕ
unfolding read_bytes
read_u64_le input offset = read_bytes 8 0 input offset 0

-- The bytes of the samples in memory, on a little-endian machine.
unfoldable pub sample_bytes : List ℕ → List ℕ
sample_bytes [] = []
sample_bytes (s ∷ ss) = s % 256 ∷ (s / 256) % 256 ∷ sample_bytes ss

unfoldable pub encode_audio_packet : AudioFrame → Result (List ℕ)
unfolding append_u32_le append_u64_le sample_bytes
encode_audio_packet frame =
    if frame.channels == 0
      || (ltb 255 frame.channels
          || (frame.sample_rate == 0 || ltb 0xffff_ffff (length frame.samples)))
    then err Error.invalid_argument
    else let magic = b'V' ∷ b'E' ∷ b'A' ∷ b'1' ∷ [] in
      let packet = magic ++ (protocol_version ∷ codec_pcm_s16_le ∷ frame.channels % 256 ∷ 0 ∷ []) in
      let packet = append_u32_le packet frame.sample_rate in
      let packet = append_u64_le packet frame.sequence in
      let packet = append_u64_le packet frame.timestamp_ms in
      let packet = append_u32_le packet (length frame.samples % 2 ^ 32) in
      ok (packet ++ sample_bytes frame.samples)

-- `packet[0] == 'V' && ...`, on the bytes that the size test has found.
has_magic : List ℕ → Option Bool
has_magic packet = do
  a ← get_elem? packet 0
  b ← get_elem? packet 1
  c ← get_elem? packet 2
  d ← get_elem? packet 3
  some (a == b'V' && (b == b'E' && (c == b'A' && d == b'1')))

-- The fields of the header, in the order in which they are read.
read_info : List ℕ → Option AudioPacketInfo
unfolding read_u32_le read_u64_le
read_info packet = do
  version ← get_elem? packet 4
  codec ← get_elem? packet 5
  channels ← get_elem? packet 6
  sample_rate ← read_u32_le packet 8
  sequence ← read_u64_le packet 12
  timestamp_ms ← read_u64_le packet 20
  sample_count ← read_u32_le packet 28
  some (record {
    version = version;
    codec = codec;
    channels = channels;
    sample_rate = sample_rate;
    sequence = sequence;
    timestamp_ms = timestamp_ms;
    sample_count = sample_count;
  })

pub is_consistent : List ℕ → AudioPacketInfo → Bool
is_consistent packet info =
    info.version == protocol_version
    && (info.codec == codec_pcm_s16_le
        && (not (info.channels == 0) && length packet == audio_header_size + info.sample_count * 2))

-- `info` is the caller's structure, untouched when the magic is missing.
unfoldable pub decode_audio_packet : List ℕ → AudioPacketInfo → Option (AudioPacketInfo × Bool)
unfolding has_magic read_info is_consistent
decode_audio_packet packet info =
    if ltb (length packet) audio_header_size then some (info, false) else do
      magic ← has_magic packet
      if magic
          then (do read ← read_info packet; some (read, is_consistent packet read))
          else some (info, false)

unfoldable pub json_escape : List ℕ → List ℕ
json_escape [] = []
json_escape (c ∷ cs) =
    if c == b'\\' || c == b'"' then b'\\' ∷ c ∷ json_escape cs else c ∷ json_escape cs
