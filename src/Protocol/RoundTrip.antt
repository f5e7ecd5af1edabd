-- ===== src/Protocol/RoundTrip.antt =====
-- Encoding and decoding audio packets (board/voiceedge_protocol.hpp).
use voice_edge_monitor.Base.{
  ℕ, ◌+◌, ◌*◌, ◌/◌, ◌%◌, ◌^◌, ◌≤◌, ◌<◌, ◌≡◌, refl, true, some, List, [], ◌∷◌, arith, length, All,
  ok, drop,
}
use voice_edge_monitor.Base.Int.{IsInt16}
use voice_edge_monitor.Audio.{AudioFrame}
use voice_edge_monitor.Protocol.{
  AudioPacketInfo, audio_header_size, sample_bytes, encode_audio_packet, decode_audio_packet,
  protocol_version, codec_pcm_s16_le, read_info, has_magic, is_consistent,
}

pub length-sample_bytes : (ss : List ℕ) → length (sample_bytes ss) ≡ 2 * length ss
unfolding sample_bytes
length-sample_bytes [] = omega arith
length-sample_bytes (s ∷ ss) = omega (arith, length-sample_bytes ss)

-- The widths of the fields of an `AudioFrame`.
pub record IsAudioFrame (frame : AudioFrame) : Type 0 where
  pub sequence_fits : frame.sequence < 2 ^ 64
  pub timestamp_fits : frame.timestamp_ms < 2 ^ 64
  pub rate_fits : frame.sample_rate < 2 ^ 32
  pub channels_fits : frame.channels < 2 ^ 32
  pub samples_fit : All IsInt16 frame.samples

abbrev le4 : ℕ → List ℕ → List ℕ
le4 v rest = v % 256 ∷ (v / 2 ^ 8) % 256 ∷ (v / 2 ^ 16) % 256 ∷ (v / 2 ^ 24) % 256 ∷ rest

abbrev le8 : ℕ → List ℕ → List ℕ
le8 v rest =
    v / 2 ^ 0 % 256
    ∷ v / 2 ^ 8 % 256
    ∷ v / 2 ^ 16 % 256
    ∷ v / 2 ^ 24 % 256
    ∷ v / 2 ^ 32 % 256
    ∷ v / 2 ^ 40 % 256
    ∷ v / 2 ^ 48 % 256
    ∷ v / 2 ^ 56 % 256
    ∷ rest

-- The packet, byte by byte.
abbrev wire : ℕ → ℕ → ℕ → ℕ → ℕ → List ℕ → List ℕ
wire channels rate sequence timestamp count payload =
    b'V'
    ∷ b'E'
    ∷ b'A'
    ∷ b'1'
    ∷ 1
    ∷ 0
    ∷ channels
    ∷ 0
    ∷ le4 rate (le8 sequence (le8 timestamp (le4 count payload)))

abbrev wire_of : AudioFrame → List ℕ
wire_of frame =
    wire (frame.channels % 256) frame.sample_rate frame.sequence frame.timestamp_ms
      (length frame.samples % 2 ^ 32) (sample_bytes frame.samples)

encode-wire :
    (frame : AudioFrame) (packet : List ℕ)
    → encode_audio_packet frame ≡ ok packet
    → (packet ≡ wire_of frame)
      × (0 < frame.channels)
      × (frame.channels ≤ 255)
      × (length frame.samples < 2 ^ 32)
unfolding encode_audio_packet
encode-wire frame packet h = ground arith

join4 :
    (v : ℕ)
    → v < 2 ^ 32
    → v % 256
        + (v / 2 ^ 8) % 256 * 2 ^ 8
        + (v / 2 ^ 16) % 256 * 2 ^ 16
        + (v / 2 ^ 24) % 256 * 2 ^ 24
      ≡ v
join4 v h = omega arith

abbrev join8_of : ℕ → ℕ
join8_of v =
    0
    + v / 2 ^ 0 % 256 * 2 ^ 0
    + v / 2 ^ 8 % 256 * 2 ^ 8
    + v / 2 ^ 16 % 256 * 2 ^ 16
    + v / 2 ^ 24 % 256 * 2 ^ 24
    + v / 2 ^ 32 % 256 * 2 ^ 32
    + v / 2 ^ 40 % 256 * 2 ^ 40
    + v / 2 ^ 48 % 256 * 2 ^ 48
    + v / 2 ^ 56 % 256 * 2 ^ 56

join8 : (v : ℕ) → v < 2 ^ 64 → join8_of v ≡ v
join8 v h = omega arith

abbrev pub info_of : AudioFrame → AudioPacketInfo
info_of frame = record {
  version = protocol_version;
  codec = codec_pcm_s16_le;
  channels = frame.channels;
  sample_rate = frame.sample_rate;
  sequence = frame.sequence;
  timestamp_ms = frame.timestamp_ms;
  sample_count = length frame.samples;
}

read-wire :
    (c r s t n : ℕ) (payload : List ℕ)
    → c < 256
    → r < 2 ^ 32
    → s < 2 ^ 64
    → t < 2 ^ 64
    → n < 2 ^ 32
    → read_info (wire c r s t n payload)
      ≡ some (record {
        version = 1;
        codec = 0;
        channels = c;
        sample_rate = r;
        sequence = s;
        timestamp_ms = t;
        sample_count = n;
      })
unfolding read_info
read-wire c r s t n payload hc hr hs ht hn = rw (join4 r hr, join4 n hn, join8 s hs, join8 t ht)

decode-wire :
    (frame : AudioFrame) (info : AudioPacketInfo)
    → IsAudioFrame frame
    → 0 < frame.channels
    → frame.channels ≤ 255
    → length frame.samples < 2 ^ 32
    → decode_audio_packet (wire_of frame) info ≡ some (info_of frame, true)
unfolding decode_audio_packet has_magic is_consistent
decode-wire frame info w lo hi n = ground (
  arith,
  read-wire (frame.channels % 256) frame.sample_rate frame.sequence frame.timestamp_ms
      (length frame.samples % 2 ^ 32) (sample_bytes frame.samples) (omega arith) w.rate_fits
      w.sequence_fits w.timestamp_fits (omega arith),
  length-sample_bytes frame.samples,
)

-- The samples of a payload, two bytes each.
pub samples_of : List ℕ → List ℕ
samples_of [] = []
samples_of (a ∷ []) = []
samples_of (a ∷ b ∷ bytes) = (a + b * 256) ∷ samples_of bytes

samples_of-sample_bytes : (ss : List ℕ) → All IsInt16 ss → samples_of (sample_bytes ss) ≡ ss
unfolding samples_of sample_bytes
samples_of-sample_bytes [] h = refl
samples_of-sample_bytes (s ∷ ss) h = rw (samples_of-sample_bytes ss h.1) (ground arith)

-- A packet that `encode_audio_packet` makes of a frame is accepted by `decode_audio_packet`, which
-- reports the frame's own fields and sample count; and the payload behind the header holds the
-- frame's samples.
pub decode-encode :
    (frame : AudioFrame) (packet : List ℕ) (info : AudioPacketInfo)
    → IsAudioFrame frame
    → encode_audio_packet frame ≡ ok packet
    → (decode_audio_packet packet info ≡ some (info_of frame, true))
      × (samples_of (drop audio_header_size packet) ≡ frame.samples)
decode-encode frame packet info w h =
    let (e, lo, hi, n) = encode-wire frame packet h in
    rw e (decode-wire frame info w lo hi n, samples_of-sample_bytes frame.samples w.samples_fit)
