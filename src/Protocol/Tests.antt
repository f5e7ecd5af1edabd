-- ===== src/Protocol/Tests.antt =====
-- Runs of the audio packet codec (board/voiceedge_protocol.hpp), after tests/protocol_test.cpp,
-- and its theorems at concrete inputs.
use voice_edge_monitor.Base.{
  ℕ, ◌≡◌, refl, Bool, true, false, none, some, List, [], ◌∷◌, ◌++◌, ok, arith, drop,
}
use voice_edge_monitor.Json.{scan}
use voice_edge_monitor.Audio.{AudioFrame}
use voice_edge_monitor.Protocol.{
  AudioPacketInfo, encode_audio_packet, decode_audio_packet, json_escape, audio_header_size,
}
use voice_edge_monitor.Protocol.RoundTrip.{decode-encode, samples_of, info_of}
use voice_edge_monitor.Protocol.Safety.{decode_total}

abbrev frame : AudioFrame
frame = record {
  sequence = 0x0102_0304_0506_0708;
  timestamp_ms = 1234;
  sample_rate = 16000;
  channels = 1;
  samples = 0 ∷ 0x7fff ∷ 0x8000 ∷ [];
}

abbrev packet : List ℕ
packet =
    b'V' ∷ b'E' ∷ b'A' ∷ b'1' ∷ 1 ∷ 0 ∷ 1 ∷ 0 ∷ 0x80 ∷ 0x3e ∷ 0 ∷ 0 ∷ 8 ∷ 7 ∷ 6 ∷ 5 ∷ 4 ∷ 3 ∷ 2 ∷ 1
    ∷ 0xd2 ∷ 4 ∷ 0 ∷ 0 ∷ 0 ∷ 0 ∷ 0 ∷ 0 ∷ 3 ∷ 0 ∷ 0 ∷ 0 ∷ 0 ∷ 0 ∷ 0xff ∷ 0x7f ∷ 0 ∷ 0x80 ∷ []

encoded : encode_audio_packet frame ≡ ok packet
unfolding encode_audio_packet
encoded = refl

abbrev blank : AudioPacketInfo
blank = record {
  version = 0;
  codec = 0;
  channels = 0;
  sample_rate = 0;
  sequence = 0;
  timestamp_ms = 0;
  sample_count = 0;
}

decoded : decode_audio_packet packet blank ≡ some (info_of frame, true)
unfolding decode_audio_packet
decoded = refl

decode-encode_example :
    (decode_audio_packet packet blank ≡ some (info_of frame, true))
    × (samples_of (drop audio_header_size packet) ≡ frame.samples)
decode-encode_example = decode-encode frame packet blank (omega arith) encoded

decode_total_example :
    (r : AudioPacketInfo × Bool) × (decode_audio_packet (b'V' ∷ b'E' ∷ []) blank ≡ some r)
decode_total_example = decode_total (b'V' ∷ b'E' ∷ []) blank

line_feed_breaks : scan false (json_escape (10 ∷ []) ++ b'"' ∷ []) ≡ none
unfolding scan json_escape
line_feed_breaks = refl
