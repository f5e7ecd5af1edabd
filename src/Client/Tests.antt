-- ===== src/Client/Tests.antt =====
-- A session of the client (tools/ws_cli.cpp).
use voice_edge_monitor.Base.{ℕ, ◌≡◌, ◌%◌, ◌^◌, refl, some, List, [], ◌∷◌, length, ok, arith}
use voice_edge_monitor.Audio.{AudioFrame}
use voice_edge_monitor.Protocol.{encode_audio_packet}
use voice_edge_monitor.Protocol.RoundTrip.{IsAudioFrame}
use voice_edge_monitor.Client.{Incoming, text, binary, Client, fresh, client_from}
use voice_edge_monitor.Client.Counting.{awaited, frames_of, client_from-counts}

abbrev frame : AudioFrame
frame = record {
  sequence = 1;
  timestamp_ms = 2;
  sample_rate = 3;
  channels = 2;
  samples = 4 ∷ 5 ∷ [];
}

abbrev packet : List ℕ
packet =
    86 ∷ 69 ∷ 65 ∷ 49 ∷ 1 ∷ 0 ∷ 2 ∷ 0 ∷ 3 ∷ 0 ∷ 0 ∷ 0 ∷ 1 ∷ 0 ∷ 0 ∷ 0 ∷ 0 ∷ 0 ∷ 0 ∷ 0 ∷ 2 ∷ 0 ∷ 0
    ∷ 0 ∷ 0 ∷ 0 ∷ 0 ∷ 0 ∷ 2 ∷ 0 ∷ 0 ∷ 0 ∷ 4 ∷ 0 ∷ 5 ∷ 0 ∷ []

encoded : encode_audio_packet frame ≡ ok packet
unfolding encode_audio_packet
encoded = refl

frame-IsAudioFrame : IsAudioFrame frame
frame-IsAudioFrame = record {
  sequence_fits = omega arith;
  timestamp_fits = omega arith;
  rate_fits = omega arith;
  channels_fits = omega arith;
  samples_fit = (omega arith, (omega arith, tt));
}

abbrev messages : List Incoming
messages = text ∷ binary packet ∷ text ∷ binary packet ∷ []

client_from-counts_example :
    (d : Client) × (client_from 1 messages fresh ≡ some (ok d))
    × (d.packets ≡ length (awaited 1 0 (frame ∷ frame ∷ [])) % 2 ^ 64)
    × (d.frames ≡ frames_of (awaited 1 0 (frame ∷ frame ∷ [])) % 2 ^ 64)
client_from-counts_example =
    client_from-counts 1 messages (frame ∷ frame ∷ [])
      (frame-IsAudioFrame, encoded, (frame-IsAudioFrame, encoded, tt)) (omega arith)
