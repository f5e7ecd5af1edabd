-- ===== src/Client.antt =====
-- tools/ws_cli.cpp: the client's loop over the messages of the server. Its reports are not modelled.
pub mod Counting
mod Tests
use voice_edge_monitor.Base.{
  ℕ, zero, suc, ◌+◌, ◌/◌, ◌%◌, ◌^◌, Bool, true, false, ◌&&◌, not, Option, none, some, List, [], ◌∷◌,
  leb, ◌==◌, if◌then◌else◌, length, Result, Error, ok, err,
}
use voice_edge_monitor.Protocol.{AudioPacketInfo, decode_audio_packet}

-- What a read returns: a text, a binary message, an end of the connection (`closed`, `eof`,
-- `connection_reset`), or another error.
pub data Incoming : Type 0 where
  text : Incoming
  binary : List ℕ → Incoming
  ends breaks : Incoming

-- The counters, `uint64_t`.
pub record Client : Type 0 where
  pub packets : ℕ
  pub frames : ℕ
  pub bytes : ℕ

unfoldable pub fresh : Client
fresh = record { packets = 0; frames = 0; bytes = 0 }

-- `AudioPacketInfo info;`.
unfoldable pub blank : AudioPacketInfo
blank = record {
  version = 0;
  codec = 0;
  channels = 0;
  sample_rate = 0;
  sequence = 0;
  timestamp_ms = 0;
  sample_count = 0;
}

unfoldable pub count_packet : List ℕ → AudioPacketInfo → Client → Client
count_packet packet info c = record {
  packets = (c.packets + 1) % 2 ^ 64;
  frames =
      (c.frames + (if info.channels == 0 then 0 else info.sample_count / info.channels)) % 2 ^ 64;
  bytes = (c.bytes + length packet) % 2 ^ 64;
}

-- A binary message; `none` is a read out of bounds.
unfoldable pub take_packet :
    List ℕ → Option (AudioPacketInfo × Bool) → Client → Option (Result Client)
unfolding count_packet
take_packet packet none c = none
take_packet packet (some (info, false)) c = some (err Error.runtime_error)
take_packet packet (some (info, true)) c = some (ok (count_packet packet info c))

-- `max_packets` packets are enough; 0 stands for no limit.
unfoldable pub is_enough : ℕ → Client → Bool
is_enough max_packets c = not (max_packets == 0) && leb max_packets c.packets

-- The counters when the loop is left, where the list of messages ends as if the connection did.
unfoldable pub client_from : ℕ → List Incoming → Client → Option (Result Client)
unfolding take_packet is_enough blank
client_from max_packets [] c = some (ok c)
client_from max_packets (text ∷ messages) c = client_from max_packets messages c
client_from max_packets (ends ∷ messages) c = some (ok c)
client_from max_packets (breaks ∷ messages) c = some (err Error.runtime_error)
client_from max_packets (binary packet ∷ messages) c =
    elim (take_packet packet (decode_audio_packet packet blank) c) [
      | none ↦ none
      | some (err e) ↦ some (err e)
      | some (ok c') ↦
          if is_enough max_packets c' then some (ok c') else client_from max_packets messages c'
    ]
