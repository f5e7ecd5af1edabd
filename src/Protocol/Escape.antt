-- ===== src/Protocol/Escape.antt =====
-- `json_escape` of board/voiceedge_protocol.hpp against the JSON reader.
use voice_edge_monitor.Base.{
  ℕ, ◌≡◌, refl, false, not, none, some, List, [], ◌∷◌, ◌++◌, arith, ltb, if◌then◌else◌,
}
use voice_edge_monitor.Json.{scan, all_bytes}
use voice_edge_monitor.Protocol.{json_escape}

-- The text that the protocol escapes, put between quotes, reads back as the text itself if no
-- byte of it is a control character; with a control character in the text it is no JSON string
-- at all.
pub scan-json_escape :
    (text rest : List ℕ)
    → scan false (json_escape text ++ b'"' ∷ rest)
      ≡ (if all_bytes (λ c. not (ltb c 32)) text then some (text, rest) else none)
unfolding scan json_escape all_bytes
scan-json_escape [] rest = refl
scan-json_escape (c ∷ cs) rest = ground (arith, scan-json_escape cs rest)
