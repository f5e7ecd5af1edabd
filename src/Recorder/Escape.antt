-- ===== src/Recorder/Escape.antt =====
-- `RecordingStore::json_escape` against the JSON reader, and its effect on lines.
use voice_edge_monitor.Base.{
  ℕ, ◌≡◌, refl, false, true, not, ◌||◌, Bool, none, some, List, [], ◌∷◌, ◌++◌, arith, ltb, ◌==◌,
  if◌then◌else◌,
}
use voice_edge_monitor.Json.{scan, all_bytes}
use voice_edge_monitor.Recorder.{json_escape, escape_byte}

-- The bytes that the function can pass on: all but control characters, and three of these.
abbrev pub is_covered : ℕ → Bool
is_covered c = not (ltb c 32) || (c == 10 || (c == 13 || c == 9))

-- The text that the recorder escapes, put between quotes, reads back as the text itself if each
-- control character in it is a line feed, a carriage return or a tab; with any other control
-- character in the text it is no JSON string at all.
pub scan-recorder_escape :
    (text rest : List ℕ)
    → scan false (json_escape text ++ b'"' ∷ rest)
      ≡ (if all_bytes is_covered text then some (text, rest) else none)
unfolding scan json_escape escape_byte all_bytes
scan-recorder_escape [] rest = refl
scan-recorder_escape (c ∷ cs) rest = ground (arith, scan-recorder_escape cs rest)

abbrev pub is_no_line_feed : ℕ → Bool
is_no_line_feed c = not (c == 10)

abbrev pub IsOneLine : List ℕ → Type 0
IsOneLine text = all_bytes is_no_line_feed text ≡ true

pub append-IsOneLine : (a b : List ℕ) → IsOneLine a → IsOneLine b → IsOneLine (a ++ b)
unfolding all_bytes
append-IsOneLine [] b h k = k
append-IsOneLine (c ∷ cs) b h k = ground (arith, append-IsOneLine cs b)

pub json_escape-IsOneLine : (text : List ℕ) → IsOneLine (json_escape text)
unfolding json_escape escape_byte all_bytes
json_escape-IsOneLine [] = refl
json_escape-IsOneLine (c ∷ cs) = ground (arith, json_escape-IsOneLine cs)
