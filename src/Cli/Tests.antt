-- ===== src/Cli/Tests.antt =====
-- Command lines run on a concrete `std::stoull`, which reads decimal digits.
use voice_edge_monitor.Base.{
  ℕ, suc, ◌+◌, ◌-◌, ◌*◌, ◌≡◌, refl, true, ◌&&◌, Option, none, some, List, [], ◌∷◌, leb,
  if◌then◌else◌, Error,
}
use voice_edge_monitor.Base.Int.{ℤ, pos}
use voice_edge_monitor.Audio.FixedPoint.{fixed}
use voice_edge_monitor.Cli.{Text, bytes, Numbers, returned, refused}
use voice_edge_monitor.Cli.Server
use voice_edge_monitor.Cli.Server.Bounds.{parse_options-IsInRange, IsInRange}
use voice_edge_monitor.Cli.Pipeline
use voice_edge_monitor.Cli.Capture
use voice_edge_monitor.Cli.AsrProbe

-- The number that the leading digits spell after `n`, and how many characters are read.
abbrev digits : ℕ → ℕ → Text → ℕ × ℕ
digits n consumed [] = (n, consumed)
digits n consumed (c ∷ cs) =
    let more = digits (n * 10 + (c - b'0')) (suc consumed) cs in
    if leb b'0' c && leb c b'9' then more else (n, consumed)

abbrev decimal : Text → Option (ℕ × ℕ)
decimal [] = none
decimal (c ∷ cs) = if leb b'0' c && leb c b'9' then some (digits 0 0 (c ∷ cs)) else none

abbrev as_int : Option (ℕ × ℕ) → Option (ℤ × ℕ)
as_int none = none
as_int (some (n, consumed)) = some (pos n, consumed)

abbrev decimals : Numbers fixed
decimals = record {
  stoull = decimal;
  stod = decimal;
  stoi = λ v. as_int (decimal v);
  is_finite = λ d. true;
  double_0_015 = 491;
  double_0_012 = 393;
}

abbrev port_line : List Text
port_line = bytes "--port=9000" ∷ bytes "--persist-audio" ∷ bytes "--channels" ∷ bytes "2" ∷ []

abbrev port_options : Server.Options fixed
unfolding Server.defaults
port_options = record (Server.defaults decimals none) {
  port = 9000;
  persist_audio = true;
  channels = 2;
}

port_line_read : Server.parse_options decimals none port_line ≡ returned port_options
unfolding Server.parse_options
port_line_read = refl

parse_options-IsInRange_example : IsInRange port_options
parse_options-IsInRange_example =
    parse_options-IsInRange decimals none port_line port_options port_line_read

-- The probe counts threads modulo 2^32, the server refuses the same line.
abbrev threads_line : List Text
threads_line = bytes "--asr-threads" ∷ bytes "4294967298" ∷ []

threads_line_read :
    Pipeline.parse_options decimals none threads_line ≡ returned (Pipeline.defaults decimals none)
unfolding Pipeline.parse_options
threads_line_read = refl

threads_line_rejected :
    Server.parse_options decimals none threads_line ≡ refused Error.invalid_argument
unfolding Server.parse_options
threads_line_rejected = refl

abbrev wav_line : List Text
wav_line = bytes "--wav" ∷ bytes "out.wav" ∷ bytes "--rate=8000" ∷ []

abbrev wav_options : Capture.Options
unfolding Capture.defaults
wav_options = record (Capture.defaults decimals none) { wav_path = bytes "out.wav"; rate = 8000 }

wav_line_read : Capture.parse_options decimals none wav_line ≡ returned wav_options
unfolding Capture.parse_options
wav_line_read = refl

abbrev probe_line : List Text
probe_line =
    bytes "--model=m" ∷ bytes "--tokens" ∷ bytes "t" ∷ bytes "--wave=w" ∷ bytes "--threads=4" ∷ []

abbrev probe_options : AsrProbe.Options
unfolding AsrProbe.defaults
probe_options = record AsrProbe.defaults {
  model = bytes "m";
  tokens = bytes "t";
  wave = bytes "w";
  num_threads = pos 4;
}

probe_line_read : AsrProbe.parse_options decimals probe_line ≡ returned probe_options
unfolding AsrProbe.parse_options
probe_line_read = refl
