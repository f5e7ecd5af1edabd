-- ===== src/Cli/AsrProbe.antt =====
-- The command line of board/asr_probe.cpp: its `Options`, the branches of its `parse_options`, in
-- order, and the check that follows the loop.
pub mod Bounds
use voice_edge_monitor.Base.{◌≡◌, Bool, true, false, ◌||◌, List, [], ◌∷◌, ok, Error, if◌then◌else◌}
use voice_edge_monitor.Base.Int.{ℤ, pos}
use voice_edge_monitor.Audio.{Floats}
use voice_edge_monitor.Cli.{
  Text, bytes, Setting, valued, Parsed, returned, refused, helped, parse, Numbers, parse_int, store,
  any_value, is_empty,
}

pub record Options : Type 0 where
  pub model : Text
  pub tokens : Text
  pub wave : Text
  pub language : Text
  pub provider : Text
  pub num_threads : ℤ

unfoldable pub defaults : Options
defaults = record {
  model = [];
  tokens = [];
  wave = [];
  language = bytes "zh";
  provider = bytes "cpu";
  num_threads = pos 2;
}

-- `--model, --tokens and --wave are required`.
unfoldable pub require_files : Parsed Options → Parsed Options
unfolding is_empty
require_files helped = helped
require_files (refused e) = refused e
require_files (returned o) =
    if is_empty o.model || (is_empty o.tokens || is_empty o.wave)
    then refused Error.invalid_argument
    else returned o

module _ {F : Floats} where
  unfoldable pub settings : Numbers F → List (Setting Options)
  unfolding store parse_int any_value
  settings N =
      valued (bytes "--model") (λ v o. ok (record o { model = v }))
      ∷ (valued (bytes "--tokens") (λ v o. ok (record o { tokens = v }))
          ∷ (valued (bytes "--wave") (λ v o. ok (record o { wave = v }))
              ∷ (valued (bytes "--language") (λ v o. ok (record o { language = v }))
                  ∷ (valued (bytes "--provider") (λ v o. ok (record o { provider = v }))
                      ∷ (valued (bytes "--threads") (λ v o.
                            store any_value (λ n o. record o { num_threads = n }) o (parse_int N v))
                          ∷ [])))))

  unfoldable pub parse_options : Numbers F → List Text → Parsed Options
  unfolding parse settings defaults require_files
  parse_options N args = require_files (parse (settings N) false args defaults)
