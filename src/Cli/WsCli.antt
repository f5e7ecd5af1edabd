-- ===== src/Cli/WsCli.antt =====
-- The command line of tools/ws_cli.cpp: its `Options` and the branches of its `parse_options`, in
-- order. `environment` is the value of VOICEEDGE_WS_HOST.
use voice_edge_monitor.Base.{ℕ, false, List, [], ◌∷◌, Option, none, some, ok, if◌then◌else◌}
use voice_edge_monitor.Audio.{Floats}
use voice_edge_monitor.Cli.{
  Text, bytes, Setting, valued, Parsed, parse, Numbers, parse_uint64, store, any_value, is_empty,
  starts_with_slash,
}

pub record Options : Type 0 where
  pub host : Text
  pub port : Text
  pub path : Text
  pub max_packets : ℕ

unfoldable pub default_host : Option Text → Text
unfolding is_empty
default_host none = bytes "127.0.0.1"
default_host (some t) = if is_empty t then bytes "127.0.0.1" else t

unfoldable pub defaults : Option Text → Options
unfolding default_host
defaults environment = record {
  host = default_host environment;
  port = bytes "8765";
  path = bytes "/voiceedge";
  max_packets = 0;
}

module _ {F : Floats} where
  unfoldable pub settings : Numbers F → List (Setting Options)
  unfolding store parse_uint64 any_value starts_with_slash
  settings N =
      valued (bytes "--host") (λ v o. ok (record o { host = v }))
      ∷ (valued (bytes "--port") (λ v o. ok (record o { port = v }))
          ∷ (valued (bytes "--path")
                (λ v o. store starts_with_slash (λ t o. record o { path = t }) o (ok v))
              ∷ (valued (bytes "--max-packets") (λ v o.
                    store any_value (λ n o. record o { max_packets = n }) o (parse_uint64 N v))
                  ∷ [])))

  unfoldable pub parse_options : Numbers F → Option Text → List Text → Parsed Options
  unfolding parse settings defaults
  parse_options N environment args = parse (settings N) false args (defaults environment)
