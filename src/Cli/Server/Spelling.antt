-- ===== src/Cli/Server/Spelling.antt =====
-- The two spellings of an option with a value, on the command line of board/ws_server.cpp.
use voice_edge_monitor.Base.{refl, All}
use voice_edge_monitor.Audio.{Floats}
use voice_edge_monitor.Cli.{
  Numbers, round, first_match, matches, apply_setting, use_value, option_value, starts_with,
}
use voice_edge_monitor.Cli.Spelling.{Agrees, Spelled, all_spelled, ◌and◌, settings-Agree}
use voice_edge_monitor.Cli.Server.{settings}

module _ {F : Floats} where
  server_options-Spelled : (N : Numbers F) → Spelled (settings N) (settings N)
  unfolding settings round first_match matches apply_setting use_value option_value starts_with
  server_options-Spelled N =
      (λ v args o. (refl, refl))
      and (λ v args o. (refl, refl))
      and (λ v args o. (refl, refl))
      and (λ v args o. (refl, refl))
      and (λ v args o. (refl, refl))
      and (λ v args o. (refl, refl))
      and (λ v args o. (refl, refl))
      and (λ v args o. (refl, refl))
      and (λ v args o. (refl, refl))
      and (λ v args o. (refl, refl))
      and (λ v args o. (refl, refl))
      and (λ v args o. (refl, refl))
      and (λ v args o. (refl, refl))
      and (λ v args o. (refl, refl))
      and (λ v args o. (refl, refl))
      and (λ v args o. (refl, refl))
      and (λ v args o. (refl, refl))
      and (λ v args o. (refl, refl))
      and (λ v args o. (refl, refl))
      and (λ v args o. (refl, refl))
      and (λ v args o. (refl, refl))
      and (λ v args o. (refl, refl))
      and (λ v args o. (refl, refl))
      and (λ v args o. (refl, refl))
      and (λ v args o. (refl, refl))
      and (λ v args o. (refl, refl))
      and (λ v args o. (refl, refl))
      and (λ v args o. (refl, refl))
      and tt
      and tt
      and (λ v args o. (refl, refl))
      and all_spelled

  -- Each option of the server that takes a value may be written `--name=value` or `--name value`:
  -- whatever the value, the arguments that follow and the options so far, both parse alike.
  server_options-Agree : (N : Numbers F) → All (Agrees (settings N)) (settings N)
  server_options-Agree N = settings-Agree (settings N) (settings N) (server_options-Spelled N)
