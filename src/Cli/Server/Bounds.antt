-- ===== src/Cli/Server/Bounds.antt =====
-- What `parse_options` of board/ws_server.cpp lets through.
use voice_edge_monitor.Base.{◌<◌, ◌≡◌, Option, subst, List, true, false, arith}
use voice_edge_monitor.Audio.{Floats}
use voice_edge_monitor.Cli.{
  Text, returned, Numbers, is_nonzero, is_between_1_and, any_value, starts_with_slash,
}
use voice_edge_monitor.Cli.{store, is_positive}
use voice_edge_monitor.Cli.Keeping.{Yields, Kept, all_kept, ◌and◌, ParsedYields, parse-Keeps}
use voice_edge_monitor.Cli.Ranges.{IsWithin, IsThreads}
use voice_edge_monitor.Cli.Server.{Options, defaults, settings, parse_options}

module _ {F : Floats} where
  -- The ranges that the rest of the program relies on.
  unfoldable pub IsInRange : Options F → Type 0
  unfolding IsThreads
  IsInRange o =
      IsWithin 0xffff o.port
      × (starts_with_slash o.path ≡ true)
      × IsWithin 0xffff_ffff o.rate
      × IsWithin 8 o.channels
      × (0 < o.period_frames)
      × (0 < o.buffer_frames)
      × (0 < o.state_ms)
      × (0 < o.client_queue_capacity)
      × (0 < o.max_clients)
      × (0 < o.asr_queue_capacity)
      × (0 < o.max_segment_ms)
      × (0 < o.persist_queue_capacity)
      × IsThreads o.asr_threads

  defaults-IsInRange :
      (N : Numbers F) (environment : Option Text) → IsInRange (defaults N environment)
  unfolding IsInRange defaults starts_with_slash
  defaults-IsInRange N environment = ground arith

  settings-Keep : (N : Numbers F) → Kept IsInRange (settings N)
  unfolding settings IsInRange is_nonzero is_between_1_and any_value is_positive IsThreads Yields
      store
  settings-Keep N =
      (λ v o p. p)
      and (λ v o p. ground arith)
      and (λ v o p. ground arith)
      and (λ v o p. p)
      and (λ v o p. ground arith)
      and (λ v o p. ground arith)
      and (λ v o p. ground arith)
      and (λ v o p. ground arith)
      and (λ v o p. ground arith)
      and (λ v o p. ground arith)
      and (λ v o p. ground arith)
      and (λ v o p. ground arith)
      and (λ v o p. ground arith)
      and (λ v o p. ground arith)
      and (λ v o p. ground arith)
      and (λ v o p. ground arith)
      and (λ v o p. ground arith)
      and (λ v o p. ground arith)
      and (λ v o p. ground arith)
      and (λ v o p. ground arith)
      and (λ v o p. p)
      and (λ v o p. p)
      and (λ v o p. p)
      and (λ v o p. p)
      and (λ v o p. ground arith)
      and (λ v o p. ground arith)
      and (λ v o p. ground arith)
      and (λ v o p. p)
      and (λ o p. p)
      and (λ o p. p)
      and (λ v o p. ground arith)
      and all_kept

  -- The options that the server's `parse_options` returns are in range, whatever the arguments: the
  -- port is 1 to 65535, the path begins with a slash, the rate is 1 to 2^32 - 1, there are 1 to 8
  -- channels and 1 to 2^31 - 1 recogniser threads, and no period, buffer, interval, queue capacity,
  -- segment length or client limit is 0.
  pub parse_options-IsInRange :
      (N : Numbers F) (environment : Option Text) (args : List Text) (o : Options F)
      → parse_options N environment args ≡ returned o
      → IsInRange o
  unfolding parse_options
  parse_options-IsInRange N environment args o e = subst (ParsedYields IsInRange) e (
      parse-Keeps IsInRange (settings N) (settings-Keep N) false args (defaults N environment)
        (defaults-IsInRange N environment))
