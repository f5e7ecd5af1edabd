-- ===== src/Cli/Capture/Bounds.antt =====
-- What `parse_options` of board/capture_probe.cpp lets through.
use voice_edge_monitor.Base.{◌<◌, ◌≡◌, Option, subst, List, false, arith}
use voice_edge_monitor.Audio.{Floats}
use voice_edge_monitor.Cli.{Text, returned, Numbers, is_nonzero, is_between_1_and, any_value}
use voice_edge_monitor.Cli.{store, is_positive}
use voice_edge_monitor.Cli.Keeping.{Yields, Kept, all_kept, ◌and◌, ParsedYields, parse-Keeps}
use voice_edge_monitor.Cli.Ranges.{IsWithin, IsThreads}
use voice_edge_monitor.Cli.Capture.{Options, defaults, settings, parse_options}

-- The ranges that the rest of the program relies on.
unfoldable pub IsInRange : Options → Type 0
unfolding IsThreads
IsInRange o =
    IsWithin 0xffff_ffff o.rate
    × IsWithin 8 o.channels
    × (0 < o.period_frames)
    × (0 < o.buffer_frames)
    × (0 < o.report_ms)

module _ {F : Floats} where
  defaults-IsInRange :
      (N : Numbers F) (environment : Option Text) → IsInRange (defaults N environment)
  unfolding IsInRange defaults
  defaults-IsInRange N environment = ground arith

  settings-Keep : (N : Numbers F) → Kept IsInRange (settings N)
  unfolding settings IsInRange is_nonzero is_between_1_and any_value is_positive IsThreads Yields
      store
  settings-Keep N =
      (λ v o p. p)
      and (λ v o p. ground arith)
      and (λ v o p. ground arith)
      and (λ v o p. ground arith)
      and (λ v o p. ground arith)
      and (λ v o p. ground arith)
      and (λ v o p. ground arith)
      and (λ v o p. p)
      and all_kept

  -- The options that the capture probe's `parse_options` returns are in range, whatever the
  -- arguments: the rate is 1 to 2^32 - 1, there are 1 to 8 channels, and no period, buffer or
  -- report interval is 0.
  pub capture_options-IsInRange :
      (N : Numbers F) (environment : Option Text) (args : List Text) (o : Options)
      → parse_options N environment args ≡ returned o
      → IsInRange o
  unfolding parse_options
  capture_options-IsInRange N environment args o e = subst (ParsedYields IsInRange) e (
      parse-Keeps IsInRange (settings N) (settings-Keep N) false args (defaults N environment)
        (defaults-IsInRange N environment))
