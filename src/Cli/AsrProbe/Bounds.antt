-- ===== src/Cli/AsrProbe/Bounds.antt =====
-- What `parse_options` of board/asr_probe.cpp lets through.
use voice_edge_monitor.Base.{◌≡◌, refl, subst, true, false, Option, none, some, List, ℕ, arith}
use voice_edge_monitor.Base.Int.{ℤ}
use voice_edge_monitor.Audio.{Floats}
use voice_edge_monitor.Cli.{
  Text, Parsed, returned, refused, helped, Numbers, parse, parse_int, accept_int, any_value, store,
  is_empty, is_positive,
}
use voice_edge_monitor.Cli.Keeping.{Yields, Kept, all_kept, ◌and◌, ParsedYields, parse-Keeps}
use voice_edge_monitor.Cli.AsrProbe.{Options, defaults, settings, require_files, parse_options}

unfoldable pub HasThreads : Options → Type 0
HasThreads o = is_positive o.num_threads ≡ true

unfoldable pub IsComplete : Options → Type 0
unfolding HasThreads
IsComplete o =
    HasThreads o
    × (is_empty o.model ≡ false)
    × (is_empty o.tokens ≡ false)
    × (is_empty o.wave ≡ false)

accepted-Yields :
    (v : Text) (o : Options) (r : Option (ℤ × ℕ))
    → Yields HasThreads (store any_value (λ n o. record o { num_threads = n }) o (accept_int v r))
unfolding HasThreads Yields store any_value accept_int
accepted-Yields v o none = tt
accepted-Yields v o (some (n, consumed)) = ground arith

require_files-IsComplete :
    (p : Parsed Options) → ParsedYields HasThreads p → ParsedYields IsComplete (require_files p)
unfolding require_files IsComplete HasThreads
require_files-IsComplete helped h = tt
require_files-IsComplete (refused e) h = tt
require_files-IsComplete (returned o) h = ground arith

module _ {F : Floats} where
  settings-Keep : (N : Numbers F) → Kept HasThreads (settings N)
  unfolding settings HasThreads parse_int Yields
  settings-Keep N =
      (λ v o p. p)
      and (λ v o p. p)
      and (λ v o p. p)
      and (λ v o p. p)
      and (λ v o p. p)
      and (λ v o p. accepted-Yields v o (N.stoi v))
      and all_kept

  -- The options that the recogniser probe's `parse_options` returns name a model, a token file and a
  -- wave file, none of them empty, and a positive number of threads, whatever the arguments.
  pub probe_options-IsComplete :
      (N : Numbers F) (args : List Text) (o : Options)
      → parse_options N args ≡ returned o
      → IsComplete o
  unfolding parse_options defaults HasThreads is_positive
  probe_options-IsComplete N args o e = subst (ParsedYields IsComplete) e (
      require_files-IsComplete (parse (settings N) false args defaults)
        (parse-Keeps HasThreads (settings N) (settings-Keep N) false args defaults refl))
