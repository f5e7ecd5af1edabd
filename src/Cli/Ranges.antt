-- ===== src/Cli/Ranges.antt =====
-- Ranges of numbers that the command lines are checked against.
use voice_edge_monitor.Base.{ℕ, ◌<◌, ◌≤◌, ◌^◌}
use voice_edge_monitor.Base.Int.{ℤ, pos, negsuc}

abbrev pub IsWithin : ℕ → ℕ → Type 0
IsWithin most n = (0 < n) × (n ≤ most)

unfoldable pub IsThreads : ℤ → Type 0
IsThreads (pos n) = (0 < n) × (n < 2 ^ 31)
IsThreads (negsuc n) = ⊥
