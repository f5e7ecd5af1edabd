-- ===== src/Levels/Peak.antt =====
-- The levels of a capture that comes in blocks (board/capture_probe.cpp, board/ws_server.cpp).
use voice_edge_monitor.Base.{
  ℕ, ◌+◌, ◌%◌, ◌^◌, ◌≤◌, ◌<◌, ◌≡◌, ◌⊎◌, inl, inr, refl, ◌∙◌, List, [], ◌∷◌, ◌++◌, length,
  length-append, All, arith, max,
}
use voice_edge_monitor.Base.Int.{pos, signed16}
use voice_edge_monitor.Audio.{AudioFrame, Floats}
use voice_edge_monitor.Levels.{
  magnitude, scan_levels, add_square, IntervalStats, no_samples, add, rms, Meter,
  update_level_stats, dbfs,
}

abbrev pub Attained : ℕ → List ℕ → Type 0
Attained p [] = ⊥
Attained p (x ∷ xs) = (p ≡ magnitude (signed16 x)) ⊎ Attained p xs

-- `p` is the largest of `start` and the magnitudes.
abbrev pub IsPeak : ℕ → ℕ → List ℕ → Type 0
IsPeak p start xs =
    (start ≤ p) × All (λ s. magnitude (signed16 s) ≤ p) xs × ((p ≡ start) ⊎ Attained p xs)

IsPeak-cons :
    (p start x : ℕ) (xs : List ℕ)
    → IsPeak p (max start (magnitude (signed16 x))) xs
    → IsPeak p start (x ∷ xs)
IsPeak-cons p start x xs (above, all, inl e) = (omega arith, (omega arith, all), ground arith)
IsPeak-cons p start x xs (above, all, inr a) = (omega arith, (omega arith, all), inr (inr a))

abbrev pub joined : List (List ℕ) → List ℕ
joined [] = []
joined (b ∷ bs) = b ++ joined bs

module _ (f : Floats) where
  scan_levels-append :
      (xs ys : List ℕ) (r : ℕ × f.LongDouble)
      → scan_levels f (xs ++ ys) r ≡ scan_levels f ys (scan_levels f xs r)
  unfolding scan_levels
  scan_levels-append [] ys r = refl
  scan_levels-append (x ∷ xs) ys (p, s) =
      scan_levels-append xs ys (max p (magnitude (signed16 x)), add_square f s x)

  abbrev pub add_all : List (List ℕ) → IntervalStats f → IntervalStats f
  add_all [] s = s
  add_all (b ∷ bs) s = add_all bs (add f b s)

  add-append :
      (xs ys : List ℕ) (s : IntervalStats f)
      → s.samples < 2 ^ 64
      → add f ys (add f xs s) ≡ add f (xs ++ ys) s
  unfolding add
  add-append xs ys s h =
      ground (arith, scan_levels-append xs ys (s.peak, s.sum_squared), length-append xs ys)

  add-samples : (xs : List ℕ) (s : IntervalStats f) → (add f xs s).samples < 2 ^ 64
  unfolding add
  add-samples xs s = omega arith

  -- Blocks added one after the other are their samples added at once.
  add_all-joined :
      (bs : List (List ℕ)) (s : IntervalStats f)
      → s.samples < 2 ^ 64
      → add_all bs s ≡ add f (joined bs) s
  unfolding add scan_levels
  add_all-joined [] s h = add_nothing s h
    where
      add_nothing : (s : IntervalStats f) → s.samples < 2 ^ 64 → s ≡ add f [] s
      add_nothing s h = ground arith
  add_all-joined (b ∷ bs) s h =
      add_all-joined bs (add f b s) (add-samples b s) ∙ add-append b (joined bs) s h

  scan_levels-IsPeak :
      (xs : List ℕ) (peak : ℕ) (sum : f.LongDouble)
      → IsPeak (scan_levels f xs (peak, sum)).0 peak xs
  unfolding scan_levels
  scan_levels-IsPeak [] peak sum = (omega arith, tt, inl refl)
  scan_levels-IsPeak (x ∷ xs) peak sum =
      let m = magnitude (signed16 x) in
      IsPeak-cons (scan_levels f (x ∷ xs) (peak, sum)).0 peak x xs
        (scan_levels-IsPeak xs (max peak m) (add_square f sum x))

  -- The capture probe's statistics of an interval, however its samples come in blocks: `samples` is
  -- their number, modulo 2^64; `peak` is the largest magnitude of a sample, 0 if there is none; and if
  -- there are fewer than 2^64, the server reports the levels of that peak and of that `rms()` for a
  -- frame that holds them.
  interval-IsPeak :
      (m : Meter f) (bs : List (List ℕ)) (frame : AudioFrame)
      → frame.samples ≡ joined bs
      → length (joined bs) < 2 ^ 64
      → let s = add_all bs (no_samples f) in
        (s.samples ≡ length (joined bs) % 2 ^ 64)
        × IsPeak s.peak 0 (joined bs)
        × (update_level_stats f m frame ≡ (
          m.tenths (dbfs f m (rms f s)),
          m.tenths (dbfs f m (f.narrow (f.of_int (pos s.peak)))),
        ))
  unfolding add no_samples rms update_level_stats
  interval-IsPeak m bs frame e h =
      let whole = add_all-joined bs (no_samples f) (omega arith) in
      let few : (0 + length (joined bs)) % 2 ^ 64 ≡ length (joined bs) = omega arith in
      rw whole (omega arith, scan_levels-IsPeak (joined bs) 0 f.zero_long, rw (e, few))
