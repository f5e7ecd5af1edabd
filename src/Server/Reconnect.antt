-- ===== src/Server/Reconnect.antt =====
-- board/ws_server.cpp: the waits of `ServerRuntime::reopen_capture`.
use voice_edge_monitor.Base.{
  ◌⊎◌, ℕ, zero, suc, ◌+◌, ◌*◌, ◌%◌, ◌^◌, ◌<◌, ◌≤◌, min, ◌≡◌, refl, sym, ap, ◌∙◌, Bool, true, false,
  not, ◌&&◌, Option, none, some, List, [], ◌∷◌, ◌++◌, ltb, if◌then◌else◌, append_assoc, append-nil,
  Result, ok, err, arith,
}
use voice_edge_monitor.Audio.{Floats}
use voice_edge_monitor.Alsa.{AlsaCapture}
use voice_edge_monitor.Segment.{incr}
use voice_edge_monitor.Server.{Server, say, reopen_from, reopen_capture, capture_reconnecting}

-- The attempts that are made: up to the first that finds a device.
abbrev pub attempts_made : List (Result AlsaCapture) → ℕ
attempts_made [] = 0
attempts_made (ok c ∷ attempts) = 1
attempts_made (err e ∷ attempts) = suc (attempts_made attempts)

abbrev pub any_ok : List (Result AlsaCapture) → Bool
any_ok [] = false
any_ok (ok c ∷ attempts) = true
any_ok (err e ∷ attempts) = any_ok attempts

-- The wait before the attempt number `k`, counted from 0, in milliseconds.
abbrev pub scheduled : ℕ → ℕ
scheduled k = min (100 * 2 ^ k) 5000

abbrev pub schedule : ℕ → ℕ → List ℕ
schedule k zero = []
schedule k (suc n) = scheduled k ∷ schedule (suc k) n

scheduled-doubled : (k : ℕ) → min (scheduled k * 2 % 2 ^ 64) 5000 ≡ scheduled (suc k)
scheduled-doubled k = ground arith

module _ (f : Floats) where
  reopen_from-waits :
      (attempts : List (Result AlsaCapture)) (k n : ℕ) (s : Server f)
      → n ≡ scheduled k
      → ((reopen_from f n attempts s).0.waits ≡ s.waits ++ schedule k (attempts_made attempts))
        × ((reopen_from f n attempts s).1 ≡ any_ok attempts)
  unfolding reopen_from say
  reopen_from-waits [] k n s h = (sym (append-nil s.waits), refl)
  reopen_from-waits (ok c ∷ attempts) k n s h = (ap (λ m. s.waits ++ m ∷ []) h, refl)
  reopen_from-waits (err e ∷ attempts) k n s h =
      let s' = record s {
        waits = s.waits ++ n ∷ [];
        capture_reconnect_failures = incr s.capture_reconnect_failures;
      } in
      let h' = ap (λ m. min (m * 2 % 2 ^ 64) 5000) h ∙ scheduled-doubled k in
      let (w, b) = reopen_from-waits attempts (suc k) (min (n * 2 % 2 ^ 64) 5000) s' h' in
      (
        w
            ∙ append_assoc s.waits (n ∷ []) (schedule (suc k) (attempts_made attempts))
            ∙ ap (λ m. s.waits ++ m ∷ schedule (suc k) (attempts_made attempts)) h,
        b,
      )

  -- When the capture device is lost, the server waits 100 ms before its first attempt to open one, twice
  -- as long before each further attempt, and never more than 5000 ms; it makes no attempt after the first
  -- that finds a device; and it reports success if and only if one does.
  pub reopen_capture-schedule :
      (attempts : List (Result AlsaCapture)) (s : Server f)
      → ((reopen_capture f attempts s).0.waits ≡ s.waits ++ schedule 0 (attempts_made attempts))
        × ((reopen_capture f attempts s).1 ≡ any_ok attempts)
  unfolding reopen_capture say
  reopen_capture-schedule attempts s =
      reopen_from-waits attempts 0 100
        (record s {
          audio_state = 1;
          pcm = false;
          broadcasts = s.broadcasts ++ capture_reconnecting ∷ [];
        })
        refl

-- The loop of one wait, in naps of 50 ms: `stopped n` is whether a stop flag is set after `n` naps. The
-- result is the number of naps; `none`: the fuel is used up.
unfoldable pub nap_from : ℕ → (ℕ → Bool) → ℕ → ℕ → ℕ → Option ℕ
nap_from zero stopped backoff_ms elapsed naps = none
nap_from (suc fuel) stopped backoff_ms elapsed naps =
    let rest = nap_from fuel stopped backoff_ms ((elapsed + 50) % 2 ^ 64) (suc naps) in
    if ltb elapsed backoff_ms && not (stopped naps) then rest else some naps

module _ (stopped : ℕ → Bool) (backoff_ms : ℕ) where
  -- From `50 * naps` on.
  abbrev Ends : ℕ → ℕ → Type 0
  Ends fuel naps =
      (n : ℕ) × (nap_from fuel stopped backoff_ms (50 * naps) naps ≡ some n)
      × (naps ≤ n)
      × (50 * n < backoff_ms + 50)
      × ((stopped n ≡ true) ⊎ (backoff_ms ≤ 50 * n))

  nap_from-Ends :
      (fuel naps : ℕ)
      → backoff_ms < 2 ^ 63
      → 50 * naps < backoff_ms + 50
      → backoff_ms + 50 ≤ 50 * naps + 50 * fuel
      → Ends fuel naps
  unfolding nap_from
  nap_from-Ends zero naps a b c = absurd (omega arith)
  nap_from-Ends (suc fuel) naps a b c =
      go (ltb (50 * naps) backoff_ms) refl (stopped naps) refl
        (λ e. nap_from-Ends fuel (suc naps) a (ground arith) (omega arith))
    where
      go :
          (p : Bool)
          → ltb (50 * naps) backoff_ms ≡ p
          → (q : Bool) → stopped naps ≡ q
          → ((ltb (50 * naps) backoff_ms ≡ true) → Ends fuel (suc naps))
          → Ends (suc fuel) naps
      go false e q h rest = (naps, ground arith, ground arith, ground arith, ground arith)
      go true e true h rest = (naps, ground arith, ground arith, ground arith, ground arith)
      go true e false h rest =
          let (n, r, lo, hi, full) = rest e in (n, ground arith, omega arith, hi, full)

  -- A wait between two attempts ends, whatever the stop flags do: with fuel for one nap of 50 ms more
  -- than it has milliseconds. It lasts less than 50 ms longer than asked for, and, if no stop flag is set
  -- when it ends, at least as long as asked for.
  naps_end :
      backoff_ms < 2 ^ 63
      → (n : ℕ) × (nap_from (suc backoff_ms) stopped backoff_ms 0 0 ≡ some n)
        × (50 * n < backoff_ms + 50)
        × ((stopped n ≡ true) ⊎ (backoff_ms ≤ 50 * n))
  naps_end a =
      let (n, r, lo, hi, full) = nap_from-Ends (suc backoff_ms) 0 a (omega arith) (omega arith) in
      (n, r, hi, full)
