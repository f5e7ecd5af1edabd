-- ===== src/Server/Status.antt =====
-- board/ws_server.cpp: `ServerRuntime::run`, which reports the state until the server is to end. Times
-- are nanoseconds since `started_`, without a bound.
use voice_edge_monitor.Base.{
  ◌⊎◌, ℕ, ◌+◌, ◌*◌, ◌/◌, ◌%◌, ◌^◌, ◌<◌, ◌≤◌, ◌≡◌, refl, sym, ap, ◌∙◌, min, Bool, true, false, not,
  ◌&&◌, ◌||◌, List, [], ◌∷◌, ◌++◌, leb, ◌==◌, if◌then◌else◌, Result, ok, err, arith,
}
use voice_edge_monitor.Audio.{Floats}
use voice_edge_monitor.Levels.{Meter}
use voice_edge_monitor.Segment.{incr}
use voice_edge_monitor.Alsa.{AlsaCapture}
use voice_edge_monitor.Server.{
  Server, Round, continues, breaks, terminates, reopening, failed, capture_round, say, reopen_from,
  capture_reconnecting, after_reopening, recover, reopen_capture,
}

-- What one pass of the loop reads: the clock, whether a stop flag is set, `stats_.read_errors`.
pub record Pass : Type 0 where
  pub now : ℕ
  pub stopping : Bool
  pub read_errors : ℕ

-- The tests that leave the loop.
unfoldable pub leaves : ℕ → Pass → Bool
leaves run_ms p =
    p.stopping || (not (run_ms == 0) && leb run_ms (p.now / 1000000)) || not (p.read_errors == 0)

-- The times at which the state is broadcast, and whether the loop is left.
unfoldable pub run_from : ℕ → ℕ → ℕ → List Pass → List ℕ × Bool
unfolding leaves
run_from run_ms state_ms next_state [] = ([], false)
run_from run_ms state_ms next_state (p ∷ passes) =
    let later = run_from run_ms state_ms (p.now + state_ms * 1000000) passes in
    let sooner = run_from run_ms state_ms next_state passes in
    if leaves run_ms p
    then ([], true)
    else if leb next_state p.now
    then (p.now ∷ later.0, later.1)
    else sooner

-- The times are `state_ms` or more apart, the first not before `from`, and each within `run_ms`.
abbrev pub IsPaced : ℕ → ℕ → ℕ → List ℕ → Type 0
IsPaced run_ms state_ms from [] = Unit
IsPaced run_ms state_ms from (t ∷ ts) =
    (from ≤ t)
    × ((run_ms ≡ 0) ⊎ (t / 1000000 < run_ms))
    × IsPaced run_ms state_ms (t + state_ms * 1000000) ts

module _ (run_ms state_ms : ℕ) where
  -- The server broadcasts its state at times that are `state_ms` or more apart, and, if a running time
  -- is set, only while it has not passed.
  run_from-IsPaced :
      (next_state : ℕ) (passes : List Pass)
      → IsPaced run_ms state_ms next_state (run_from run_ms state_ms next_state passes).0
  unfolding run_from leaves
  run_from-IsPaced next_state [] = tt
  run_from-IsPaced next_state (p ∷ passes) =
      go (leaves run_ms p) refl (leb next_state p.now) refl
        (run_from-IsPaced (p.now + state_ms * 1000000) passes) (run_from-IsPaced next_state passes)
    where
      go :
          (a : Bool)
          → leaves run_ms p ≡ a
          → (b : Bool) → leb next_state p.now ≡ b
          → IsPaced run_ms state_ms
              (p.now + state_ms * 1000000)
              (run_from run_ms state_ms (p.now + state_ms * 1000000) passes).0
          → IsPaced run_ms state_ms next_state (run_from run_ms state_ms next_state passes).0
          → IsPaced run_ms state_ms next_state (run_from run_ms state_ms next_state (p ∷ passes)).0
      go true e b h later sooner = rw e tt
      go false e true h later sooner = rw (e, h) (ground arith, ground arith, later)
      go false e false h later sooner = rw (e, h) sooner

module _ (f : Floats) where
  reopen_from-errors :
      (attempts : List (Result AlsaCapture)) (n : ℕ) (s : Server f)
      → (reopen_from f n attempts s).0.read_errors ≡ s.read_errors
  unfolding reopen_from say
  reopen_from-errors [] n s = refl
  reopen_from-errors (ok c ∷ attempts) n s = refl
  reopen_from-errors (err e ∷ attempts) n s =
      reopen_from-errors attempts (min (n * 2 % 2 ^ 64) 5000) (record s {
        waits = s.waits ++ n ∷ [];
        capture_reconnect_failures = incr s.capture_reconnect_failures;
      })

  after_reopening-errors :
      (r : Server f × Bool) (s' : Server f)
      → after_reopening f r ≡ continues s'
      → s'.read_errors ≡ r.0.read_errors
  unfolding after_reopening
  after_reopening-errors (s, true) s' e = ap read_errors_of (sym e)
    where
      read_errors_of : Round f → ℕ
      read_errors_of (continues t) = t.read_errors
      read_errors_of (breaks t) = t.read_errors
      read_errors_of (terminates x) = 0
  after_reopening-errors (s, false) s' e = absurd (ground arith)

  -- A reconnection is in vain: if a read fails and cannot be recovered, then also when the capture
  -- device is opened again and the capture goes on, the next pass of the main loop that reads the
  -- count of read errors left by this, which is not 0 unless it wraps, ends the server.
  pub reconnection_in_vain :
      (m : Meter f) (overrun : Bool) (attempts : List (Result AlsaCapture)) (s s' : Server f)
      (run_ms state_ms next_state : ℕ) (p : Pass) (passes : List Pass)
      → s.read_errors + 1 < 2 ^ 64
      → capture_round f m (failed overrun (reopening attempts)) s ≡ continues s'
      → p.read_errors ≡ s'.read_errors
      → run_from run_ms state_ms next_state (p ∷ passes) ≡ ([], true)
  unfolding capture_round run_from leaves recover reopen_capture say
  reconnection_in_vain m overrun attempts s s' run_ms state_ms next_state p passes a e q =
      let s1 = record s {
        xruns = if overrun then incr s.xruns else s.xruns;
        read_errors = incr s.read_errors;
        audio_state = 1;
        pcm = false;
        broadcasts = s.broadcasts ++ capture_reconnecting ∷ [];
      } in
      let n =
        after_reopening-errors (reopen_from f 100 attempts s1) s' e
        ∙ reopen_from-errors attempts 100 s1 in
      ground (arith, n)
