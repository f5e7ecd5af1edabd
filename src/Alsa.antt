-- ===== src/Alsa.antt =====
-- `open_capture` of board/ws_server.cpp and board/pipeline_probe.cpp: the calls of ALSA that set a
-- capture device up, in order, and what their smart pointers release. ALSA itself is a parameter.
pub mod Release
mod Tests
use voice_edge_monitor.Base.{
  ℕ, ◌/◌, Bool, true, false, ◌||◌, not, List, [], ◌∷◌, ◌++◌, map, ltb, ◌==◌, if◌then◌else◌, Result,
  Error, ok, err,
}

-- The calls, by their names without `snd_pcm_` (`hw_params_` for those that begin so).
pub data Call : Type 0 where
  open_pcm malloc_params : Call
  any set_access set_format set_rate set_channels set_period_size_near set_buffer_size_near : Call
  hw_params get_rate get_channels get_period_size get_buffer_size : Call
  prepare drop : Call

pub record AlsaCapture : Type 0 where
  pub rate : ℕ
  pub channels : ℕ
  pub period_frames : ℕ
  pub buffer_frames : ℕ

-- Which calls return a negative number, and what the four `get_` calls report.
pub record Driver : Type 0 where
  pub fails : Call → Bool
  pub granted : AlsaCapture

-- What has been done: a call, `snd_pcm_hw_params_free`, `snd_pcm_close`.
pub data Effect : Type 0 where
  called : Call → Effect
  freed_params closed_pcm : Effect

-- The calls between `snd_pcm_hw_params_malloc` and the checks of what was granted.
abbrev pub configuration : List Call
configuration =
    any ∷ set_access ∷ set_format ∷ set_rate ∷ set_channels ∷ set_period_size_near
    ∷ set_buffer_size_near ∷ hw_params ∷ get_rate ∷ get_channels ∷ get_period_size ∷ get_buffer_size
    ∷ []

-- Each call under `check_alsa`, up to the first that fails; whether none does.
unfoldable pub check_each : Driver → List Call → List Effect × Bool
check_each d [] = ([], true)
check_each d (c ∷ cs) =
    let (made, good) = check_each d cs in
    if d.fails c then (called c ∷ [], false) else (called c ∷ made, good)

-- The exception that is thrown runs the deleters of the pointers set so far, the last one first.
abbrev thrown_after : List Effect → List Effect × Result AlsaCapture
thrown_after made = (
  called open_pcm ∷ called malloc_params ∷ (made ++ freed_params ∷ closed_pcm ∷ []),
  err Error.runtime_error,
)

-- `accepts` are the program's tests of what was granted.
unfoldable pub open_with : (AlsaCapture → Bool) → Driver → List Effect × Result AlsaCapture
unfolding check_each
open_with accepts d =
    let (made, good) = check_each d configuration in
    if d.fails open_pcm
    then (called open_pcm ∷ [], err Error.runtime_error)
    else if d.fails malloc_params
    then (called open_pcm ∷ called malloc_params ∷ closed_pcm ∷ [], err Error.runtime_error)
    else if not good
    then thrown_after made
    else if not (accepts d.granted)
    then thrown_after made
    else if d.fails prepare
    then thrown_after (made ++ called prepare ∷ [])
    else (
      called open_pcm ∷ called malloc_params ∷ (made ++ called prepare ∷ freed_params ∷ []),
      ok d.granted,
    )

-- The server's `open_capture`, at the options' rate and channels.
unfoldable pub server_accepts : ℕ → ℕ → AlsaCapture → Bool
server_accepts rate channels c = not (not (c.rate == rate) || not (c.channels == channels))

unfoldable pub server_open_capture : ℕ → ℕ → Driver → List Effect × Result AlsaCapture
unfolding open_with server_accepts
server_open_capture rate channels d = open_with (server_accepts rate channels) d

-- The probe's, which also bounds the period; `size_t` has 64 bits.
unfoldable pub probe_accepts : ℕ → ℕ → AlsaCapture → Bool
unfolding server_accepts
probe_accepts rate channels c =
    if not (server_accepts rate channels c)
    then false
    else not (c.period_frames == 0 || ltb (0xffff_ffff_ffff_ffff / c.channels) c.period_frames)

unfoldable pub probe_open_capture : ℕ → ℕ → Driver → List Effect × Result AlsaCapture
unfolding open_with probe_accepts
probe_open_capture rate channels d = open_with (probe_accepts rate channels) d
