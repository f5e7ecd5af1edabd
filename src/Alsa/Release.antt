-- ===== src/Alsa/Release.antt =====
-- What `open_capture` leaves open, on every path (board/ws_server.cpp, board/pipeline_probe.cpp).
use voice_edge_monitor.Base.{
  ℕ, suc, ◌+◌, ◌≡◌, refl, Bool, true, ◌||◌, List, [], ◌∷◌, ◌++◌, if◌then◌else◌, Result, ok, err,
  arith,
}
use voice_edge_monitor.Alsa.{
  Call, open_pcm, malloc_params, prepare, Effect, called, freed_params, closed_pcm, Driver,
  AlsaCapture, check_each, open_with, configuration, server_accepts, server_open_capture,
  probe_accepts, probe_open_capture,
}

abbrev pub closes : List Effect → ℕ
closes [] = 0
closes (called c ∷ es) = closes es
closes (freed_params ∷ es) = closes es
closes (closed_pcm ∷ es) = suc (closes es)

abbrev pub frees : List Effect → ℕ
frees [] = 0
frees (called c ∷ es) = frees es
frees (freed_params ∷ es) = suc (frees es)
frees (closed_pcm ∷ es) = frees es

pub closes-append : (es fs : List Effect) → closes (es ++ fs) ≡ closes es + closes fs
closes-append [] fs = omega arith
closes-append (called c ∷ es) fs = closes-append es fs
closes-append (freed_params ∷ es) fs = closes-append es fs
closes-append (closed_pcm ∷ es) fs = omega (arith, closes-append es fs)

pub frees-append : (es fs : List Effect) → frees (es ++ fs) ≡ frees es + frees fs
frees-append [] fs = omega arith
frees-append (called c ∷ es) fs = frees-append es fs
frees-append (freed_params ∷ es) fs = omega (arith, frees-append es fs)
frees-append (closed_pcm ∷ es) fs = frees-append es fs

pub check_each-releases :
    (d : Driver) (cs : List Call)
    → (closes (check_each d cs).0 ≡ 0) × (frees (check_each d cs).0 ≡ 0)
unfolding check_each
check_each-releases d [] = (refl, refl)
check_each-releases d (c ∷ cs) = ground (arith, check_each-releases d cs)

-- What has been opened and allocated, and not released, at the end.
abbrev Releases : Driver → (AlsaCapture → Bool) → List Effect × Result AlsaCapture → Type 0
Releases d accepts (es, err e) =
    (closes es ≡ (if d.fails open_pcm then 0 else 1))
    × (frees es ≡ (if d.fails open_pcm || d.fails malloc_params then 0 else 1))
Releases d accepts (es, ok c) =
    (closes es ≡ 0) × (frees es ≡ 1) × (accepts c ≡ true) × (c ≡ d.granted)

open_with-Releases :
    (accepts : AlsaCapture → Bool) (d : Driver) → Releases d accepts (open_with accepts d)
unfolding open_with
open_with-Releases accepts d =
    let made = (check_each d configuration).0 in
    ground (
      arith,
      check_each-releases d configuration,
      closes-append made (freed_params ∷ closed_pcm ∷ []),
      frees-append made (freed_params ∷ closed_pcm ∷ []),
      closes-append made (called prepare ∷ []),
      frees-append made (called prepare ∷ []),
      closes-append (made ++ called prepare ∷ []) (freed_params ∷ closed_pcm ∷ []),
      frees-append (made ++ called prepare ∷ []) (freed_params ∷ closed_pcm ∷ []),
      closes-append made (called prepare ∷ freed_params ∷ []),
      frees-append made (called prepare ∷ freed_params ∷ []),
    )

-- The same for the caller: on success the device stays open, at the rate and the channels asked for.
abbrev pub Opened : ℕ → ℕ → Driver → List Effect × Result AlsaCapture → Type 0
Opened rate channels d (es, err e) =
    (closes es ≡ (if d.fails open_pcm then 0 else 1))
    × (frees es ≡ (if d.fails open_pcm || d.fails malloc_params then 0 else 1))
Opened rate channels d (es, ok c) =
    (closes es ≡ 0) × (frees es ≡ 1) × (c.rate ≡ rate) × (c.channels ≡ channels)

Opened-server :
    (rate channels : ℕ) (d : Driver) (r : List Effect × Result AlsaCapture)
    → Releases d (server_accepts rate channels) r
    → Opened rate channels d r
unfolding server_accepts
Opened-server rate channels d (es, err e) h = h
Opened-server rate channels d (es, ok c) h = ground arith

Opened-probe :
    (rate channels : ℕ) (d : Driver) (r : List Effect × Result AlsaCapture)
    → Releases d (probe_accepts rate channels) r
    → Opened rate channels d r
unfolding probe_accepts
Opened-probe rate channels d (es, err e) h = h
Opened-probe rate channels d (es, ok c) h = ground arith

-- On every path through the server's `open_capture`, whichever call of ALSA fails: a device that was
-- opened is closed exactly once if the function throws, and left open if it returns; parameters that
-- were allocated are freed exactly once; and a returned device has the rate and the channels that
-- the options ask for.
pub server_open_capture-Opened :
    (rate channels : ℕ) (d : Driver) → Opened rate channels d (server_open_capture rate channels d)
unfolding server_open_capture
server_open_capture-Opened rate channels d =
    Opened-server rate channels d (open_with (server_accepts rate channels) d)
      (open_with-Releases (server_accepts rate channels) d)

-- The same of the pipeline probe's `open_capture`.
pub probe_open_capture-Opened :
    (rate channels : ℕ) (d : Driver) → Opened rate channels d (probe_open_capture rate channels d)
unfolding probe_open_capture
probe_open_capture-Opened rate channels d =
    Opened-probe rate channels d (open_with (probe_accepts rate channels) d)
      (open_with-Releases (probe_accepts rate channels) d)
