-- ===== src/Probe/Release.antt =====
-- What the capture probe leaves open (board/capture_probe.cpp).
use voice_edge_monitor.Base.{
  ◌≡◌, refl, ◌||◌, List, [], ◌∷◌, ◌++◌, if◌then◌else◌, Result, ok, err, arith,
}
use voice_edge_monitor.Audio.{Floats}
use voice_edge_monitor.Cli.Capture.{Options}
use voice_edge_monitor.Wav.{WriteFate}
use voice_edge_monitor.Alsa.{
  Effect, called, freed_params, closed_pcm, open_pcm, malloc_params, prepare, drop, Driver,
  configuration, check_each,
}
use voice_edge_monitor.Alsa.Release.{
  closes, frees, closes-append, frees-append, check_each-releases,
}
use voice_edge_monitor.Probe.{Round, Probe}
use voice_edge_monitor.Probe.Run.{run, released, with_device, record_all}

abbrev pub Releases : Driver → List Effect → Type 0
Releases d es =
    (closes es ≡ (if d.fails open_pcm then 0 else 1))
    × (frees es ≡ (if d.fails open_pcm || d.fails malloc_params then 0 else 1))

-- A device and its parameters, got once and still held, are released once.
released-once :
    (made : List Effect)
    → closes made ≡ 0
    → frees made ≡ 0
    → (closes (released made) ≡ 1) × (frees (released made) ≡ 1)
released-once made c g = ground (
  arith,
  closes-append made (freed_params ∷ closed_pcm ∷ []),
  frees-append made (freed_params ∷ closed_pcm ∷ []),
)

holds_on :
    (made : List Effect) (call : Effect)
    → closes made ≡ 0
    → frees made ≡ 0
    → closes (call ∷ []) ≡ 0
    → frees (call ∷ []) ≡ 0
    → (closes (made ++ call ∷ []) ≡ 0) × (frees (made ++ call ∷ []) ≡ 0)
holds_on made call c g c' g' =
    ground (arith, closes-append made (call ∷ []), frees-append made (call ∷ []))

module _ (f : Floats) where
  with_device-releases :
      (made : List Effect) (r : Result (Probe f))
      → closes made ≡ 0
      → frees made ≡ 0
      → (closes (with_device f made r).0 ≡ 1) × (frees (with_device f made r).0 ≡ 1)
  unfolding with_device
  with_device-releases made (err e) c g = released-once made c g
  with_device-releases made (ok s) c g =
      let (c', g') = holds_on made (called drop) c g refl refl in
      released-once (made ++ called drop ∷ []) c' g'

  -- On every path through the capture probe, whichever call of ALSA or of the file fails, and also at the
  -- end of a run: a device that was opened is closed exactly once, and parameters that were allocated are
  -- freed exactly once.
  pub run-Releases :
      (o : Options) (d : Driver) (fate : WriteFate) (rounds : List Round)
      → Releases d (run f o d fate rounds).0
  unfolding run
  run-Releases o d fate rounds =
      let made = (check_each d configuration).0 in
      let all_made = called open_pcm ∷ called malloc_params ∷ made in
      let (c, g) = check_each-releases d configuration in
      let (c', g') = holds_on all_made (called prepare) c g refl refl in
      ground (
        arith,
        released-once all_made c g,
        released-once (all_made ++ called prepare ∷ []) c' g',
        with_device-releases (all_made ++ called prepare ∷ [])
            (record_all f o fate rounds d.granted) c' g',
      )
