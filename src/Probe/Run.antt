-- ===== src/Probe/Run.antt =====
-- board/capture_probe.cpp: all of `run_capture`, from the setup of the device on, and `main` behind the
-- command line. The calls of ALSA that set the device up are those of `open_capture` in Alsa.antt; the
-- `snd_pcm_readi` and `snd_pcm_recover` between them and `snd_pcm_drop` are not listed.
use voice_edge_monitor.Base.{
  ℕ, ◌/◌, Bool, false, ◌||◌, not, List, [], ◌∷◌, ◌++◌, ltb, ◌==◌, if◌then◌else◌, Result, Error, ok,
  err,
}
use voice_edge_monitor.Audio.{Floats}
use voice_edge_monitor.Cli.{is_empty}
use voice_edge_monitor.Cli.Capture.{Options}
use voice_edge_monitor.Wav.{WriteFate}
use voice_edge_monitor.Wav.Writer.{WavWriter, fresh, open_output}
use voice_edge_monitor.Alsa.{
  AlsaCapture, Driver, Effect, called, freed_params, closed_pcm, open_pcm, malloc_params, prepare,
  drop, configuration, check_each,
}
use voice_edge_monitor.Probe.{Round, Setup, Probe, run_capture}

-- The tests of what was granted; `size_t` has 64 bits.
unfoldable pub accepts : Options → AlsaCapture → Bool
accepts o c =
    if not (c.rate == o.rate) || not (c.channels == o.channels)
    then false
    else not (c.period_frames == 0 || ltb (0xffff_ffff_ffff_ffff / o.channels) c.period_frames)

unfoldable pub setup : Options → WriteFate → AlsaCapture → Setup
unfolding is_empty
setup o fate c = record {
  run_ms = o.run_ms;
  report_ms = o.report_ms;
  recording = not (is_empty o.wav_path);
  channels = c.channels;
  fate = fate;
}

-- The exception that ends the function runs the deleters.
abbrev pub released : List Effect → List Effect
released made = made ++ freed_params ∷ closed_pcm ∷ []

module _ (f : Floats) where
  -- What a run that has come to its end returns.
  unfoldable pub exit_code : Probe f → ℕ
  exit_code s = if s.read_errors == 0 then 0 else 1

  unfoldable pub with_file :
      Options
      → WriteFate
      → List Round
      → AlsaCapture
      → WavWriter × Result (Unit {0})
      → Result (Probe f)
  unfolding setup run_capture
  with_file o fate rounds c (wav, err e) = err e
  with_file o fate rounds c (wav, ok u) = run_capture f (setup o fate c) rounds wav

  -- What follows the setup.
  unfoldable pub record_all : Options → WriteFate → List Round → AlsaCapture → Result (Probe f)
  unfolding with_file fresh open_output is_empty
  record_all o fate rounds c = with_file o fate rounds c (
      if not (is_empty o.wav_path)
      then open_output fate c.rate c.channels fresh
      else (fresh, ok tt))

  unfoldable pub with_device : List Effect → Result (Probe f) → List Effect × Result (Probe f)
  with_device made (err e) = (released made, err e)
  with_device made (ok s) = (released (made ++ called drop ∷ []), ok s)

  unfoldable pub run : Options → Driver → WriteFate → List Round → List Effect × Result (Probe f)
  unfolding check_each accepts record_all with_device
  run o d fate rounds =
      let (made, good) = check_each d configuration in
      let all_made = called open_pcm ∷ called malloc_params ∷ made in
      if d.fails open_pcm
      then (called open_pcm ∷ [], err Error.runtime_error)
      else if d.fails malloc_params
      then (called open_pcm ∷ called malloc_params ∷ closed_pcm ∷ [], err Error.runtime_error)
      else if not good
      then (released all_made, err Error.runtime_error)
      else if not (accepts o d.granted)
      then (released all_made, err Error.runtime_error)
      else if d.fails prepare
      then (released (all_made ++ called prepare ∷ []), err Error.runtime_error)
      else with_device (all_made ++ called prepare ∷ []) (record_all o fate rounds d.granted)

  -- `main`: an exception is printed, and makes the exit code 1.
  unfoldable pub main : List Effect × Result (Probe f) → ℕ
  unfolding exit_code
  main (es, err e) = 1
  main (es, ok s) = exit_code s
