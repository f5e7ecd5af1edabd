-- ===== src/Probe.antt =====
-- board/capture_probe.cpp: `run_capture`, from the point where the device is set up and the WAV file, if
-- one is asked for, is open. Times are nanoseconds since `started`; what is printed is a log.
pub mod Reads
pub mod Reports
pub mod Run
pub mod Release
mod Tests
use voice_edge_monitor.Base.{
  ℕ, zero, suc, ◌+◌, ◌*◌, ◌/◌, ◌%◌, ◌^◌, Bool, true, false, ◌&&◌, not, List, [], ◌∷◌, ◌++◌, leb,
  ◌==◌, if◌then◌else◌, take, Result, Error, ok, err,
}
use voice_edge_monitor.Audio.{Floats}
use voice_edge_monitor.Segment.{incr}
use voice_edge_monitor.Wav.{WriteFate}
use voice_edge_monitor.Wav.Writer.{WavWriter, write, close}
use voice_edge_monitor.Levels.{IntervalStats, no_samples, add}

-- What `snd_pcm_readi` returns: frames, with the buffer that holds their samples; none; `-EAGAIN`; or
-- another error: whether it is `-EPIPE`, whether it is `-EINTR` with `g_stop` set, and whether ALSA
-- recovers from it.
pub data Read : Type 0 where
  got : ℕ → List ℕ → Read
  got_none again : Read
  failed : Bool → Bool → Bool → Read

-- One round of the loop, with the clock at its beginning and at the end. Where the rounds end, `g_stop`
-- is set.
pub record Round : Type 0 where
  pub now : ℕ
  pub read : Read
  pub report_time : ℕ

-- The options of the loop, the channels, and the fate of the writes to the WAV file.
pub record Setup : Type 0 where
  pub run_ms : ℕ
  pub report_ms : ℕ
  pub recording : Bool
  pub channels : ℕ
  pub fate : WriteFate

module _ (f : Floats) where
  -- `reports` are the intervals that were printed. `captured` is a log that the program does not keep.
  pub record Probe : Type 0 where
    pub wav : WavWriter
    pub frames : ℕ
    pub xruns : ℕ
    pub recoveries : ℕ
    pub read_errors : ℕ
    pub interval : IntervalStats f
    pub next_report : ℕ
    pub reports : List (IntervalStats f)
    pub captured : List (List ℕ)

  unfoldable pub at_start : Setup → WavWriter → Probe
  unfolding no_samples
  at_start o wav = record {
    wav = wav;
    frames = 0;
    xruns = 0;
    recoveries = 0;
    read_errors = 0;
    interval = no_samples f;
    next_report = o.report_ms * 1000000;
    reports = [];
    captured = [];
  }

  pub data Progress : Type 0 where
    continues breaks : Probe → Progress
    throws : Error → Progress

  unfoldable pub report_interval : Probe → Probe
  unfolding no_samples
  report_interval s = record s { reports = s.reports ++ s.interval ∷ []; interval = no_samples f }

  -- The end of a round that has read frames.
  unfoldable pub after_write : Setup → ℕ → WavWriter × Result (Unit {0}) → Probe → Progress
  unfolding report_interval
  after_write o time (wav, err e) s = throws e
  after_write o time (wav, ok u) s =
      let t = record s { wav = wav } in
      continues (
        if leb s.next_report time
        then record (report_interval t) { next_report = time + o.report_ms * 1000000 }
        else t)

  unfoldable pub take_block : Setup → ℕ → ℕ → List ℕ → Probe → Progress
  unfolding after_write add
  take_block o time count block s =
      let written = if o.recording then write o.fate block s.wav else (s.wav, ok tt) in
      after_write o time written (record s {
        interval = add f block s.interval;
        frames = (s.frames + count) % 2 ^ 64;
        captured = s.captured ++ block ∷ [];
      })

  unfoldable pub read_step : Setup → ℕ → Read → Probe → Progress
  unfolding take_block
  read_step o time (got count buffer) s =
      take_block o time count (take (count * o.channels) buffer) s
  read_step o time got_none s = continues s
  read_step o time again s = continues s
  read_step o time (failed overrun stopped recovers) s =
      let t = record s { xruns = if overrun then incr s.xruns else s.xruns } in
      if stopped
      then breaks t
      else if recovers
      then continues (record t { recoveries = incr s.recoveries })
      else breaks (record t { read_errors = incr s.read_errors })

  unfoldable pub probe_round : Setup → Round → Probe → Progress
  unfolding read_step
  probe_round o r s =
      if not (o.run_ms == 0) && leb o.run_ms (r.now / 1000000)
      then breaks s
      else read_step o r.report_time r.read s

  -- Behind the loop.
  unfoldable pub finish_capture : Probe → Probe
  unfolding report_interval close
  finish_capture s =
      let t = if not (s.interval.samples == 0) then report_interval s else s in
      record t { wav = close t.wav }

  unfoldable pub capture_rounds : Setup → List Round → Probe → Result Probe
  unfolding probe_round finish_capture
  capture_rounds o [] s = ok (finish_capture s)
  capture_rounds o (r ∷ rounds) s = elim (probe_round o r s) [
    | continues t ↦ capture_rounds o rounds t
    | breaks t ↦ ok (finish_capture t)
    | throws e ↦ err e
  ]

  unfoldable pub run_capture : Setup → List Round → WavWriter → Result Probe
  unfolding at_start capture_rounds
  run_capture o rounds wav = capture_rounds o rounds (at_start o wav)
