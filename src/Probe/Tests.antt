-- ===== src/Probe/Tests.antt =====
-- A run of the capture probe (board/capture_probe.cpp).
use voice_edge_monitor.Base.{◌≡◌, refl, Bool, true, false, List, [], ◌∷◌}
use voice_edge_monitor.Cli.{bytes}
use voice_edge_monitor.Cli.Capture.{Options}
use voice_edge_monitor.Alsa.{
  Driver, Call, open_pcm, malloc_params, any, set_access, set_format, set_rate, set_channels,
  set_period_size_near, set_buffer_size_near, hw_params, get_rate, get_channels, get_period_size,
  get_buffer_size, prepare, drop,
}
use voice_edge_monitor.Probe.Run.{run, main}
use voice_edge_monitor.Probe.Release.{Releases, run-Releases}
use voice_edge_monitor.Audio.FixedPoint.{fixed}
use voice_edge_monitor.Wav.Writer.{WavWriter, write}
use voice_edge_monitor.Probe.{Round, Setup, got, again, failed, run_capture}
use voice_edge_monitor.Probe.Reads.{blocks_read}
use voice_edge_monitor.Probe.Reports.{Ended, run_capture-Ended}

abbrev setup : Setup
setup = record {
  run_ms = 0;
  report_ms = 1000;
  recording = true;
  channels = 1;
  fate = record { opens = true; completes = true; partial = []; removes = true; renames = true };
}

abbrev opened : WavWriter
opened = record { is_open = true; output = []; data_bytes = 0 }

abbrev rounds : List Round
rounds =
    record { now = 0; read = got 2 (3 ∷ 65535 ∷ 9 ∷ []); report_time = 1000000 }
    ∷ record { now = 1000000; read = again; report_time = 0 }
    ∷ record { now = 2000000; read = failed true false true; report_time = 0 }
    ∷ record { now = 3000000; read = got 1 (7 ∷ 0 ∷ 0 ∷ []); report_time = 1000000000 }
    ∷ record { now = 1000000000; read = got 1 (5 ∷ 0 ∷ 0 ∷ []); report_time = 1000000001 }
    ∷ []

run_capture-Ended_example :
    Ended fixed setup opened (blocks_read setup rounds) (run_capture fixed setup rounds opened)
run_capture-Ended_example = run_capture-Ended fixed setup rounds opened

abbrev options : Options
options = record {
  device = bytes "hw:0";
  rate = 16000;
  channels = 1;
  period_frames = 2;
  buffer_frames = 8;
  run_ms = 0;
  report_ms = 1000;
  wav_path = bytes "out.wav";
}

abbrev is_prepare : Call → Bool
is_prepare open_pcm = false
is_prepare malloc_params = false
is_prepare any = false
is_prepare set_access = false
is_prepare set_format = false
is_prepare set_rate = false
is_prepare set_channels = false
is_prepare set_period_size_near = false
is_prepare set_buffer_size_near = false
is_prepare hw_params = false
is_prepare get_rate = false
is_prepare get_channels = false
is_prepare get_period_size = false
is_prepare get_buffer_size = false
is_prepare prepare = true
is_prepare drop = false

-- The device is prepared in vain.
abbrev unprepared : Driver
unprepared = record {
  fails = is_prepare;
  granted = record { rate = 16000; channels = 1; period_frames = 2; buffer_frames = 8 };
}

abbrev working : Driver
working = record unprepared { fails = λ c. false }

run_ends : main fixed (run fixed options working setup.fate rounds) ≡ 0
unfolding run main write
run_ends = refl

run-Releases_example : Releases unprepared (run fixed options unprepared setup.fate rounds).0
run-Releases_example = run-Releases fixed options unprepared setup.fate rounds
