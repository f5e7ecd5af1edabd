-- ===== src/Alsa/Tests.antt =====
-- Drivers that grant what is asked for, or fail half way.
use voice_edge_monitor.Base.{◌≡◌, refl, Bool, true, false, ok}
use voice_edge_monitor.Alsa.{Call, get_rate, Driver, AlsaCapture, server_open_capture}
use voice_edge_monitor.Alsa.Release.{Opened, server_open_capture-Opened}

abbrev usual : AlsaCapture
usual = record { rate = 16000; channels = 1; period_frames = 2000; buffer_frames = 8000 }

abbrev is_get_rate : Call → Bool
is_get_rate get_rate = true
is_get_rate _ = false

abbrev willing : Driver
willing = record { fails = λ c. false; granted = usual }

abbrev broken : Driver
broken = record { fails = is_get_rate; granted = usual }

opens : (server_open_capture 16000 1 willing).1 ≡ ok usual
unfolding server_open_capture
opens = refl

server_open_capture-Opened_example : Opened 16000 1 broken (server_open_capture 16000 1 broken)
server_open_capture-Opened_example = server_open_capture-Opened 16000 1 broken
