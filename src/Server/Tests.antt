-- ===== src/Server/Tests.antt =====
-- A run of the capture thread (board/ws_server.cpp), and its theorems at concrete readings.
use voice_edge_monitor.Base.{
  map, All, length, ◌%◌, ◌^◌, ℕ, ◌≡◌, refl, true, false, List, [], ◌∷◌, ◌++◌, Bool, Result, ◌≤◌, ok,
  err, Error, some, arith,
}
use voice_edge_monitor.Audio.{SpeechSegment}
use voice_edge_monitor.Audio.FixedPoint.{fixed}
use voice_edge_monitor.Base.Int.{pos}
use voice_edge_monitor.Queue.{Queue}
use voice_edge_monitor.Vad.{EnergyVad, idle}
use voice_edge_monitor.Levels.{Meter}
use voice_edge_monitor.Alsa.{AlsaCapture}
use voice_edge_monitor.Segment.{Segmenter, hear, incr}
use voice_edge_monitor.Segment
use voice_edge_monitor.Server.{
  Reading, frames, no_frames, failed, recovered, reopening, initial, capture_loop, leave_capture,
  Server, reopen_capture, capture_round,
}
use voice_edge_monitor.Server.Reconnect.{
  reopen_capture-schedule, nap_from, schedule, attempts_made, any_ok,
}
use voice_edge_monitor.Server.Status.{Pass, run_from, reconnection_in_vain}
use voice_edge_monitor.Server.Clients.{
  Clients, Serves, opened, next, accepts, client_steps, first_steps, accept_client,
  active_client_count, active_clients_max,
}
use voice_edge_monitor.Session.Steps.{stops}
use voice_edge_monitor.Session.{Session, make, stop_step, exchanged}
use voice_edge_monitor.Server.Capture.{capture_loop-IsFaithful}
use voice_edge_monitor.Server.Capture.Faithful.{IsUsual}
use voice_edge_monitor.Protocol.RoundTrip.{IsAudioFrame}
use voice_edge_monitor.Client.{Client, client_from, binary}
use voice_edge_monitor.Client
use voice_edge_monitor.Server.Delivery.{packets_delivered, frame_count}
use voice_edge_monitor.Server.Capture.Reads.{frames_read}
use voice_edge_monitor.Server.Capture.Packets.{Encoded, Numbered, packets_of}

abbrev vad : EnergyVad fixed
vad = record {
  config = record { start_rms = 491; end_rms = 393; min_speech_ms = 125; silence_ms = 1000 };
  state = idle;
  candidate_start_ms = 0;
  speech_start_ms = 0;
  silence_start_ms = 0;
}

abbrev asr_queue : Queue SpeechSegment
asr_queue = record { capacity = 4; queue = []; dropped_items = 0; closed = false }

abbrev fresh : Segmenter fixed
fresh = Segment.initial fixed true 30000 vad asr_queue

abbrev meter : Meter fixed
meter = record { floor_dbfs = 0; decibels = λ x. x; tenths = λ x. pos x }

abbrev device : AlsaCapture
device = record { rate = 16000; channels = 1; period_frames = 4; buffer_frames = 16 }

-- A period, an overrun, a lost device that is found at the second attempt, and another period.
abbrev readings : List Reading
readings =
    frames 2 (3000 ∷ 62536 ∷ 0 ∷ 0 ∷ []) 20
    ∷ failed true recovered
    ∷ failed false (reopening (err Error.runtime_error ∷ ok device ∷ []))
    ∷ no_frames
    ∷ frames 1 (7 ∷ 0 ∷ 0 ∷ 0 ∷ []) 400
    ∷ []

readings-IsUsual : All (IsUsual fixed 16000 1) readings
readings-IsUsual = (
  (omega arith, omega arith, (omega arith, (omega arith, (omega arith, (omega arith, tt))))),
  (
    tt,
    (
      (tt, ((refl, refl), tt)),
      (
        tt,
        (
          (
            omega arith,
            omega arith,
            (omega arith, (omega arith, (omega arith, (omega arith, tt)))),
          ),
          tt,
        ),
      ),
    ),
  ),
)

capture_loop-IsFaithful_example :
    (s : Server fixed) × (capture_loop fixed meter readings (initial fixed device fresh)
      ≡ ok (leave_capture fixed s))
    × (s.captured ≡ frames_read 16000 1 0 readings)
    × Encoded s.captured (packets_of s.broadcasts)
    × Numbered 0 s.captured
    × (s.segmenter ≡ hear fixed fresh s.captured)
    × All IsAudioFrame s.captured
capture_loop-IsFaithful_example =
    capture_loop-IsFaithful fixed fresh 16000 1 meter device readings (omega arith) (omega arith)
      (omega arith) (omega arith) refl refl readings-IsUsual

abbrev lost : List (Result AlsaCapture)
lost = err Error.runtime_error ∷ err Error.runtime_error ∷ ok device ∷ ok device ∷ []

waited : (reopen_capture fixed lost (initial fixed device fresh)).0.waits ≡ 100 ∷ 200 ∷ 400 ∷ []
unfolding reopen_capture initial
waited = refl

reopen_capture-schedule_example :
    ((reopen_capture fixed lost (initial fixed device fresh)).0.waits
      ≡ (initial fixed device fresh).waits ++ schedule 0 (attempts_made lost))
    × ((reopen_capture fixed lost (initial fixed device fresh)).1 ≡ any_ok lost)
reopen_capture-schedule_example = reopen_capture-schedule fixed lost (initial fixed device fresh)

abbrev pass_at : ℕ → ℕ → Pass
pass_at now errors = record { now = now; stopping = false; read_errors = errors }

abbrev passes : List Pass
passes = pass_at 5 0 ∷ pass_at 20000005 0 ∷ pass_at 1000000010 0 ∷ pass_at 3000000010 0 ∷ []

reported : run_from 3000 1000 5 passes ≡ (5 ∷ 1000000010 ∷ [], true)
unfolding run_from
reported = refl

abbrev reopened : Server fixed
reopened =
    (reopen_capture fixed lost (record (initial fixed device fresh) { read_errors = incr 0 })).0

reconnection_in_vain_example : run_from 0 1000 0 (pass_at 30000000 1 ∷ []) ≡ ([], true)
unfolding initial capture_round reopen_capture
reconnection_in_vain_example =
    reconnection_in_vain fixed meter false lost (initial fixed device fresh) reopened 0 1000 0
      (pass_at 30000000 1) [] (omega arith) refl refl

abbrev never : ℕ → Bool
never n = false

naps_of_100_ms : nap_from 101 never 100 0 0 ≡ some 2
unfolding nap_from
naps_of_100_ms = refl

abbrev at_start : Clients
at_start = record { max_clients = 1; client_queue_capacity = 8; clients = [] }

abbrev stopped : Session
stopped = record (make 8) { stopper = exchanged }

-- A client comes, another is turned away, the first stops, and a third comes.
abbrev served : Serves at_start (accept_client (record at_start { clients = stopped ∷ [] }))
unfolding accept_client stop_step make
served =
    next
      (next (next (next opened accepts) accepts)
        (client_steps (stopped ∷ []) (first_steps (make 8) stopped [] (stops stopped refl))))
      accepts

active_clients_max_example :
    active_client_count (accept_client (record at_start { clients = stopped ∷ [] })) ≤ 1
active_clients_max_example =
    active_clients_max 1 8 (accept_client (record at_start { clients = stopped ∷ [] })) served

packets_delivered_example :
    (s : Server fixed) × (capture_loop fixed meter readings (initial fixed device fresh)
      ≡ ok (leave_capture fixed s))
    × (d : Client) × (client_from 0 (map binary (packets_of s.broadcasts)) Client.fresh
        ≡ some (ok d))
    × (d.packets ≡ length (frames_read 16000 1 0 readings) % 2 ^ 64)
    × (d.frames ≡ frame_count readings % 2 ^ 64)
packets_delivered_example =
    packets_delivered fixed fresh 16000 1 meter device readings (omega arith) (omega arith)
      (omega arith) (omega arith) refl refl readings-IsUsual
