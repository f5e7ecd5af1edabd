-- ===== src/Server.antt =====
-- board/ws_server.cpp: the capture thread of `ServerRuntime` (`capture_loop`, `reopen_capture`) with the
-- state that it works on. What ALSA does comes in as a list of `Reading`s; where the list ends, a stop
-- flag is set. `open_capture` is in Alsa.antt, `update_level_stats` in Levels.antt.
pub mod Capture
pub mod Reconnect
pub mod Status
pub mod Clients
pub mod Delivery
pub mod Recognition
pub mod Messages
pub mod Lifetime
mod Tests
use voice_edge_monitor.Base.{
  ℕ, zero, suc, ◌+◌, ◌*◌, ◌%◌, ◌^◌, min, Bool, true, false, Option, none, some, List, [], ◌∷◌, ◌++◌,
  map, ltb, if◌then◌else◌, length, take, drop, Result, Error, ok, err,
}
use voice_edge_monitor.Base.Int.{ℤ, negsuc}
use voice_edge_monitor.Audio.{AudioFrame, Floats}
use voice_edge_monitor.Queue.{close}
use voice_edge_monitor.Vad.{
  VadState, idle, VadEvent, VadEventType, started, ended, VadDecision, process,
}
use voice_edge_monitor.Segment.{Segmenter, Notice, incr, handle_vad_segment}
use voice_edge_monitor.Protocol.{encode_audio_packet}
use voice_edge_monitor.Levels.{Meter, update_level_stats}
use voice_edge_monitor.Alsa.{AlsaCapture}

-- One round of the loop: frames, with the buffer that holds their samples and the clock; no frames; or
-- an error, whether it is `-EPIPE`, and how the program gets over it.
pub data Recovery : Type 0 where
  stop_seen recovered : Recovery
  reopening : List (Result AlsaCapture) → Recovery

pub data Reading : Type 0 where
  frames : ℕ → List ℕ → ℕ → Reading
  no_frames : Reading
  failed : Bool → Recovery → Reading

module _ (f : Floats) where
  -- What is sent to all clients; `make_vad_event_json` and `make_text` put the events into words.
  pub data Broadcast : Type 0 where
    vad_event : VadEvent → f.Double → Broadcast
    asr_notice : Notice → Broadcast
    capture_reconnecting capture_reconnected : Broadcast
    packet : List ℕ → Broadcast

  -- `pcm` is whether `pcm_for_stop_` is set. `broadcasts`, `waits` (the values of `backoff_ms` that have
  -- been waited for) and `captured` are logs that the program does not keep.
  pub record Server : Type 0 where
    pub audio : AlsaCapture
    pub pcm : Bool
    pub segmenter : Segmenter f
    pub sequence : ℕ
    pub captured_frames : ℕ
    pub xruns : ℕ
    pub recoveries : ℕ
    pub read_errors : ℕ
    pub last_rms_dbfs_x10 : ℤ
    pub last_peak_dbfs_x10 : ℤ
    pub vad_started : ℕ
    pub vad_ended : ℕ
    pub vad_state : VadState
    pub capture_reconnects : ℕ
    pub capture_reconnect_failures : ℕ
    pub audio_state : ℕ
    pub broadcasts : List Broadcast
    pub waits : List ℕ
    pub captured : List AudioFrame

  -- The members' initial values; the device comes from `open_capture`.
  unfoldable pub initial : AlsaCapture → Segmenter f → Server
  initial audio segmenter = record {
    audio = audio;
    pcm = false;
    segmenter = segmenter;
    sequence = 0;
    captured_frames = 0;
    xruns = 0;
    recoveries = 0;
    read_errors = 0;
    last_rms_dbfs_x10 = negsuc 1199;
    last_peak_dbfs_x10 = negsuc 1199;
    vad_started = 0;
    vad_ended = 0;
    vad_state = idle;
    capture_reconnects = 0;
    capture_reconnect_failures = 0;
    audio_state = 0;
    broadcasts = [];
    waits = [];
    captured = [];
  }

  unfoldable pub say : Broadcast → Server → Server
  say b s = record s { broadcasts = s.broadcasts ++ b ∷ [] }

  -- The loop of `reopen_capture`, each attempt behind its wait.
  unfoldable pub reopen_from : ℕ → List (Result AlsaCapture) → Server → Server × Bool
  unfolding say
  reopen_from backoff_ms [] s = (s, false)
  reopen_from backoff_ms (ok audio ∷ attempts) s = (
    say capture_reconnected (record s {
      waits = s.waits ++ backoff_ms ∷ [];
      audio = audio;
      pcm = true;
      capture_reconnects = incr s.capture_reconnects;
      audio_state = 0;
    }),
    true,
  )
  reopen_from backoff_ms (err e ∷ attempts) s =
      reopen_from (min (backoff_ms * 2 % 2 ^ 64) 5000) attempts (record s {
        waits = s.waits ++ backoff_ms ∷ [];
        capture_reconnect_failures = incr s.capture_reconnect_failures;
      })

  unfoldable pub reopen_capture : List (Result AlsaCapture) → Server → Server × Bool
  unfolding reopen_from
  reopen_capture attempts s =
      reopen_from 100 attempts
        (say capture_reconnecting (record s { audio_state = 1; pcm = false }))

  -- How a round ends: the loop goes on, is left, or an exception leaves the thread, which ends the
  -- program.
  pub data Round : Type 0 where
    continues breaks : Server → Round
    terminates : Error → Round

  unfoldable pub count_type : VadEventType → Server → Server
  count_type started s = record s { vad_started = incr s.vad_started }
  count_type ended s = record s { vad_ended = incr s.vad_ended }

  unfoldable pub count_event : Option VadEvent → f.Double → Server → Server
  unfolding say count_type
  count_event none rms s = s
  count_event (some event) rms s = say (vad_event event rms) (count_type event.type s)

  -- `handle_vad_segment`, with the notices that it broadcasts.
  unfoldable pub cut_segments : AudioFrame → VadDecision f → Server → Server
  unfolding handle_vad_segment
  cut_segments frame decision s =
      let g = handle_vad_segment f s.segmenter frame decision in
      record s {
        segmenter = g;
        broadcasts = s.broadcasts ++ map asr_notice (drop (length s.segmenter.notices) g.notices);
      }

  unfoldable pub send_packet : Result (List ℕ) → Server → Round
  unfolding say
  send_packet (err e) s = terminates e
  send_packet (ok bytes) s = continues (say (packet bytes) s)

  unfoldable pub make_frame : Server → ℕ → List ℕ → ℕ → AudioFrame
  make_frame s count buffer now = record {
    sequence = s.sequence;
    timestamp_ms = now % 2 ^ 64;
    sample_rate = s.audio.rate;
    channels = s.audio.channels;
    samples = take (count * s.audio.channels) buffer;
  }

  -- What the loop does with a frame before it sends the packet.
  unfoldable pub analyse : Meter f → AudioFrame → ℕ → Server → Server
  unfolding update_level_stats count_event cut_segments
  analyse m frame count s =
      let (rms_level, peak_level) = update_level_stats f m frame in
      let (vad, decision) = process f s.segmenter.vad frame in
      cut_segments frame decision (
        count_event decision.event decision.rms (record s {
          sequence = incr s.sequence;
          captured_frames = (s.captured_frames + count) % 2 ^ 64;
          last_rms_dbfs_x10 = rms_level;
          last_peak_dbfs_x10 = peak_level;
          vad_state = decision.state;
          segmenter = record s.segmenter { vad = vad };
          captured = s.captured ++ frame ∷ [];
        }))

  unfoldable pub after_reopening : Server × Bool → Round
  after_reopening (s, true) = continues s
  after_reopening (s, false) = breaks s

  unfoldable pub recover : Recovery → Bool → Server → Round
  unfolding reopen_capture after_reopening
  recover stop_seen overrun s = breaks s
  recover recovered overrun s = continues (record s {
    xruns = if overrun then incr s.xruns else s.xruns;
    recoveries = incr s.recoveries;
  })
  recover (reopening attempts) overrun s = after_reopening (
      reopen_capture attempts (record s {
        xruns = if overrun then incr s.xruns else s.xruns;
        read_errors = incr s.read_errors;
      }))

  unfoldable pub capture_round : Meter f → Reading → Server → Round
  unfolding recover analyse send_packet make_frame
  capture_round m no_frames s = continues s
  capture_round m (failed overrun recovery) s = recover recovery overrun s
  capture_round m (frames count buffer now) s =
      let frame = make_frame s count buffer now in
      send_packet (encode_audio_packet frame) (analyse m frame count s)

  -- Behind the loop.
  unfoldable pub leave_capture : Server → Server
  leave_capture s = record s {
    pcm = false;
    segmenter = record s.segmenter { asr_queue = close s.segmenter.asr_queue };
  }

  unfoldable pub capture_from : Meter f → List Reading → Server → Result Server
  unfolding capture_round leave_capture
  capture_from m [] s = ok (leave_capture s)
  capture_from m (r ∷ readings) s = elim (capture_round m r s) [
    | continues s' ↦ capture_from m readings s'
    | breaks s' ↦ ok (leave_capture s')
    | terminates e ↦ err e
  ]

  unfoldable pub capture_loop : Meter f → List Reading → Server → Result Server
  unfolding capture_from
  capture_loop m readings s = capture_from m readings (record s { pcm = true })
