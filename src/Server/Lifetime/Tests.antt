-- ===== src/Server/Lifetime/Tests.antt =====
-- A run of the server's threads from `start()` to the end of `stop()` (board/ws_server.cpp).
use voice_edge_monitor.Base.{
  ◌||◌, not, length, take, ℕ, zero, suc, ◌≡◌, refl, ap, subst, Bool, true, false, Option, none,
  some, List, [], ◌∷◌, arith,
}
use voice_edge_monitor.Base.Int.{pos}
use voice_edge_monitor.Base.Maybe.{◌>>=◌}
use voice_edge_monitor.Audio.{SpeechSegment}
use voice_edge_monitor.Audio.FixedPoint.{fixed}
use voice_edge_monitor.Cli.{bytes}
use voice_edge_monitor.Cli.Server.{Options}
use voice_edge_monitor.Queue.{Queue}
use voice_edge_monitor.Recorder.{Environment, Recording, Store, worker_step}
use voice_edge_monitor.Session.{Session, run_step, active, make}
use voice_edge_monitor.Session
use voice_edge_monitor.Session.Steps.{Step, runs}
use voice_edge_monitor.Session.Steps
use voice_edge_monitor.Server.Clients.{ClientStep, first_steps, later_steps}
use voice_edge_monitor.Server.Lifetime.{
  joining_asr, has_left, has_ended, Runtime, left, ended, terminated, stop_step, accept_step,
  capture_step, asr_step,
}
use voice_edge_monitor.Server.Lifetime.Start.{Surroundings, start, construct}
use voice_edge_monitor.Server.Lifetime.Steps.{
  RuntimeStep, stops, accepts, captures, recognises, persists, client_steps, Lives, begun, next,
}
use voice_edge_monitor.Server.Lifetime.Joined.{AreJoined}
use voice_edge_monitor.Server.Lifetime.Order.{is_off, past_capture}
use voice_edge_monitor.Server.Lifetime.Progress.{
  is_serving, loop_distance, asr_distance, accept_nears, capture_nears, asr_nears, joins_end,
}
use voice_edge_monitor.Server.Lifetime.Shutdown.{started, shutdown_joins, never_terminated}

abbrev here : Environment
here = record {
  wav_path = λ n. bytes "segment.wav";
  relative = λ path. path;
  makes_directory = λ n. true;
  fate =
      λ n. record { opens = true; completes = true; partial = []; removes = true; renames = true };
  decimal = λ n. bytes "7";
  print_audio_ms = λ n d. bytes "1.0";
  cut_off = λ held line. none;
}

abbrev utterance : SpeechSegment
utterance = record {
  id = 0;
  start_timestamp_ms = 7;
  end_timestamp_ms = 7;
  sample_rate = 16000;
  channels = 1;
  samples = 1 ∷ 2 ∷ [];
}

abbrev hello : Recording
hello = record {
  segment = some utterance;
  text = bytes "hello";
  status = bytes "final";
  processing_ms = 7;
  rtf = bytes "0.1000";
  error = [];
}

-- Which thread takes the next step.
data Move : Type 0 where
  main_thread : Move
  accept_thread : Bool → Move
  capture_thread : Option SpeechSegment → Move
  asr_thread : Move
  recorder_thread : Move
  session_runs session_stops : ℕ → Move

abbrev with_head : List Session → Option Session → Option (List Session)
with_head cs none = none
with_head cs (some c) = some (c ∷ cs)

abbrev with_tail : Session → Option (List Session) → Option (List Session)
with_tail c none = none
with_tail c (some cs) = some (c ∷ cs)

abbrev step_at : (Session → Option Session) → ℕ → List Session → Option (List Session)
step_at f i [] = none
step_at f zero (c ∷ cs) = with_head cs (f c)
step_at f (suc i) (c ∷ cs) = with_tail c (step_at f i cs)

abbrev with_sessions : Runtime → Option (List Session) → Option Runtime
with_sessions s none = none
with_sessions s (some cs) = some (record s { clients = record (s.clients) { clients = cs } })

abbrev with_store : Runtime → Option Store → Option Runtime
with_store s none = none
with_store s (some store) = some (record s { recording_store = some store })

abbrev stored : Option Store → Option Store
unfolding worker_step
stored none = none
stored (some store) = worker_step here true store

abbrev move : Move → Runtime → Option Runtime
unfolding stop_step accept_step capture_step asr_step run_step Session.stop_step
move main_thread s = stop_step s
move (accept_thread connects) s = accept_step connects s
move (capture_thread cut) s = capture_step cut s
move asr_thread s = asr_step true hello s
move recorder_thread s = with_store s (stored s.recording_store)
move (session_runs i) s = with_sessions s (step_at (run_step true) i s.clients.clients)
move (session_stops i) s = with_sessions s (step_at Session.stop_step i s.clients.clients)

abbrev get_or : Runtime → Option Runtime → Runtime
get_or s none = s
get_or s (some t) = t

abbrev moves : List Move → Runtime → Option Runtime
moves [] s = some s
moves (m ∷ ms) s = move m s >>= λ t. moves ms t

step_at-ClientStep :
    (f : Session → Option Session)
    → ((c d : Session) → f c ≡ some d → Step c d)
    → (i : ℕ) (cs ds : List Session) → step_at f i cs ≡ some ds
    → ClientStep cs ds
step_at-ClientStep f h i [] ds e = absurd (ground arith)
step_at-ClientStep f h zero (c ∷ cs) ds e = go (f c) refl e
  where
    go : (o : Option Session) → f c ≡ o → with_head cs o ≡ some ds → ClientStep (c ∷ cs) ds
    go none q e' = absurd (ground arith)
    go (some d) q e' = subst (ClientStep (c ∷ cs)) (ground arith) (first_steps c d cs (h c d q))
step_at-ClientStep f h (suc i) (c ∷ cs) ds e =
    go (step_at f i cs) refl e (λ ds' q. step_at-ClientStep f h i cs ds' q)
  where
    go :
        (o : Option (List Session))
        → step_at f i cs ≡ o
        → with_tail c o ≡ some ds
        → ((ds' : List Session) → step_at f i cs ≡ some ds' → ClientStep cs ds')
        → ClientStep (c ∷ cs) ds
    go none q e' ih = absurd (ground arith)
    go (some ds') q e' ih =
        subst (ClientStep (c ∷ cs)) (ground arith) (later_steps c cs ds' (ih ds' q))

with_sessions-RuntimeStep :
    (s t : Runtime) (o : Option (List Session))
    → ((cs : List Session) → o ≡ some cs → ClientStep s.clients.clients cs)
    → with_sessions s o ≡ some t
    → RuntimeStep s t
with_sessions-RuntimeStep s t none h e = absurd (ground arith)
with_sessions-RuntimeStep s t (some cs) h e =
    subst (RuntimeStep s) (ap (get_or s) e) (client_steps cs (h cs refl))

stored-RuntimeStep :
    (s t : Runtime) (found o : Option Store)
    → s.recording_store ≡ found
    → stored found ≡ o
    → with_store s o ≡ some t
    → RuntimeStep s t
unfolding stored
stored-RuntimeStep s t none none q h e = absurd (ground arith)
stored-RuntimeStep s t none (some kept) q h e = absurd (ground arith)
stored-RuntimeStep s t (some store) none q h e = absurd (ground arith)
stored-RuntimeStep s t (some store) (some kept) q h e =
    subst (RuntimeStep s) (ap (get_or s) e) (persists here true store kept q h)

move-RuntimeStep : (m : Move) (s t : Runtime) → move m s ≡ some t → RuntimeStep s t
unfolding move stop_step
move-RuntimeStep main_thread s t e = stops t e
move-RuntimeStep (accept_thread connects) s t e = accepts connects t e
move-RuntimeStep (capture_thread cut) s t e = captures cut t e
move-RuntimeStep asr_thread s t e = recognises true hello t e
move-RuntimeStep recorder_thread s t e =
    stored-RuntimeStep s t s.recording_store (stored s.recording_store) refl refl e
move-RuntimeStep (session_runs i) s t e =
    with_sessions-RuntimeStep s t (step_at (run_step true) i s.clients.clients)
      (step_at-ClientStep (run_step true) (λ c d. runs true d) i s.clients.clients) e
move-RuntimeStep (session_stops i) s t e =
    with_sessions-RuntimeStep s t (step_at Session.stop_step i s.clients.clients)
      (step_at-ClientStep Session.stop_step (λ c d. Steps.stops d) i s.clients.clients) e

moves-Lives : (ms : List Move) (s t u : Runtime) → Lives s t → moves ms t ≡ some u → Lives s u
moves-Lives [] s t u r e = subst (Lives s) (ap (get_or s) e) r
moves-Lives (m ∷ ms) s t u r e = go (move m t) refl e (λ t' u' r' e'. moves-Lives ms s t' u' r' e')
  where
    go :
        (o : Option Runtime)
        → move m t ≡ o
        → (o >>= λ t'. moves ms t') ≡ some u
        → ((t' u' : Runtime) → Lives s t' → moves ms t' ≡ some u' → Lives s u')
        → Lives s u
    go none q e' ih = absurd (ground arith)
    go (some t') q e' ih = ih t' u (next r (move-RuntimeStep m t t' q)) e'

abbrev options : Options fixed
options = record {
  bind_address = bytes "0.0.0.0";
  port = 8765;
  path = bytes "/voiceedge";
  device = bytes "hw:0";
  rate = 16000;
  channels = 1;
  period_frames = 2000;
  buffer_frames = 8000;
  vad_config = record { start_rms = 491; end_rms = 393; min_speech_ms = 125; silence_ms = 1000 };
  run_ms = 0;
  state_ms = 1000;
  client_queue_capacity = 128;
  max_clients = 4;
  asr_queue_capacity = 4;
  max_segment_ms = 30000;
  asr_model = bytes "m";
  asr_tokens = bytes "t";
  asr_language = bytes "zh";
  asr_provider = bytes "cpu";
  asr_threads = pos 2;
  persist_dir = bytes "/data";
  persist_audio = false;
  persist_transcript = true;
  persist_queue_capacity = 32;
}

abbrev surroundings : Surroundings
surroundings = record {
  created = true;
  makes_root = true;
  opens = true;
  transcript = [];
  disk = λ path. none;
  fails = λ c. false;
}

abbrev asr_queue : Queue SpeechSegment
asr_queue = record { capacity = 4; queue = []; dropped_items = 0; closed = false }

-- A client comes, a segment is recognised and recorded, and `stop()` waits for all; a second client is
-- accepted when `stop()` has copied the list of clients already.
abbrev schedule : List Move
schedule =
    accept_thread true
    ∷ accept_thread true
    ∷ capture_thread none
    ∷ capture_thread (some utterance)
    ∷ asr_thread
    ∷ accept_thread true
    ∷ main_thread
    ∷ main_thread
    ∷ accept_thread true
    ∷ main_thread
    ∷ main_thread
    ∷ accept_thread false
    ∷ main_thread
    ∷ capture_thread none
    ∷ main_thread
    ∷ asr_thread
    ∷ asr_thread
    ∷ asr_thread
    ∷ main_thread
    ∷ main_thread
    ∷ recorder_thread
    ∷ recorder_thread
    ∷ recorder_thread
    ∷ main_thread
    ∷ session_runs 0
    ∷ session_runs 0
    ∷ session_runs 0
    ∷ main_thread
    ∷ main_thread
    ∷ []

abbrev begin : Runtime
begin = started options surroundings asr_queue

abbrev finish : Runtime
finish = get_or begin (moves schedule begin)

reaches : Lives begin finish
unfolding move start construct stored make
reaches = moves-Lives schedule begin begin finish begun refl

shutdown_joins_example :
    (finish.accept ≡ left)
    × (finish.capture ≡ left)
    × (finish.asr ≡ ended)
    × (is_off finish.recording_store ≡ true)
    × AreJoined finish.copied finish.clients.clients
unfolding move start construct stored make
shutdown_joins_example = shutdown_joins options surroundings asr_queue finish reaches refl

never_terminated_example : ¬ (finish.asr ≡ terminated)
never_terminated_example = never_terminated options surroundings asr_queue finish reaches

abbrev activity : List Session → List Bool
activity [] = []
activity (c ∷ cs) = active c ∷ activity cs

-- The second client is still served when `stop()` has returned.
late_client_lives : activity finish.clients.clients ≡ false ∷ true ∷ []
unfolding active move start construct stored make
late_client_lives = refl

-- The capture thread has been joined, and the recogniser's thread has a record to hand over.
abbrev halfway : Runtime
halfway = get_or begin (moves (take 15 schedule) begin)

reaches_halfway : Lives begin halfway
unfolding move start construct stored make
reaches_halfway = moves-Lives (take 15 schedule) begin begin halfway begun refl

waits_for_asr : halfway.stop ≡ joining_asr
unfolding move start construct stored make
waits_for_asr = refl

joins_end_example :
    ((is_serving halfway.stop
        || (has_left halfway.accept
            || accept_nears (loop_distance halfway.accept) (accept_step false halfway)))
      ≡ true)
    × ((is_serving halfway.stop
          || (has_left halfway.capture
              || capture_nears (loop_distance halfway.capture) (capture_step none halfway)))
        ≡ true)
    × ((not (past_capture halfway.stop)
          || (has_ended halfway.asr
              || asr_nears
                  (asr_distance halfway.asr (length halfway.asr_queue.queue))
                  (asr_step false hello halfway)))
        ≡ true)
joins_end_example =
    joins_end options surroundings asr_queue halfway reaches_halfway false none false hello
