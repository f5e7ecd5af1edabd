-- ===== src/Server/Lifetime/Start.antt =====
-- `ServerRuntime` (board/ws_server.cpp): its constructor and `start()`. What the recogniser, the file
-- system and the network answer is an argument.
use voice_edge_monitor.Base.{
  ℕ, Bool, true, false, ◌&&◌, ◌||◌, not, none, some, List, [], ◌∷◌, if◌then◌else◌, Result, ok, err,
  Error,
}
use voice_edge_monitor.Audio.{SpeechSegment, Floats}
use voice_edge_monitor.Cli.{Text, is_empty}
use voice_edge_monitor.Cli.Server.{Options}
use voice_edge_monitor.Asr.{open_recogniser}
use voice_edge_monitor.Queue.{Queue, make}
use voice_edge_monitor.Wav.{Disk}
use voice_edge_monitor.Recorder.{Config, Recording, Store, polling}
use voice_edge_monitor.Recorder
use voice_edge_monitor.Server.Lifetime.{Runtime, serving, left, testing, ended, popping}

-- The calls that may fail: reading the address, and those of the acceptor.
pub data Call : Type 0 where
  make_address open_acceptor set_option bind listen non_blocking : Call

-- Whether sherpa-onnx creates a recogniser; whether the recorder's directories can be made and its
-- transcript opens; what that holds, and the files; and which calls fail.
pub record Surroundings : Type 0 where
  pub created : Bool
  pub makes_root : Bool
  pub opens : Bool
  pub transcript : Text
  pub disk : Disk
  pub fails : Call → Bool

unfoldable pub construct : ℕ → ℕ → Queue SpeechSegment → Runtime
construct max_clients client_queue_capacity asr_queue = record {
  stop = serving;
  stopping = false;
  signal = false;
  accept = left;
  capture = left;
  asr = ended;
  asr_queue = asr_queue;
  clients = record {
    max_clients = max_clients;
    client_queue_capacity = client_queue_capacity;
    clients = [];
  };
  copied = 0;
  recording_store = none;
}

-- The constructor of `RecordingStore`.
unfoldable pub make_store : Config → Text → Disk → Queue Recording → Store
make_store config transcript disk queue = record {
  config = config;
  queue = queue;
  transcript = transcript;
  transcript_good = true;
  worker = false;
  phase = polling;
  dropped_records = 0;
  failed_records = 0;
  disk = disk;
}

abbrev pub any_fails : (Call → Bool) → List Call → Bool
any_fails fails [] = false
any_fails fails (c ∷ cs) = fails c || any_fails fails cs

abbrev pub all_calls : List Call
all_calls = make_address ∷ open_acceptor ∷ set_option ∷ bind ∷ listen ∷ non_blocking ∷ []

-- The calls of the network, and the threads; the flag says whether a recogniser is open.
unfoldable pub start_threads : Surroundings → Bool → Runtime → Runtime × Result (Unit {0})
start_threads e asr s = if any_fails e.fails all_calls then (s, err Error.runtime_error) else (
  record s { accept = testing; capture = testing; asr = if asr then popping else ended },
  ok tt,
)

unfoldable pub after_store :
    Surroundings → Bool → Runtime → Store × Result (Unit {0}) → Runtime × Result (Unit {0})
unfolding start_threads
after_store e asr s (store, err x) = (record s { recording_store = some store }, err x)
after_store e asr s (store, ok u) = start_threads e asr (record s { recording_store = some store })

unfoldable pub start_made :
    Surroundings → Bool → Runtime → Config → Result (Queue Recording) → Runtime × Result (Unit {0})
unfolding after_store make_store Recorder.start
start_made e asr s config (err x) = (s, err x)
start_made e asr s config (ok queue) =
    after_store e asr s
      (Recorder.start e.makes_root e.opens (make_store config e.transcript e.disk queue))

module _ {F : Floats} where
  unfoldable pub start_store :
      Options F → Surroundings → Bool → Runtime → Runtime × Result (Unit {0})
  unfolding start_threads start_made make is_empty
  start_store options e asr s =
      if not (options.persist_audio || options.persist_transcript)
      then start_threads e asr s
      else if is_empty options.persist_dir
      then (s, err Error.invalid_argument)
      else start_made e asr s
          (record {
            root = options.persist_dir;
            save_audio = options.persist_audio;
            save_transcript = options.persist_transcript;
            queue_capacity = options.persist_queue_capacity;
          })
          (make options.persist_queue_capacity)

  unfoldable pub after_asr :
      Options F → Surroundings → Runtime → Result Bool → Runtime × Result (Unit {0})
  unfolding start_store
  after_asr options e s (err x) = (s, err x)
  after_asr options e s (ok asr) = start_store options e asr s

  unfoldable pub start : Options F → Surroundings → Runtime → Runtime × Result (Unit {0})
  unfolding after_asr open_recogniser is_empty
  start options e s =
      if is_empty options.asr_model && is_empty options.asr_tokens
      then after_asr options e s (ok false)
      else after_asr options e s (open_recogniser options.asr_model options.asr_tokens e.created)
