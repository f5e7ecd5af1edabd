-- ===== src/Lib.antt =====
-- VoiceEdgeMonitor: capture of audio on an edge board, detection of speech, offline recognition,
-- recording, and broadcast to web clients.
--
-- The program, and the files that model its parts:
--
-- * `BoundedQueue` (board/bounded_queue.hpp), by which the threads hand frames, segments and
--   records to one another: Queue.antt, one function per method, and Queue/.
-- * `AudioFrame` and `SpeechSegment` (board/audio_frame.hpp), which travel through the queues:
--   Audio.antt, with the floating-point operations that the program uses as a record of functions.
-- * `EnergyVAD` (board/energy_vad.hpp), which turns frames into the events of the speech in them:
--   Vad.antt; `process` is split into its four cases as in the source's switch.
-- * the audio packet and the JSON escaping of the messages (board/voiceedge_protocol.hpp):
--   Protocol.antt. Json.antt and Json/Object.antt are an independent reader of JSON strings and flat
--   objects; Json/Printing.antt is what it reads back, Json/Decimal.antt how integers print.
-- * `ServerRuntime::handle_vad_segment` (board/ws_server.cpp), which cuts the frames into segments
--   by the detector's decisions and queues them for the recogniser: Segment.antt.
-- * the WAV writer of `RecordingStore` (board/recording_store.hpp): Wav.antt; the WAV reader of
--   board/asr_probe.cpp and the mixing loop of `OfflineASR::transcribe` (board/offline_asr.hpp):
--   Wav/Read.antt.
-- * `WavWriter` of board/capture_probe.cpp, which puts the sizes into the header at the end:
--   Wav/Writer.antt.
-- * the rest of `RecordingStore` (board/recording_store.hpp): Recorder.antt; one step of
--   `worker_loop` is a `pop_for` with what follows it, or the call of `closed()`.
-- * the command lines: Cli.antt has the loop and the helpers that the five programs share, over a
--   table of settings, which is the if-chain of a `parse_options`; the tables are in Cli/Server.antt
--   (board/ws_server.cpp), Cli/Pipeline.antt (board/pipeline_probe.cpp), Cli/Capture.antt
--   (board/capture_probe.cpp), Cli/AsrProbe.antt (board/asr_probe.cpp) and Cli/WsCli.antt
--   (tools/ws_cli.cpp).
-- * `ClientSession` (board/ws_server.cpp), one web client with its queue and its threads:
--   Session.antt, one function per next step of a thread; Session/Steps.antt interleaves them.
-- * the signal levels, `update_level_stats` (board/ws_server.cpp), whose loop is also that of
--   `processing_worker` (board/pipeline_probe.cpp), and `IntervalStats` (board/capture_probe.cpp):
--   Levels.antt.
-- * `open_capture` (board/ws_server.cpp, board/pipeline_probe.cpp), and the like setup in
--   board/capture_probe.cpp: Alsa.antt.
-- * `ServerRuntime` (board/ws_server.cpp): Server.antt has `capture_loop` and `reopen_capture`, which
--   use the detector, the segmenter, the levels and the packets; Server/Reconnect.antt the wait
--   between two attempts to reopen; Server/Status.antt `run`; Server/Clients.antt the list of sessions;
--   Server/Delivery.antt joins the capture thread to the client; Server/Messages.antt has the texts that
--   are broadcast; Server/Lifetime.antt `stop` against the loops of the threads, one function per next step,
--   and Server/Lifetime/Start.antt `start`, whose threads Server/Lifetime/Steps.antt interleaves.
-- * the threads of board/pipeline_probe.cpp: Pipeline.antt, one function per next step of
--   `capture_worker`, `processing_worker`, `monitor_worker` and `request_stop`, which
--   Pipeline/Steps.antt interleaves; Pipeline/Cut.antt has its `handle_vad_segment`,
--   Pipeline/Recognition.antt its `asr_worker`, Pipeline/Run.antt its `run_pipeline`.
-- * the loop of the client (tools/ws_cli.cpp): Client.antt; the loop of `run_capture`
--   (board/capture_probe.cpp) with its reports and its WAV file: Probe.antt; the whole of it, with the
--   device, and `main`: Probe/Run.antt.
-- * `OfflineASR` (board/offline_asr.hpp): Asr.antt; `asr_loop` (board/ws_server.cpp), which calls it for
--   the queued segments and hands the texts to the clients and the recorder: Server/Recognition.antt.
-- * `OfflineRecognizer` and `main` of board/asr_probe.cpp, which recognise a WAV file: AsrProbe.antt.
-- * Base.antt and Base/: the shared names, lists, Boolean tests, exceptions, integers.
--
-- Conventions. Numbers are natural numbers; `uint64_t` counters and times wrap at 2^64 where the
-- source computes with them. A method returns the new object with its result. An exception is a
-- value. A read out of bounds is a value of its own, and so is a loop cut short by its fuel. The
-- loop over the chunks of a WAV file has as much fuel as the file has bytes; each round goes eight
-- bytes on, so it never runs out. The mixing loop has one round more than there are samples. The loop
-- that waits for a reconnection naps 50 ms a round, and has fuel for a round for each millisecond. The
-- reader of JSON objects has as much fuel as the text has bytes, and reads more than one for a member;
-- an integer is printed with fuel for one digit more than its value. What a device, the network or
-- the clock does comes in as a list of inputs, or as the choice of a step; so do the failures of the
-- file system, those of the transcript's stream included.
--
-- Not modelled: ALSA, Boost.Asio and Beast, sherpa-onnx, log output and what the probes print, connecting;
-- the fields of the recogniser's configuration; the delays that the pipeline probe can be given; `main` of
-- the server, the pipeline probe and the client; the web client, which is another language; what
-- `stop` does to make waiting calls return (the acceptor's `cancel` and `close`, `snd_pcm_drop`): a
-- thread's round is taken to come to its end; the size of the buffers that ALSA reads into, of which a
-- reading is taken to fill no more than there is. The division in the length of a recording is one of
-- `double`s, and is a parameter; its divisor is not.
-- Parameters: ALSA, the number parsers of the standard library, how streams print floating-point numbers
-- and, for the recorder, integers, the clock and the file system.
pub mod Base
pub mod Cli
pub mod Queue
pub mod Audio
pub mod Vad
pub mod Protocol
pub mod Json
pub mod Segment
pub mod Wav
pub mod Recorder
pub mod Session
pub mod Levels
pub mod Alsa
pub mod Server
pub mod Pipeline
pub mod Client
pub mod Probe
pub mod Asr
pub mod AsrProbe
