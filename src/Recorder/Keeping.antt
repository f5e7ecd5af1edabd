-- ===== src/Recorder/Keeping.antt =====
-- What `worker_loop` leaves as it is (board/recording_store.hpp).
use voice_edge_monitor.Base.{◌≡◌, refl, Bool, true, false, Option, none, some, [], arith}
use voice_edge_monitor.Audio.{SpeechSegment}
use voice_edge_monitor.Queue.{Queue, pop_for}
use voice_edge_monitor.Cli.{Text}
use voice_edge_monitor.Wav.{Outcome, Disk, done, thrown, out_of_bounds, out_of_fuel, write_wav}
use voice_edge_monitor.Recorder.{
  Environment, Recording, Store, put_out, worker_step, persist, persist_segment, append_transcript,
  after_wav, count_failure, handle_popped, popped,
}

-- `persist` neither starts nor stops the recorder.
abbrev pub Keeps : Store → Store → Type 0
Keeps s t = (t.config ≡ s.config) × (t.worker ≡ s.worker)

append_transcript-Keeps :
    (e : Environment) (r : Recording) (segment : SpeechSegment) (path : Text) (s : Store)
    → Keeps s (append_transcript e r segment path s).0
unfolding append_transcript put_out
append_transcript-Keeps e r segment path s = ground arith

after_wav-Keeps :
    (e : Environment) (r : Recording) (segment : SpeechSegment) (path : Text) (s : Store)
    (answer : Disk × Outcome (Unit {0}))
    → Keeps s (after_wav e r segment path s answer).0
unfolding after_wav
after_wav-Keeps e r segment path s (disk, done u) =
    append_transcript-Keeps e r segment (e.relative path) (record s { disk = disk })
after_wav-Keeps e r segment path s (disk, thrown x) = (refl, refl)
after_wav-Keeps e r segment path s (disk, out_of_bounds) = (refl, refl)
after_wav-Keeps e r segment path s (disk, out_of_fuel) = (refl, refl)

persist_segment-Keeps :
    (e : Environment) (r : Recording) (found : Option SpeechSegment) (s : Store)
    → Keeps s (persist_segment e r found s).0
unfolding persist_segment
persist_segment-Keeps e r none s = (refl, refl)
persist_segment-Keeps e r (some segment) s =
    let path = e.wav_path segment.id in
    ground (
      arith,
      append_transcript-Keeps e r segment [] s,
      after_wav-Keeps e r segment path s (write_wav s.disk (e.fate segment.id) path segment),
    )

count_failure-Keeps :
    (s : Store) (answer : Store × Bool) → Keeps s answer.0 → Keeps s (count_failure answer)
unfolding count_failure
count_failure-Keeps s (t, true) h = h
count_failure-Keeps s (t, false) h = h

handle_popped-Keeps :
    (e : Environment) (s : Store) (answer : Queue Recording × Option Recording)
    → Keeps s (handle_popped e s answer)
unfolding handle_popped persist
handle_popped-Keeps e s (q, none) = (refl, refl)
handle_popped-Keeps e s (q, some r) =
    let moved = record s { queue = q } in
    count_failure-Keeps moved (persist_segment e r r.segment moved)
      (persist_segment-Keeps e r r.segment moved)

popped-Keeps :
    (e : Environment) (s t : Store) (answer : Option (Queue Recording × Option Recording))
    → popped e s answer ≡ some t
    → Keeps s t
unfolding popped
popped-Keeps e s t none h = absurd (ground arith)
popped-Keeps e s t (some answer) h = ground (arith, handle_popped-Keeps e s answer)

pub worker_step-Keeps :
    (e : Environment) (timed_out : Bool) (s t : Store)
    → worker_step e timed_out s ≡ some t
    → Keeps s t
unfolding worker_step
worker_step-Keeps e timed_out s t h = ground (arith, popped-Keeps e s t (pop_for timed_out s.queue))
