-- ===== src/Recorder/Drain.antt =====
-- `stop()` against `worker_loop`: a closed queue is worked off before the thread ends.
use voice_edge_monitor.Base.{
  ℕ, zero, suc, ◌≡◌, refl, ap, ◌∙◌, true, false, Bool, Option, none, some, List, [], ◌∷◌,
  if◌then◌else◌, length, arith,
}
use voice_edge_monitor.Base.Maybe.{◌>>=◌}
use voice_edge_monitor.Audio.{SpeechSegment}
use voice_edge_monitor.Cli.{Text}
use voice_edge_monitor.Queue.{Queue, pop_for, close, ready, after_wait, take_front}
use voice_edge_monitor.Wav.{Outcome, Disk, done, thrown, out_of_bounds, out_of_fuel, write_wav}
use voice_edge_monitor.Recorder.{
  Environment, Recording, Store, Phase, polling, finished, persist, persist_segment,
  append_transcript, put_out, after_wav, count_failure, handle_popped, popped, worker_step,
  begin_stop,
}

-- `persist` neither reads nor writes the queue and the phase.
abbrev at_work : Queue Recording → Phase → Store × Bool → Store × Bool
at_work q p (s, completed) = (record s { queue = q; phase = p }, completed)

append_transcript-at_work :
    (e : Environment) (r : Recording) (segment : SpeechSegment) (path : Text) (s : Store)
    (q : Queue Recording) (p : Phase)
    → append_transcript e r segment path (record s { queue = q; phase = p })
      ≡ at_work q p (append_transcript e r segment path s)
unfolding append_transcript put_out
append_transcript-at_work e r segment path s q p = ground arith

after_wav-at_work :
    (e : Environment) (r : Recording) (segment : SpeechSegment) (path : Text) (s : Store)
    (q : Queue Recording) (p : Phase) (answer : Disk × Outcome (Unit {0}))
    → after_wav e r segment path (record s { queue = q; phase = p }) answer
      ≡ at_work q p (after_wav e r segment path s answer)
unfolding after_wav
after_wav-at_work e r segment path s q p (disk, done u) =
    append_transcript-at_work e r segment (e.relative path) (record s { disk = disk }) q p
after_wav-at_work e r segment path s q p (disk, thrown error) = refl
after_wav-at_work e r segment path s q p (disk, out_of_bounds) = refl
after_wav-at_work e r segment path s q p (disk, out_of_fuel) = refl

persist_segment-at_work :
    (e : Environment) (r : Recording) (found : Option SpeechSegment) (s : Store)
    (q : Queue Recording) (p : Phase)
    → persist_segment e r found (record s { queue = q; phase = p })
      ≡ at_work q p (persist_segment e r found s)
unfolding persist_segment
persist_segment-at_work e r none s q p = refl
persist_segment-at_work e r (some segment) s q p =
    let path = e.wav_path segment.id in
    ground (
      arith,
      append_transcript-at_work e r segment [] s q p,
      after_wav-at_work e r segment path s q p (write_wav s.disk (e.fate segment.id) path segment),
    )

count_failure-at_work :
    (q : Queue Recording) (p : Phase) (r : Store × Bool)
    → count_failure (at_work q p r) ≡ record (count_failure r) { queue = q; phase = p }
unfolding count_failure
count_failure-at_work q p (s, true) = refl
count_failure-at_work q p (s, false) = refl

-- The records that the thread writes, one after the other.
abbrev pub persist_all : Environment → List Recording → Store → Store
persist_all e [] s = s
persist_all e (r ∷ rs) s = persist_all e rs (count_failure (persist e r s))

-- `n` steps of the thread, no `pop_for` timing out.
abbrev pub work : Environment → ℕ → Store → Option Store
work e zero s = some s
work e (suc n) s = worker_step e false s >>= work e n

abbrev closed_queue : ℕ → ℕ → List Recording → Queue Recording
closed_queue c d items = record { capacity = c; queue = items; dropped_items = d; closed = true }

persist_next :
    (e : Environment) (r : Recording) (rs : List Recording) (c d : ℕ) (s : Store)
    → worker_step e false (record s { queue = closed_queue c d (r ∷ rs); phase = polling })
      ≡ some
          (record (count_failure (persist e r s)) { queue = closed_queue c d rs; phase = polling })
unfolding worker_step popped handle_popped pop_for ready after_wait take_front persist
persist_next e r rs c d s =
    ap (λ x. some (count_failure x))
      (persist_segment-at_work e r r.segment s (closed_queue c d rs) polling)
    ∙ ap some (count_failure-at_work (closed_queue c d rs) polling (persist e r s))

work_closed :
    (e : Environment) (items : List Recording) (c d : ℕ) (s : Store)
    → work e
        (suc (suc (length items)))
        (record s { queue = closed_queue c d items; phase = polling })
      ≡ some (record (persist_all e items s) { queue = closed_queue c d []; phase = finished })
unfolding worker_step popped handle_popped pop_for ready after_wait take_front
work_closed e [] c d s = refl
work_closed e (r ∷ rs) c d s =
    ap (λ x. x >>= work e (suc (suc (length rs)))) (persist_next e r rs c d s)
    ∙ work_closed e rs c d (count_failure (persist e r s))

-- Once `stop()` has closed the queue of a started store whose thread stands before its `pop_for`, the
-- thread leaves its loop after two steps more than there are queued records. It has then handed
-- these to `persist`, each once and in order, has counted those that threw, and the queue is empty.
pub stop_drains :
    (e : Environment) (s : Store)
    → s.worker ≡ true
    → s.phase ≡ polling
    → work e (suc (suc (length s.queue.queue))) (begin_stop s)
      ≡ some (record (persist_all e s.queue.queue s) {
        queue = record (close s.queue) { queue = [] };
        phase = finished;
      })
unfolding begin_stop close
stop_drains e s hw hp =
    let n = suc (suc (length s.queue.queue)) in
    ap (λ b. work e n (if b then record s { queue = close s.queue } else s)) hw
    ∙ ap (λ p. work e n (record s { queue = close s.queue; phase = p })) hp
    ∙ work_closed e s.queue.queue s.queue.capacity s.queue.dropped_items s
