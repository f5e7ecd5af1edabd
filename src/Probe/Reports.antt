-- ===== src/Probe/Reports.antt =====
-- What the capture probe reports and records (board/capture_probe.cpp).
use voice_edge_monitor.Base.{
  ℕ, ◌+◌, ◌%◌, ◌^◌, ◌≡◌, refl, sym, ap, ◌∙◌, subst, Bool, true, false, ◌⊎◌, inl, inr, List, [], ◌∷◌,
  ◌++◌, map, leb, ◌==◌, not, if◌then◌else◌, append_assoc, append-nil, Result, ok, err, arith, ◌*◌,
  ◌/◌, take, leb, ◌&&◌,
}
use mathlib.Core.List.{map-append}
use voice_edge_monitor.Audio.{Floats}
use voice_edge_monitor.Segment.{incr}
use voice_edge_monitor.Wav.{WriteFate}
use voice_edge_monitor.Wav.Writer.{WavWriter, write, write_all, close}
use voice_edge_monitor.Levels.{IntervalStats, no_samples, add}
use voice_edge_monitor.Levels.Peak.{add_all}
use voice_edge_monitor.Probe.Reads.{blocks_read, Owes, probe_round-Owes}
use voice_edge_monitor.Probe.{
  Read, got, got_none, again, failed, Round, Setup, Probe, at_start, Progress, continues, breaks,
  throws, report_interval, after_write, take_block, read_step, probe_round, finish_capture,
  capture_rounds, run_capture,
}

-- The blocks of all intervals.
abbrev pub flat : List (List (List ℕ)) → List (List ℕ)
flat [] = []
flat (g ∷ gs) = g ++ flat gs

flat-snoc : (gs : List (List (List ℕ))) (g : List (List ℕ)) → flat (gs ++ g ∷ []) ≡ flat gs ++ g
flat-snoc [] g = append-nil g
flat-snoc (h ∷ gs) g = ap (λ bs. h ++ bs) (flat-snoc gs g) ∙ sym (append_assoc h (flat gs) g)

-- What `write_all` does behind its first call.
abbrev after_first :
    WriteFate → List (List ℕ) → WavWriter × Result (Unit {0}) → WavWriter × Result (Unit {0})
after_first fate bs r = elim r.1 [ err x ↦ (r.0, err x) | ok u ↦ write_all fate bs r.0 ]

write_all-snoc :
    (fate : WriteFate) (bs : List (List ℕ)) (b : List ℕ) (w w' w'' : WavWriter)
    → write_all fate bs w ≡ (w', ok tt)
    → write fate b w' ≡ (w'', ok tt)
    → write_all fate (bs ++ b ∷ []) w ≡ (w'', ok tt)
unfolding write_all
write_all-snoc fate [] b w w' w'' e h = ground arith
write_all-snoc fate (c ∷ bs) b w w' w'' e h =
    go (write fate c w) refl (λ w1 e1. write_all-snoc fate bs b w1 w' w'' e1 h)
  where
    go :
        (r : WavWriter × Result (Unit {0}))
        → write fate c w ≡ r
        → ((w1 : WavWriter)
            → write_all fate bs w1 ≡ (w', ok tt)
            → write_all fate (bs ++ b ∷ []) w1 ≡ (w'', ok tt))
        → write_all fate (c ∷ bs ++ b ∷ []) w ≡ (w'', ok tt)
    go (w1, ok u) q rest =
        subst (λ r. after_first fate (bs ++ b ∷ []) r ≡ (w'', ok tt)) (sym q)
          (rest w1 (subst (λ r. after_first fate bs r ≡ (w', ok tt)) q e))
    go (w1, err x) q rest = absurd (ground arith)

module _ (f : Floats) where
  -- The level statistics of an interval.
  abbrev pub measured : List (List ℕ) → IntervalStats f
  measured g = add_all f g (no_samples f)

  add_all-snoc :
      (bs : List (List ℕ)) (b : List ℕ) (s : IntervalStats f)
      → add_all f (bs ++ b ∷ []) s ≡ add f b (add_all f bs s)
  add_all-snoc [] b s = refl
  add_all-snoc (c ∷ bs) b s = add_all-snoc bs b (add f c s)

  -- `groups` are the blocks of the intervals reported so far, `current` those since.
  pub record IsReported (o : Setup) (wav : WavWriter) (groups : List (List (List ℕ)))
      (current : List (List ℕ)) (s : Probe f) : Type 0 where
    pub split : s.captured ≡ flat groups ++ current
    pub reported : s.reports ≡ map measured groups
    pub measuring : s.interval ≡ measured current
    pub recorded : (o.recording ≡ true) → write_all o.fate s.captured wav ≡ (s.wav, ok tt)
    pub unrecorded : (o.recording ≡ false) → s.wav ≡ wav

  abbrev pub HasReported : Setup → WavWriter → Probe f → Type 0
  HasReported o wav s =
      (groups : List (List (List ℕ))) × (current : List (List ℕ)) × IsReported o wav groups current
        s

  module _ (o : Setup) (wav : WavWriter) where
    abbrev pub Progressed : Progress f → Type 0
    Progressed (continues s) = HasReported o wav s
    Progressed (breaks s) = HasReported o wav s
    Progressed (throws e) = o.recording ≡ true

    report-IsReported :
        (s : Probe f) (gs : List (List (List ℕ))) (g : List (List ℕ))
        → IsReported o wav gs g s
        → IsReported o wav (gs ++ g ∷ []) [] (report_interval f s)
    unfolding report_interval
    report-IsReported s gs g h = record {
      split = h.split ∙ sym (flat-snoc gs g) ∙ sym (append-nil (flat (gs ++ g ∷ [])));
      reported =
          ap (λ rs. rs ++ s.interval ∷ []) h.reported
          ∙ ap (λ i. map measured gs ++ i ∷ []) h.measuring
          ∙ sym (map-append measured gs (g ∷ []));
      measuring = refl;
      recorded = h.recorded;
      unrecorded = h.unrecorded;
    }

    block-HasReported :
        (s : Probe f) (w : WavWriter) (count : ℕ) (block : List ℕ)
        → (if o.recording then write o.fate block s.wav else (s.wav, ok tt)) ≡ (w, ok tt)
        → HasReported o wav s
        → HasReported o wav (record s {
          wav = w;
          interval = add f block s.interval;
          frames = (s.frames + count) % 2 ^ 64;
          captured = s.captured ++ block ∷ [];
        })
    block-HasReported s w count block e (gs, g, h) = (
      gs,
      g ++ block ∷ [],
      record {
        split = ap (λ bs. bs ++ block ∷ []) h.split ∙ append_assoc (flat gs) g (block ∷ []);
        reported = h.reported;
        measuring = ap (add f block) h.measuring ∙ sym (add_all-snoc g block (no_samples f));
        recorded =
            λ q. write_all-snoc o.fate s.captured block wav s.wav w (h.recorded q) (ground arith);
        unrecorded = λ q. ground (arith, h.unrecorded q);
      },
    )

    paced-HasReported :
        (b : Bool) (n : ℕ) (s : Probe f)
        → HasReported o wav s
        → HasReported o wav (if b then record (report_interval f s) { next_report = n } else s)
    paced-HasReported false n s h = h
    paced-HasReported true n s h =
        let (gs, g, k0) = h in
        let k = report-IsReported s gs g k0 in
        (
          gs ++ g ∷ [],
          [],
          record {
            split = k.split;
            reported = k.reported;
            measuring = k.measuring;
            recorded = k.recorded;
            unrecorded = k.unrecorded;
          },
        )

    written-Progressed :
        (time count : ℕ) (block : List ℕ) (s : Probe f)
        → HasReported o wav s
        → Progressed (take_block f o time count block s)
    unfolding take_block after_write
    written-Progressed time count block s h =
        go (if o.recording then write o.fate block s.wav else (s.wav, ok tt)) refl
      where
        t : Probe f
        t = record s {
          interval = add f block s.interval;
          frames = (s.frames + count) % 2 ^ 64;
          captured = s.captured ++ block ∷ [];
        }

        go :
            (r : WavWriter × Result (Unit {0}))
            → (if o.recording then write o.fate block s.wav else (s.wav, ok tt)) ≡ r
            → Progressed (after_write f o time r t)
        go (w, err e) q = ground arith
        go (w, ok u) q =
            paced-HasReported (leb s.next_report time) (time + o.report_ms * 1000000)
              (record t { wav = w }) (block-HasReported s w count block q h)

    counted-HasReported :
        (s : Probe f) (xruns recoveries read_errors : ℕ)
        → HasReported o wav s
        → HasReported o wav
            (record s { xruns = xruns; recoveries = recoveries; read_errors = read_errors })
    counted-HasReported s x r e (gs, g, k) = (
      gs,
      g,
      record {
        split = k.split;
        reported = k.reported;
        measuring = k.measuring;
        recorded = k.recorded;
        unrecorded = k.unrecorded;
      },
    )

    read_step-Progressed :
        (time : ℕ) (r : Read) (s : Probe f)
        → HasReported o wav s
        → Progressed (read_step f o time r s)
    unfolding read_step
    read_step-Progressed time (got count buffer) s h =
        written-Progressed time count (take (count * o.channels) buffer) s h
    read_step-Progressed time got_none s h = h
    read_step-Progressed time again s h = h
    read_step-Progressed time (failed overrun stopped recovers) s h =
        go stopped recovers (if overrun then incr s.xruns else s.xruns)
      where
        go :
            (a b : Bool) (x : ℕ)
            → Progressed (
                if a
                then breaks (record s { xruns = x })
                else if b
                then continues (record s { xruns = x; recoveries = incr s.recoveries })
                else breaks (record s { xruns = x; read_errors = incr s.read_errors }))
        go true b x = counted-HasReported s x s.recoveries s.read_errors h
        go false true x = counted-HasReported s x (incr s.recoveries) s.read_errors h
        go false false x = counted-HasReported s x s.recoveries (incr s.read_errors) h

    probe_round-Progressed :
        (r : Round) (s : Probe f) → HasReported o wav s → Progressed (probe_round f o r s)
    unfolding probe_round
    probe_round-Progressed r s h = go (not (o.run_ms == 0) && leb o.run_ms (r.now / 1000000))
      where
        go : (b : Bool) → Progressed (if b then breaks s else read_step f o r.report_time r.read s)
        go true = h
        go false = read_step-Progressed r.report_time r.read s h

    -- The run has ended, having read the blocks `xs`: `rest` are those that no report covers.
    abbrev pub Ended : List (List ℕ) → Result (Probe f) → Type 0
    Ended xs (err e) = o.recording ≡ true
    Ended xs (ok s) =
        (groups : List (List (List ℕ))) × (rest : List (List ℕ)) × (w : WavWriter) × (xs
          ≡ flat groups ++ rest)
        × (s.reports ≡ map measured groups)
        × ((measured rest).samples ≡ 0)
        × (s.wav ≡ close w)
        × ((o.recording ≡ false) ⊎ (write_all o.fate xs wav ≡ (w, ok tt)))

    either_recorded : {P : Type 0} → ((o.recording ≡ true) → P) → (o.recording ≡ false) ⊎ P
    either_recorded {P = P} h = go o.recording refl
      where
        go : (b : Bool) → o.recording ≡ b → (o.recording ≡ false) ⊎ P
        go true e = inr (h e)
        go false e = inl e

    finish-Ended : (s : Probe f) → HasReported o wav s → Ended s.captured (ok (finish_capture f s))
    unfolding finish_capture
    finish-Ended s h = go (s.interval.samples == 0) refl
      where
        go :
            (b : Bool)
            → (s.interval.samples == 0) ≡ b
            → Ended s.captured (
                ok (
                  let t = if not b then report_interval f s else s in
                  record t { wav = close t.wav }))
        go true q =
            let (gs, g, k) = h in
            (
              gs,
              g,
              s.wav,
              k.split,
              k.reported,
              ground (arith, k.measuring),
              refl,
              either_recorded k.recorded,
            )
        go false q =
            let (gs, g, k0) = h in
            let k = report-IsReported s gs g k0 in
            (
              gs ++ g ∷ [],
              [],
              (report_interval f s).wav,
              k.split,
              k.reported,
              unfold no_samples in refl,
              refl,
              either_recorded k.recorded,
            )

    capture_rounds-Ended :
        (rounds : List Round) (s : Probe f)
        → HasReported o wav s
        → Ended (s.captured ++ blocks_read o rounds) (capture_rounds f o rounds s)
    unfolding capture_rounds
    capture_rounds-Ended [] s h =
        subst (λ xs. Ended xs (ok (finish_capture f s))) (sym (append-nil s.captured))
          (finish-Ended s h)
    capture_rounds-Ended (r ∷ rounds) s h =
        go (probe_round f o r s) (probe_round-Progressed r s h) (probe_round-Owes f o r rounds s)
          (λ t. capture_rounds-Ended rounds t)
      where
        go :
            (p : Progress f)
            → Progressed p
            → Owes f o (s.captured ++ blocks_read o (r ∷ rounds)) rounds p
            → ((t : Probe f)
                → HasReported o wav t
                → Ended (t.captured ++ blocks_read o rounds) (capture_rounds f o rounds t))
            → Ended (s.captured ++ blocks_read o (r ∷ rounds)) (elim p [
              | continues t ↦ capture_rounds f o rounds t
              | breaks t ↦ ok (finish_capture f t)
              | throws e ↦ err e
            ])
        go (continues t) h e rest =
            subst (λ xs. Ended xs (capture_rounds f o rounds t)) e (rest t h)
        go (breaks t) h e rest =
            subst (λ xs. Ended xs (ok (finish_capture f t))) e (finish-Ended t h)
        go (throws x) h e rest = h

  -- Whatever the capture probe reads, and however long it runs: it throws only if it records a WAV file; otherwise each
  -- block that it read, `count * channels` samples of the buffer for each call until the time is over or a
  -- failure ends the run, is in exactly one of the intervals that it reports, in order, with the levels that the samples of
  -- the interval's blocks add up to, but for blocks at the end that have no samples, modulo 2^64; and a WAV file
  -- that it records has been given exactly the blocks read, in order, and then been closed.
  pub run_capture-Ended :
      (o : Setup) (rounds : List Round) (wav : WavWriter)
      → Ended o wav (blocks_read o rounds) (run_capture f o rounds wav)
  unfolding run_capture at_start write_all
  run_capture-Ended o rounds wav = capture_rounds-Ended o wav rounds (at_start f o wav) (
    [],
    [],
    record {
      split = refl;
      reported = refl;
      measuring = refl;
      recorded = λ q. refl;
      unrecorded = λ q. refl;
    },
  )
