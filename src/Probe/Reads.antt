-- ===== src/Probe/Reads.antt =====
-- The blocks that the capture probe owes to what it reads (board/capture_probe.cpp).
use voice_edge_monitor.Base.{
  ℕ, ◌*◌, ◌/◌, ◌+◌, ◌≡◌, refl, sym, subst, Bool, true, false, not, ◌&&◌, List, [], ◌∷◌, ◌++◌, take,
  leb, ◌==◌, if◌then◌else◌, append_assoc, append-nil, Result, ok, err,
}
use voice_edge_monitor.Audio.{Floats}
use voice_edge_monitor.Wav.Writer.{WavWriter, write}
use voice_edge_monitor.Probe.{
  Read, got, got_none, again, failed, Round, Setup, Probe, Progress, continues, breaks, throws,
  report_interval, after_write, take_block, read_step, probe_round, finish_capture,
}

-- Whether the time of the run is over.
abbrev is_over : Setup → Round → Bool
is_over o r = not (o.run_ms == 0) && leb o.run_ms (r.now / 1000000)

-- The block that a call of `snd_pcm_readi` brings, and whether the loop goes on behind it.
abbrev block_of : Setup → Read → List (List ℕ)
block_of o (got count buffer) = take (count * o.channels) buffer ∷ []
block_of o got_none = []
block_of o again = []
block_of o (failed overrun stopped recovers) = []

abbrev goes_on : Read → Bool
goes_on (got count buffer) = true
goes_on got_none = true
goes_on again = true
goes_on (failed overrun stopped recovers) = not stopped && recovers

-- The blocks of a run: of each call its `count * channels` samples, up to the end of the time, the
-- signal or the first failure that the device does not recover from.
abbrev pub blocks_read : Setup → List Round → List (List ℕ)
blocks_read o [] = []
blocks_read o (r ∷ rounds) =
    if is_over o r
    then []
    else block_of o r.read ++ (if goes_on r.read then blocks_read o rounds else [])

module _ (f : Floats) (o : Setup) where
  -- A round moves from the blocks owed to those taken.
  abbrev pub Owes : List (List ℕ) → List Round → Progress f → Type 0
  Owes xs rounds (continues t) = t.captured ++ blocks_read o rounds ≡ xs
  Owes xs rounds (breaks t) = t.captured ≡ xs
  Owes xs rounds (throws e) = Unit

  after_write-Owes :
      (time : ℕ) (r : WavWriter × Result (Unit {0})) (rounds : List Round) (s : Probe f)
      → Owes (s.captured ++ blocks_read o rounds) rounds (after_write f o time r s)
  unfolding after_write report_interval
  after_write-Owes time (w, err e) rounds s = tt
  after_write-Owes time (w, ok u) rounds s = go (leb s.next_report time)
    where
      go :
          (b : Bool)
          → Owes (s.captured ++ blocks_read o rounds) rounds (
              let t = record s { wav = w } in
              continues (
                if b
                then record (report_interval f t) { next_report = time + o.report_ms * 1000000 }
                else t))
      go true = refl
      go false = refl

  read_step-Owes :
      (time : ℕ) (r : Read) (rounds : List Round) (s : Probe f)
      → Owes
          (s.captured ++ (block_of o r ++ (if goes_on r then blocks_read o rounds else [])))
          rounds
          (read_step f o time r s)
  unfolding read_step take_block
  read_step-Owes time (got count buffer) rounds s =
      let block = take (count * o.channels) buffer in
      subst (λ xs. Owes xs rounds (take_block f o time count block s))
        (append_assoc s.captured (block ∷ []) (blocks_read o rounds))
        (after_write-Owes time (if o.recording then write o.fate block s.wav else (s.wav, ok tt))
          rounds _)
  read_step-Owes time got_none rounds s = refl
  read_step-Owes time again rounds s = refl
  read_step-Owes time (failed overrun true recovers) rounds s = sym (append-nil s.captured)
  read_step-Owes time (failed overrun false true) rounds s = refl
  read_step-Owes time (failed overrun false false) rounds s = sym (append-nil s.captured)

  pub probe_round-Owes :
      (r : Round) (rounds : List Round) (s : Probe f)
      → Owes (s.captured ++ blocks_read o (r ∷ rounds)) rounds (probe_round f o r s)
  unfolding probe_round
  probe_round-Owes r rounds s = go (is_over o r)
    where
      go :
          (b : Bool)
          → Owes
              (s.captured
                ++ (if b
                    then []
                    else block_of o r.read
                      ++ (if goes_on r.read then blocks_read o rounds else [])))
              rounds
              (if b then breaks s else read_step f o r.report_time r.read s)
      go true = sym (append-nil s.captured)
      go false = read_step-Owes r.report_time r.read rounds s

  pub finish_capture-captured : (s : Probe f) → (finish_capture f s).captured ≡ s.captured
  unfolding finish_capture report_interval
  finish_capture-captured s = go (s.interval.samples == 0)
    where
      go : (b : Bool) → (if not b then report_interval f s else s).captured ≡ s.captured
      go true = refl
      go false = refl
