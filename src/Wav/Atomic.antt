-- ===== src/Wav/Atomic.antt =====
-- What `RecordingStore::write_wav` leaves on the disk (board/recording_store.hpp).
use voice_edge_monitor.Base.{
  ℕ, ◌*◌, ◌≡◌, refl, inl, inr, Bool, true, false, ◌||◌, not, ◌&&◌, if◌then◌else◌, some, List, [],
  ◌∷◌, ◌++◌, ltb, ◌==◌, length, bytes_eq, Error, arith, Bool-cases,
}
use voice_edge_monitor.Audio.{SpeechSegment}
use voice_edge_monitor.Wav.{
  done, thrown, Disk, WriteFate, tmp_suffix, write_wav, wav_bytes, is_empty,
}

bytes_eq_refl : (p : List ℕ) → bytes_eq p p ≡ true
bytes_eq_refl [] = refl
bytes_eq_refl (c ∷ cs) = ground (arith, bytes_eq_refl cs)

bytes_eq_tmp : (p : List ℕ) → bytes_eq (p ++ tmp_suffix) p ≡ false
bytes_eq_tmp [] = refl
bytes_eq_tmp (c ∷ cs) = ground (arith, bytes_eq_tmp cs)

-- A segment with no rate, no channel or no sample is malformed; one of 4 GiB or more is too large.
abbrev pub malformed : SpeechSegment → Bool
malformed s = s.sample_rate == 0 || (s.channels == 0 || length s.samples == 0)

-- What a call depends on.
abbrev pub succeeds : SpeechSegment → WriteFate → Bool
succeeds s fate =
    not (malformed s)
    && (ltb (length s.samples * 2) 0x1_0000_0000
        && (fate.opens && (fate.completes && fate.renames)))

is_empty-length : (ss : List ℕ) → is_empty ss ≡ (length ss == 0)
unfolding is_empty
is_empty-length [] = refl
is_empty-length (s ∷ ss) = ground arith

-- All is written or nothing is. The call returns exactly for a well-formed segment below 4 GiB
-- whose file the system lets it open, write and rename, and throws `invalid_argument` for a malformed
-- segment and `runtime_error`, or an exception derived from it, otherwise. When it returns, the whole
-- file stands at `path`; any other path than that and the temporary one, and also `path` when it
-- throws, is as it was.
pub write_wav_atomic :
    (disk : Disk) (fate : WriteFate) (path : List ℕ) (s : SpeechSegment) (p : List ℕ)
    → bytes_eq (path ++ tmp_suffix) p ≡ false
    → let r = write_wav disk fate path s in
      (r.1 ≡ (
        if succeeds s fate
        then done tt
        else thrown (if malformed s then Error.invalid_argument else Error.runtime_error)))
      × (r.0 p ≡ (if succeeds s fate && bytes_eq path p then some (wav_bytes s) else disk p))
unfolding write_wav
write_wav_atomic disk fate path s p h =
    ground (arith, is_empty-length s.samples, bytes_eq_tmp path, bytes_eq_refl (path ++ tmp_suffix))

-- The temporary path is another one.
pub temporary-ne : (path : List ℕ) → bytes_eq (path ++ tmp_suffix) path ≡ false
temporary-ne path = bytes_eq_tmp path

pub stored :
    (disk disk' : Disk) (fate : WriteFate) (path : List ℕ) (s : SpeechSegment)
    → write_wav disk fate path s ≡ (disk', done tt)
    → disk' path ≡ some (wav_bytes s)
stored disk disk' fate path s h =
    let (r, d) = write_wav_atomic disk fate path s path (temporary-ne path) in
    elim (Bool-cases (succeeds s fate)) [
      | inl e ↦ ground (arith, bytes_eq_refl path)
      | inr e ↦ ground arith
    ]
