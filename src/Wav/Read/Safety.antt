-- ===== src/Wav/Read/Safety.antt =====
-- `read_wave` on any file (board/asr_probe.cpp).
use voice_edge_monitor.Base.{
  ℕ, zero, suc, ◌+◌, ◌*◌, ◌/◌, ◌≤◌, ◌<◌, ◌||◌, not, Option, none, some, List, ltb, leb, ◌==◌,
  length, bytes_eq, arith, Bool-cases, inl, inr, if_elim, leb→le,
}
use native.Mathlib.Nat.{div-add-mod}
use voice_edge_monitor.Base.Int.{ℤ, pos, ◌+ℤ◌, signed16}
use voice_edge_monitor.Base.Maybe.{get_elem?-in_range}
use voice_edge_monitor.Audio.{Floats}
use voice_edge_monitor.Wav.{Outcome, done, thrown, out_of_bounds, out_of_fuel, ◌>>=◌}
use voice_edge_monitor.Wav.Read.{
  at, read_u16, read_u32, slice, fmt_chunk, data_chunk, Chunks, no_chunks, read_fmt, read_chunk,
  read_next, read_chunks, sum_channels, read_frames, read_samples, read_wave, riff, wave,
}

-- A value of the loops' result that satisfies `P`, or an exception.
abbrev pub Ends {ℓ} : {A : Type ℓ} → (A → Type 0) → Outcome A → Type 0
Ends P (done a) = P a
Ends P (thrown e) = Unit {0}
Ends P out_of_bounds = ⊥
Ends P out_of_fuel = ⊥

pub bind_Ends {ℓ κ} :
    {A : Type ℓ} (P : A → Type 0) {B : Type κ} (Q : B → Type 0) (m : Outcome A) (k : A → Outcome B)
    → Ends P m
    → ((a : A) → P a → Ends Q (k a))
    → Ends Q (m >>= k)
bind_Ends P Q (done a) k h g = g a h
bind_Ends P Q (thrown e) k h g = tt
bind_Ends P Q out_of_bounds k h g = h
bind_Ends P Q out_of_fuel k h g = h

abbrev pub Any {ℓ} : {A : Type ℓ} → A → Type 0
Any a = Unit

module _ (bytes : List ℕ) where
  at-Ends : (i : ℕ) → i < length bytes → Ends Any (at bytes i)
  at-Ends i h = let (b, e) = get_elem?-in_range bytes i h in rw (e, at) tt

  slice-Ends : (i n : ℕ) → i + n ≤ length bytes → Ends Any (slice bytes i n)
  slice-Ends i n h =
      if_elim (Ends Any) (leb (i + n) (length bytes)) (λ _. tt) (λ e. absurd (ground (arith, e)))

  read_u16-Ends : (i : ℕ) → i + 2 ≤ length bytes → Ends Any (read_u16 bytes i)
  unfolding read_u16
  read_u16-Ends i h =
      bind_Ends Any Any _ _ (at-Ends i (omega arith))
        λ a _. bind_Ends Any Any _ _ (at-Ends (i + 1) (omega arith)) λ b _. tt

  read_u32-Ends : (i : ℕ) → i + 4 ≤ length bytes → Ends Any (read_u32 bytes i)
  unfolding read_u32
  read_u32-Ends i h = bind_Ends Any Any _ _ (at-Ends i (omega arith)) λ a _.
      bind_Ends Any Any _ _ (at-Ends (i + 1) (omega arith)) λ b _.
        bind_Ends Any Any _ _ (at-Ends (i + 2) (omega arith))
          λ c _. bind_Ends Any Any _ _ (at-Ends (i + 3) (omega arith)) λ d _. tt

  -- The data that the loop has noted lies in the file.
  abbrev InFile : Chunks → Type 0
  InFile s = s.data_offset + s.data_size ≤ length bytes

  read_fmt-Ends :
      (payload : ℕ) (s : Chunks)
      → payload + 16 ≤ length bytes
      → InFile s
      → Ends InFile (read_fmt bytes payload s)
  unfolding read_fmt
  read_fmt-Ends payload s h i =
      bind_Ends Any InFile _ _ (read_u16-Ends payload (omega arith)) λ a _.
        bind_Ends Any InFile _ _ (read_u16-Ends (payload + 2) (omega arith)) λ b _.
          bind_Ends Any InFile _ _ (read_u32-Ends (payload + 4) (omega arith))
            λ c _. bind_Ends Any InFile _ _ (read_u16-Ends (payload + 14) (omega arith)) λ d _. i

  read_chunk-Ends :
      (chunk : List ℕ) (payload size : ℕ) (s : Chunks)
      → payload + size ≤ length bytes
      → InFile s
      → Ends InFile (read_chunk bytes chunk payload size s)
  unfolding read_chunk
  read_chunk-Ends chunk payload size s h i =
      if_elim (Ends InFile) (bytes_eq chunk fmt_chunk)
        (λ _.
          if_elim (Ends InFile) (ltb size 16) (λ _. tt)
            (λ long. read_fmt-Ends payload s (ground arith) i))
        (λ _. if_elim (Ends InFile) (bytes_eq chunk data_chunk) (λ _. h) (λ _. i))

  abbrev Next : ℕ → ℕ × Chunks → Type 0
  Next offset r = (offset + 8 ≤ r.0) × InFile r.1

  read_next-Ends :
      (offset : ℕ) (s : Chunks)
      → offset + 8 ≤ length bytes
      → InFile s
      → Ends (Next offset) (read_next bytes offset s)
  unfolding read_next
  read_next-Ends offset s h i =
      bind_Ends Any (Next offset) _ _ (slice-Ends offset 4 (omega arith)) λ chunk _.
        bind_Ends Any (Next offset) _ _ (read_u32-Ends (offset + 4) (omega arith)) λ size _.
          if_elim (Ends (Next offset)) (ltb (length bytes) (offset + 8 + size)) (λ _. tt)
            (λ fits.
              bind_Ends InFile (Next offset) _ _
                (read_chunk-Ends chunk (offset + 8) size s (ground arith) i)
                (λ s' i'. (omega arith, i')))

  read_chunks-Ends :
      (fuel offset : ℕ) (s : Chunks)
      → length bytes < fuel + offset
      → 0 < fuel
      → InFile s
      → Ends InFile (read_chunks fuel bytes offset s)
  unfolding read_chunks
  read_chunks-Ends zero offset s f p i = absurd (omega arith)
  read_chunks-Ends (suc fuel) offset s f p i = elim (Bool-cases (leb (offset + 8) (length bytes))) [
    | inr e ↦ rw (e, Ends) i
    | inl e ↦
        rw (e, Ends)
          (bind_Ends (Next offset) InFile _ _ (read_next-Ends offset s (leb→le _ _ e) i)
            λ r n. read_chunks-Ends fuel r.0 r.1 (omega arith) (omega (arith, leb→le _ _ e)) n.1)
  ]

  whole_frames : (n d : ℕ) → (0 + n / d) * d ≤ n
  whole_frames n d = omega (arith, div-add-mod n d)

  sum_channels-Ends :
      (n data_offset i : ℕ) (sum : ℤ)
      → data_offset + (i + n) * 2 ≤ length bytes
      → Ends Any (sum_channels n bytes data_offset i sum)
  unfolding sum_channels
  sum_channels-Ends zero data_offset i sum h = tt
  sum_channels-Ends (suc n) data_offset i sum h =
      bind_Ends Any Any _ _ (read_u16-Ends (data_offset + i * 2) (omega arith))
        λ raw _. sum_channels-Ends n data_offset (i + 1) (sum +ℤ signed16 raw) (omega arith)

  module _ (f : Floats) where
    read_frames-Ends :
        (n data_offset channels frame : ℕ)
        → data_offset + (frame + n) * channels * 2 ≤ length bytes
        → Ends Any (read_frames f n bytes data_offset channels frame)
    unfolding read_frames
    read_frames-Ends zero data_offset channels frame h = tt
    read_frames-Ends (suc n) data_offset channels frame h =
        bind_Ends Any Any _ _
          (sum_channels-Ends channels data_offset (frame * channels) (pos 0) (grind arith))
          λ sum _.
            bind_Ends Any Any _ _
              (read_frames-Ends n data_offset channels (frame + 1) (grind arith)) λ rest _. tt

    read_samples-Ends : (s : Chunks) → InFile s → Ends Any (read_samples f bytes s)
    unfolding read_samples
    read_samples-Ends s i =
        if_elim (Ends Any)
          (not (s.format == 1)
            || (s.channels == 0
                || (s.sample_rate == 0 || (not (s.bits == 16) || s.data_size == 0))))
          (λ _. tt)
          (λ _.
            bind_Ends Any Any _ _
              (read_frames-Ends (s.data_size / 2 / s.channels) s.data_offset s.channels 0
                (omega (arith, whole_frames (s.data_size / 2) s.channels)))
              λ samples _. tt)

-- Whatever the file holds, `read_wave` returns or throws: the chunk loop ends within as many rounds
-- as the file has bytes, and no read, of a single byte or of a range, leaves the file.
pub read_wave-Ends : (f : Floats) (contents : Option (List ℕ)) → Ends Any (read_wave f contents)
unfolding read_wave
read_wave-Ends f none = tt
read_wave-Ends f (some bytes) =
    if_elim (Ends Any) (ltb (length bytes) 12) (λ _. tt)
      (λ long. bind_Ends Any Any _ _ (slice-Ends bytes 0 4 (ground arith)) λ first _.
        if_elim (Ends Any) (not (bytes_eq first riff)) (λ _. tt)
          (λ _. bind_Ends Any Any _ _ (slice-Ends bytes 8 4 (ground arith)) λ second _.
            if_elim (Ends Any) (not (bytes_eq second wave)) (λ _. tt)
              (λ _.
                bind_Ends (InFile bytes) Any _ _
                  (read_chunks-Ends bytes (length bytes) 12 no_chunks (omega arith) (ground arith)
                    (omega arith))
                  (read_samples-Ends bytes f))))
