-- ===== src/Protocol/Safety.antt =====
-- `decode_audio_packet` on any bytes (board/voiceedge_protocol.hpp).
use voice_edge_monitor.Base.{
  ℕ, zero, suc, ◌+◌, ◌*◌, ◌/◌, ◌^◌, ◌≤◌, ◌<◌, ◌≡◌, refl, Bool, true, false, Option, some, List,
  arith, if◌then◌else◌, length, ltb, Bool-cases, inl, inr,
}
use voice_edge_monitor.Base.Maybe.{◌>>=◌, get_elem?, get_elem?-in_range}
use voice_edge_monitor.Protocol.{
  AudioPacketInfo, audio_header_size, read_u32_le, read_u64_le, read_bytes, decode_audio_packet,
  protocol_version, codec_pcm_s16_le, read_info, has_magic, is_consistent,
}

-- A chain of reads succeeds when each does.
bind_some {ℓ κ} :
    {A : Type ℓ} {B : Type κ} (m : Option A) (k : A → Option B)
    → (a : A) × (m ≡ some a)
    → ((a : A) → (b : B) × (k a ≡ some b))
    → (b : B) × ((m >>= k) ≡ some b)
bind_some m k (a, e) h = rw e (h a)

module _ (packet : List ℕ) where
  abbrev Reads : {A : Type 0} → Option A → Type 0
  Reads {A} m = (a : A) × (m ≡ some a)

  at : (i : ℕ) → i < length packet → Reads (get_elem? packet i)
  at i h = get_elem?-in_range packet i h

  read_u32-Reads : (i : ℕ) → i + 4 ≤ length packet → Reads (read_u32_le packet i)
  unfolding read_u32_le
  read_u32-Reads i h = bind_some _ _ (at i (omega arith)) λ a.
      bind_some _ _ (at (i + 1) (omega arith)) λ b.
        bind_some _ _ (at (i + 2) (omega arith))
          λ c. bind_some _ _ (at (i + 3) (omega arith)) λ d. (_, refl)

  read_bytes-Reads :
      (n shift i value : ℕ)
      → i + shift / 8 + n ≤ length packet
      → Reads (read_bytes n shift packet i value)
  unfolding read_bytes
  read_bytes-Reads zero shift i value h = (value, refl)
  read_bytes-Reads (suc n) shift i value h =
      bind_some _ _ (at (i + shift / 8) (omega arith))
        λ b. read_bytes-Reads n (shift + 8) i (value + b * 2 ^ shift) (omega arith)

  read_info-Reads : 32 ≤ length packet → Reads (read_info packet)
  unfolding read_info read_u64_le
  read_info-Reads h = bind_some _ _ (at 4 (omega arith)) λ v.
      bind_some _ _ (at 5 (omega arith)) λ c. bind_some _ _ (at 6 (omega arith)) λ n.
        bind_some _ _ (read_u32-Reads 8 (omega arith)) λ r.
          bind_some _ _ (read_bytes-Reads 8 0 12 0 (omega arith)) λ s.
            bind_some _ _ (read_bytes-Reads 8 0 20 0 (omega arith))
              λ t. bind_some _ _ (read_u32-Reads 28 (omega arith)) λ k. (_, refl)

  has_magic-Reads : 32 ≤ length packet → Reads (has_magic packet)
  unfolding has_magic
  has_magic-Reads h = bind_some _ _ (at 0 (omega arith)) λ a.
      bind_some _ _ (at 1 (omega arith)) λ b.
        bind_some _ _ (at 2 (omega arith)) λ c. bind_some _ _ (at 3 (omega arith)) λ d. (_, refl)

  -- Given any bytes and any previous contents of `info`, `decode_audio_packet` returns, and none
  -- of its reads leaves the packet.
  pub decode_total :
      (info : AudioPacketInfo)
      → (r : AudioPacketInfo × Bool) × (decode_audio_packet packet info ≡ some r)
  unfolding decode_audio_packet
  decode_total info = elim (Bool-cases (ltb (length packet) audio_header_size)) [
    | inl e ↦ rw e ((info, false), refl)
    | inr e ↦
        let h : 32 ≤ length packet = ground arith in
        let (m, em) = has_magic-Reads h in
        let (i, ei) = read_info-Reads h in rw (e, em) (by_magic m i ei)
  ]
    where
      by_magic :
          (m : Bool) (i : AudioPacketInfo)
          → read_info packet ≡ some i
          → (r : AudioPacketInfo × Bool) × ((if m
                then (read_info packet >>= λ read. some (read, is_consistent packet read))
                else some (info, false))
              ≡ some r)
      by_magic true i ei = rw ei (_, refl)
      by_magic false i ei = (_, refl)

  -- What `decode_audio_packet` accepts has version 1, codec 0, at least one channel, and exactly
  -- the length that the reported sample count calls for.
  pub accepted_consistent :
      (info read : AudioPacketInfo)
      → decode_audio_packet packet info ≡ some (read, true)
      → (read.version ≡ protocol_version)
        × (read.codec ≡ codec_pcm_s16_le)
        × (0 < read.channels)
        × (length packet ≡ audio_header_size + 2 * read.sample_count)
  unfolding decode_audio_packet is_consistent
  accepted_consistent info read h = ground arith
