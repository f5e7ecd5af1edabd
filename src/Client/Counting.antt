-- ===== src/Client/Counting.antt =====
-- The client (tools/ws_cli.cpp) on what a server sends.
use voice_edge_monitor.Base.{
  ℕ, zero, suc, ◌+◌, ◌-◌, ◌/◌, ◌%◌, ◌^◌, ◌<◌, ◌≤◌, ◌≡◌, ◌≢◌, ◌⊎◌, inl, inr, refl, sym, ap, subst,
  Bool, true, false, Option, some, List, [], ◌∷◌, if◌then◌else◌, length, take, Result, ok, arith,
}
use voice_edge_monitor.Audio.{AudioFrame}
use voice_edge_monitor.Protocol.{encode_audio_packet, decode_audio_packet}
use voice_edge_monitor.Protocol.RoundTrip.{IsAudioFrame, decode-encode, info_of}
use voice_edge_monitor.Client.{
  Incoming, text, binary, ends, breaks, Client, fresh, blank, take_packet, count_packet, is_enough,
  client_from,
}

-- Texts, and the packets of these frames, in order.
abbrev pub Carries : List Incoming → List AudioFrame → Type 0
Carries [] [] = Unit
Carries [] (x ∷ xs) = ⊥
Carries (text ∷ ms) xs = Carries ms xs
Carries (ends ∷ ms) xs = ⊥
Carries (breaks ∷ ms) xs = ⊥
Carries (binary p ∷ ms) [] = ⊥
Carries (binary p ∷ ms) (x ∷ xs) = IsAudioFrame x × (encode_audio_packet x ≡ ok p) × Carries ms xs

abbrev pub frames_of : List AudioFrame → ℕ
frames_of [] = 0
frames_of (x ∷ xs) = length x.samples / x.channels + frames_of xs

-- The frames that the client waits for, if it has had `k`.
abbrev pub awaited : ℕ → ℕ → List AudioFrame → List AudioFrame
awaited zero k xs = xs
awaited (suc n) k xs = take (suc n - k) xs

-- The client has counted `xs`, on top of `c`.
abbrev pub Counts : Client → List AudioFrame → Option (Result Client) → Type 0
Counts c xs r =
    (d : Client) × (r ≡ some (ok d))
    × (d.packets ≡ (c.packets + length xs) % 2 ^ 64)
    × (d.frames ≡ (c.frames + frames_of xs) % 2 ^ 64)

awaited-cons :
    (n k : ℕ) (x : AudioFrame) (xs : List AudioFrame)
    → (n ≡ 0) ⊎ (k < n)
    → awaited n k (x ∷ xs) ≡ x ∷ awaited n (suc k) xs
awaited-cons zero k x xs h = refl
awaited-cons (suc n) k x xs (inl e) = absurd (omega (arith, e))
awaited-cons (suc n) k x xs (inr l) =
    let e : suc n - k ≡ suc (suc n - suc k) = omega (arith, l) in ap (λ j. take j (x ∷ xs)) e

awaited-none : (n k : ℕ) (xs : List AudioFrame) → n ≢ 0 → n ≤ k → awaited n k xs ≡ []
awaited-none zero k xs a h = absurd (a refl)
awaited-none (suc n) k xs a h = let e : suc n - k ≡ 0 = omega (arith, h) in ap (λ j. take j xs) e

take-nil : (j : ℕ) → take {A = AudioFrame} j [] ≡ []
take-nil zero = refl
take-nil (suc j) = refl

awaited-nil : (n k : ℕ) → awaited n k [] ≡ []
awaited-nil zero k = refl
awaited-nil (suc n) k = take-nil (suc n - k)

counted :
    (p : List ℕ) (x : AudioFrame) (c : Client)
    → IsAudioFrame x
    → encode_audio_packet x ≡ ok p
    → take_packet p (decode_audio_packet p blank) c ≡ some (ok (count_packet p (info_of x) c))
unfolding take_packet
counted p x c w e = rw ((decode-encode x p blank w e).0) refl

has_channels : (p : List ℕ) (x : AudioFrame) → encode_audio_packet x ≡ ok p → 0 < x.channels
unfolding encode_audio_packet
has_channels p x e = ground arith

counted-Counts :
    (p : List ℕ) (x : AudioFrame) (c : Client) (xs : List AudioFrame) (r : Option (Result Client))
    → 0 < x.channels
    → Counts (count_packet p (info_of x) c) xs r
    → Counts c (x ∷ xs) r
unfolding count_packet
counted-Counts p x c xs r l (d, e, a, b) = (d, e, omega (arith, a), ground (arith, b))

client_from-binary :
    (n : ℕ) (p : List ℕ) (ms : List Incoming) (c c' : Client)
    → take_packet p (decode_audio_packet p blank) c ≡ some (ok c')
    → client_from n (binary p ∷ ms) c
      ≡ (if is_enough n c' then some (ok c') else client_from n ms c')
unfolding client_from
client_from-binary n p ms c c' e = ground arith

client_from-Counts :
    (n : ℕ) (ms : List Incoming) (xs : List AudioFrame) (c : Client)
    → Carries ms xs
    → c.packets + length xs < 2 ^ 64
    → (n ≡ 0) ⊎ (c.packets < n)
    → c.frames < 2 ^ 64
    → Counts c (awaited n c.packets xs) (client_from n ms c)
unfolding client_from is_enough count_packet
client_from-Counts n [] [] c h a o b =
    rw (awaited-nil n c.packets) (c, refl, omega (arith, a), omega (arith, b))
client_from-Counts n [] (x ∷ xs) c h a o b = absurd h
client_from-Counts n (text ∷ ms) xs c h a o b = client_from-Counts n ms xs c h a o b
client_from-Counts n (ends ∷ ms) xs c h a o b = absurd h
client_from-Counts n (breaks ∷ ms) xs c h a o b = absurd h
client_from-Counts n (binary p ∷ ms) [] c h a o b = absurd h
client_from-Counts n (binary p ∷ ms) (x ∷ xs) c (w, e, h) a o b =
    let c' = count_packet p (info_of x) c in
    rw (awaited-cons n c.packets x xs o) (
      subst (Counts c (x ∷ awaited n (suc c.packets) xs))
        (sym (client_from-binary n p ms c c' (counted p x c w e)))
        (counted-Counts p x c (awaited n (suc c.packets) xs) _ (has_channels p x e) (
          go (is_enough n c') refl (λ q.
            subst (λ k. Counts c' (awaited n k xs) (client_from n ms c')) (omega (arith, a))
              (client_from-Counts n ms xs c' h (omega (arith, a)) (ground arith) (omega arith))))))
  where
    go :
        (q : Bool)
        → is_enough n (count_packet p (info_of x) c) ≡ q
        → ((is_enough n (count_packet p (info_of x) c) ≡ false)
            → Counts
                (count_packet p (info_of x) c)
                (awaited n (suc c.packets) xs)
                (client_from n ms (count_packet p (info_of x) c)))
        → Counts (count_packet p (info_of x) c) (awaited n (suc c.packets) xs) (
            if q
            then some (ok (count_packet p (info_of x) c))
            else client_from n ms (count_packet p (info_of x) c))
    go true q rest =
        rw (awaited-none n (suc c.packets) xs (ground arith) (ground arith))
          (count_packet p (info_of x) c, refl, omega (arith, a), omega arith)
    go false q rest = rest q

-- Without a limit, for any number of packets.
pub client_from-all :
    (ms : List Incoming) (xs : List AudioFrame) (c : Client)
    → Carries ms xs
    → c.packets < 2 ^ 64
    → c.frames < 2 ^ 64
    → Counts c xs (client_from 0 ms c)
unfolding client_from is_enough count_packet
client_from-all [] [] c h a b = (c, refl, omega (arith, a), omega (arith, b))
client_from-all [] (x ∷ xs) c h a b = absurd h
client_from-all (text ∷ ms) xs c h a b = client_from-all ms xs c h a b
client_from-all (ends ∷ ms) xs c h a b = absurd h
client_from-all (breaks ∷ ms) xs c h a b = absurd h
client_from-all (binary p ∷ ms) [] c h a b = absurd h
client_from-all (binary p ∷ ms) (x ∷ xs) c (w, e, h) a b =
    let c' = count_packet p (info_of x) c in
    subst (Counts c (x ∷ xs)) (sym (client_from-binary 0 p ms c c' (counted p x c w e))) (
      counted-Counts p x c xs _ (has_channels p x e)
        (client_from-all ms xs c' h (omega arith) (omega arith)))

-- A client with `--max-packets n` (0 for no limit) that a server sends texts and the packets of well-formed
-- frames, fewer than 2^64, reads them without an exception and without leaving a packet's bytes; it
-- stops behind the packet number n, if there is one; and it has counted the packets and, modulo
-- 2^64, the frames of all of them up to there.
pub client_from-counts :
    (n : ℕ) (messages : List Incoming) (xs : List AudioFrame)
    → Carries messages xs
    → length xs < 2 ^ 64
    → (d : Client) × (client_from n messages fresh ≡ some (ok d))
      × (d.packets ≡ length (awaited n 0 xs) % 2 ^ 64)
      × (d.frames ≡ frames_of (awaited n 0 xs) % 2 ^ 64)
unfolding fresh
client_from-counts n messages xs h a =
    let (d, e, packets, frames) =
      client_from-Counts n messages xs fresh h (omega (arith, a)) (ground arith) (omega arith) in
    (d, e, omega (arith, packets), omega (arith, frames))
