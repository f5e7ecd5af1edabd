-- ===== src/Server/Capture/Packets.antt =====
-- Packets and frames as lists (`capture_loop` of board/ws_server.cpp).
use voice_edge_monitor.Base.{
  ℕ, suc, ◌+◌, ◌%◌, ◌^◌, ◌≡◌, refl, ap, List, [], ◌∷◌, ◌++◌, length, ok, arith,
}
use voice_edge_monitor.Audio.{AudioFrame, Floats}
use voice_edge_monitor.Segment.{Segmenter, hear, hear_frame}
use voice_edge_monitor.Protocol.{encode_audio_packet}
use voice_edge_monitor.Server.{
  Broadcast, vad_event, asr_notice, capture_reconnecting, capture_reconnected, packet,
}

-- The packets are the encoded frames, one for one and in order.
abbrev pub Encoded : List AudioFrame → List (List ℕ) → Type 0
Encoded [] [] = Unit
Encoded [] (p ∷ ps) = ⊥
Encoded (x ∷ xs) [] = ⊥
Encoded (x ∷ xs) (p ∷ ps) = (encode_audio_packet x ≡ ok p) × Encoded xs ps

pub Encoded-snoc :
    (xs : List AudioFrame) (ps : List (List ℕ)) (x : AudioFrame) (p : List ℕ)
    → Encoded xs ps
    → encode_audio_packet x ≡ ok p
    → Encoded (xs ++ x ∷ []) (ps ++ p ∷ [])
Encoded-snoc [] [] x p h e = (e, tt)
Encoded-snoc [] (q ∷ ps) x p h e = absurd h
Encoded-snoc (y ∷ ys) [] x p h e = absurd h
Encoded-snoc (y ∷ ys) (q ∷ ps) x p (h, hs) e = (h, Encoded-snoc ys ps x p hs e)

-- The frames carry consecutive sequence numbers, from `k` on.
abbrev pub Numbered : ℕ → List AudioFrame → Type 0
Numbered k [] = Unit
Numbered k (x ∷ xs) = (x.sequence ≡ k % 2 ^ 64) × Numbered (suc k) xs

pub Numbered-snoc :
    (k : ℕ) (xs : List AudioFrame) (x : AudioFrame)
    → Numbered k xs
    → x.sequence ≡ (k + length xs) % 2 ^ 64
    → Numbered k (xs ++ x ∷ [])
Numbered-snoc k [] x h e = (omega arith, tt)
Numbered-snoc k (y ∷ ys) x (h, hs) e = (h, Numbered-snoc (suc k) ys x hs (omega arith))

module _ {f : Floats} where
  abbrev pub packets_of : List (Broadcast f) → List (List ℕ)
  packets_of [] = []
  packets_of (vad_event e rms ∷ bs) = packets_of bs
  packets_of (asr_notice n ∷ bs) = packets_of bs
  packets_of (capture_reconnecting ∷ bs) = packets_of bs
  packets_of (capture_reconnected ∷ bs) = packets_of bs
  packets_of (packet p ∷ bs) = p ∷ packets_of bs

  pub packets_of-append :
      (bs cs : List (Broadcast f)) → packets_of (bs ++ cs) ≡ packets_of bs ++ packets_of cs
  packets_of-append [] cs = refl
  packets_of-append (vad_event e rms ∷ bs) cs = packets_of-append bs cs
  packets_of-append (asr_notice n ∷ bs) cs = packets_of-append bs cs
  packets_of-append (capture_reconnecting ∷ bs) cs = packets_of-append bs cs
  packets_of-append (capture_reconnected ∷ bs) cs = packets_of-append bs cs
  packets_of-append (packet p ∷ bs) cs = ap (◌∷◌ p) (packets_of-append bs cs)

  pub hear-snoc :
      (g : Segmenter f) (xs : List AudioFrame) (x : AudioFrame)
      → hear f g (xs ++ x ∷ []) ≡ hear_frame f (hear f g xs) x
  unfolding hear
  hear-snoc g [] x = refl
  hear-snoc g (y ∷ ys) x = hear-snoc (hear_frame f g y) ys x
