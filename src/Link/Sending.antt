-- ===== src/Link/Sending.antt =====
-- `Link::send`: what goes out on the socket.
use termblog.Prelude.{
  ℕ, suc, ◌+◌, ◌≤◌, ◌<◌, ◌≡◌, ◌≢◌, refl, List, [], ◌∷◌, length, take, drop, concat, zero, All,
  arith, take-append-drop, length-drop, Bool-cases, inl, inr, ◌==◌,
}
use termblog.Proto.{Bytes, Frame, encode}
use termblog.Link.{SendReply, took, send_failed, sent, send_from, send}

-- The chunks are the wire, cut.
pub send_from-chunks :
    (replies : List SendReply) (wire : Bytes)
    → (send_from wire replies).0 ≡ sent
    → concat (send_from wire replies).1 ≡ wire
unfolding send_from
send_from-chunks replies [] h = refl
send_from-chunks [] (b ∷ wire) h = absurd (cc h)
send_from-chunks (send_failed ∷ replies) (b ∷ wire) h = absurd (cc h)
send_from-chunks (took n ∷ replies) (b ∷ wire) h =
    ground (arith, send_from-chunks replies (drop n (b ∷ wire)), take-append-drop n (b ∷ wire))

abbrev pub NonEmpty : Bytes → Type 0
NonEmpty c = c ≢ []

take-NonEmpty : (n b : ℕ) (wire : Bytes) → n ≢ 0 → take n (b ∷ wire) ≢ []
take-NonEmpty zero b wire h e = h refl
take-NonEmpty (suc n) b wire h e = cc

-- No chunk is empty.
pub send_from-NonEmpty :
    (replies : List SendReply) (wire : Bytes) → All NonEmpty (send_from wire replies).1
unfolding send_from
send_from-NonEmpty replies [] = tt
send_from-NonEmpty [] (b ∷ wire) = tt
send_from-NonEmpty (send_failed ∷ replies) (b ∷ wire) = tt
send_from-NonEmpty (took n ∷ replies) (b ∷ wire) = elim (Bool-cases (n == 0)) [
  | inl e ↦ rw (e, send_from) tt
  | inr e ↦
      rw (e, send_from)
        (take-NonEmpty n b wire (ground arith), send_from-NonEmpty replies (drop n (b ∷ wire)))
]

pub length-encode : (f : Frame) → length (encode f) ≡ 5 + length f.payload
unfolding encode
length-encode f = omega arith

-- each call takes at least one byte
abbrev pub Progresses : List SendReply → Type 0
Progresses [] = Unit
Progresses (took n ∷ replies) = (0 < n) × Progresses replies
Progresses (send_failed ∷ replies) = ⊥

send_from-sent :
    (replies : List SendReply) (wire : Bytes)
    → Progresses replies
    → length wire ≤ length replies
    → (send_from wire replies).0 ≡ sent
unfolding send_from
send_from-sent replies [] h k = refl
send_from-sent [] (b ∷ wire) h k = absurd (omega arith)
send_from-sent (send_failed ∷ replies) (b ∷ wire) h k = absurd h
send_from-sent (took n ∷ replies) (b ∷ wire) h k =
    ground (arith, send_from-sent replies (drop n (b ∷ wire)) h.1, length-drop n (b ∷ wire))

-- The loop of `send` ends with success once the socket has taken at least one byte in as many calls
-- as the message has bytes.
pub send-sent :
    (f : Frame) (replies : List SendReply)
    → Progresses replies
    → length f.payload + 5 ≤ length replies
    → (send f replies).0 ≡ sent
unfolding send
send-sent f replies h k = send_from-sent replies (encode f) h (omega (arith, length-encode f))
