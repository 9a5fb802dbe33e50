-- ===== src/Link/EndToEnd.antt =====
-- `Link::send` on one end, and `Link::recv` on the other.
use termblog.Prelude.{
  ℕ, ◌≤◌, sym, ◌∙◌, ◌≡◌, refl, false, List, [], ◌∷◌, ◌++◌, length, concat, All, ap,
}
use termblog.Proto.{Bytes, Frame, max_frame, encode}
use termblog.Link.{SendReply, sent, send_from, send, RecvReply, read, received, recv}
use termblog.Link.Sending.{NonEmpty, send_from-chunks, send_from-NonEmpty}
use termblog.Link.Reassembly.{deliver, bytes_of, recv-deliver}

-- no interruptions
plain : List Bytes → List (ℕ × Bytes)
plain [] = []
plain (c ∷ cs) = (0, c) ∷ plain cs

plain-NonEmpty : (cs : List Bytes) → All NonEmpty cs → All (λ p. NonEmpty p.1) (plain cs)
unfolding plain
plain-NonEmpty [] h = tt
plain-NonEmpty (c ∷ cs) h = (h.0, plain-NonEmpty cs h.1)

bytes_of-plain : (cs : List Bytes) → bytes_of (plain cs) ≡ concat cs
unfolding plain
bytes_of-plain [] = refl
bytes_of-plain (c ∷ cs) = ap (◌++◌ c) (bytes_of-plain cs)

abbrev pub reads : List Bytes → List RecvReply
reads [] = []
reads (c ∷ cs) = read c false ∷ reads cs

deliver-plain : (cs : List Bytes) → deliver (plain cs) [] ≡ reads cs
unfolding plain
deliver-plain [] = refl
deliver-plain (c ∷ cs) = ap (◌∷◌ (read c false)) (deliver-plain cs)

-- If the payload is within the limit and `send` reports success, the chunks that it put on the socket, whatever part of the message each
-- call took, are received as the frame that was sent.
pub recv-send :
    (f : Frame) (replies : List SendReply)
    → length f.payload ≤ max_frame
    → (send f replies).0 ≡ sent
    → recv (reads (send f replies).1) ≡ received f []
unfolding send
recv-send f replies small h =
    let cs = (send_from (encode f) replies).1 in
    ap recv (sym (deliver-plain cs))
    ∙ recv-deliver (plain cs) f [] small (plain-NonEmpty cs (send_from-NonEmpty replies (encode f)))
        (bytes_of-plain cs ∙ send_from-chunks replies (encode f) h)
