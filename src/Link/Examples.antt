-- ===== src/Link/Examples.antt =====
-- The theorems on frames and links at concrete bytes.
use termblog.Prelude.{ℕ, ◌≤◌, ◌≡◌, ◌↔◌, refl, List, [], ◌∷◌, some, length, arith}
use termblog.Proto.{Bytes, Frame, max_frame, encode, decode_one}
use termblog.Proto.RoundTrip.{decode_one_iff}
use termblog.Link.{SendReply, took, sent, received, send_from, send, recv}
use termblog.Link.Sending.{send-sent}
use termblog.Link.Reassembly.{deliver, recv-deliver}
use termblog.Link.EndToEnd.{reads, recv-send}

abbrev frame : Frame
frame = record { kind = 2; payload = 104 ∷ 105 ∷ [] }

abbrev wire : Bytes
wire = 2 ∷ 0 ∷ 0 ∷ 0 ∷ 2 ∷ 104 ∷ 105 ∷ []

encode-frame : wire ≡ encode frame
unfolding encode
encode-frame = refl

decode_one_iff_example :
    (decode_one wire ≡ some frame) ↔ ((wire ≡ encode frame) × (length frame.payload ≤ max_frame))
decode_one_iff_example = decode_one_iff wire frame (
  omega arith,
  (omega arith, (omega arith, (omega arith, (omega arith, (omega arith, (omega arith, tt)))))),
)

-- three fragments, with two interruptions
abbrev fragments : List (ℕ × Bytes)
fragments = (1, 2 ∷ 0 ∷ []) ∷ (0, 0 ∷ 0 ∷ 2 ∷ 104 ∷ []) ∷ (1, 105 ∷ []) ∷ []

recv-deliver_example : recv (deliver fragments []) ≡ received frame []
recv-deliver_example =
    recv-deliver fragments frame [] (omega arith) ((λ e. cc), ((λ e. cc), ((λ e. cc), tt)))
      encode-frame

-- the socket takes three bytes, then the rest
abbrev takes : List SendReply
takes = took 3 ∷ took 100 ∷ []

send-frame : (send frame takes).0 ≡ sent
unfolding send send_from encode
send-frame = refl

recv-send_example : recv (reads (send frame takes).1) ≡ received frame []
recv-send_example = recv-send frame takes (omega arith) send-frame

-- as many answers as the message has bytes
abbrev slow_takes : List SendReply
slow_takes = took 1 ∷ took 1 ∷ took 2 ∷ took 1 ∷ took 1 ∷ took 1 ∷ took 1 ∷ []

send-sent_example : (send frame slow_takes).0 ≡ sent
send-sent_example =
    send-sent frame slow_takes
      (
        omega arith,
        (
          omega arith,
          (omega arith, (omega arith, (omega arith, (omega arith, (omega arith, tt))))),
        ),
      )
      (omega arith)
