-- ===== src/Link.antt =====
-- crates/servers/core/src/link.rs: frames over a SEQPACKET socket that may accept a part of a
-- message, and may deliver a message in fragments. The socket's answers are a list; a future that
-- waits for a further answer is `pending`.
pub mod Sending
pub mod Reassembly
pub mod EndToEnd
mod Examples
use termblog.Prelude.{
  ℕ, ◌+◌, Bool, ltb, leb, ◌==◌, if◌then◌else◌, List, [], ◌∷◌, ◌++◌, Option, none, some, length,
  take, drop,
}
use termblog.Proto.{Bytes, Frame, max_frame, from_be_bytes, encode, decode_one}

-- What one `sock.send` answers: the number of bytes that it took, or an error.
pub data SendReply : Type 0 where
  took : ℕ → SendReply
  send_failed : SendReply

pub data SendResult : Type 0 where
  sent write_zero send_error send_pending : SendResult

-- The loop of `Link::send` on the bytes left, with the chunks that went out.
unfoldable pub send_from : Bytes → List SendReply → SendResult × List Bytes
send_from [] replies = (sent, [])
send_from (b ∷ wire) [] = (send_pending, [])
send_from (b ∷ wire) (send_failed ∷ replies) = (send_error, [])
send_from (b ∷ wire) (took n ∷ replies) =
    let rest = send_from (drop n (b ∷ wire)) replies in
    let more : SendResult × List Bytes = (rest.0, take n (b ∷ wire) ∷ rest.1) in
    if n == 0 then (write_zero, []) else more

unfoldable pub send : Frame → List SendReply → SendResult × List Bytes
send frame = send_from (encode frame)

-- What one `sock.recv` answers: interrupted, another error, or bytes with `truncated()`.
pub data RecvReply : Type 0 where
  interrupted recv_failed : RecvReply
  read : Bytes → Bool → RecvReply

pub data RecvResult : Type 0 where
  received : Frame → List RecvReply → RecvResult
  recv_error unexpected_eof frame_truncated length_exceeds spanned invalid_frame recv_pending :
      RecvResult

-- the length that the five header bytes declare, if they are there
unfoldable pub declared_len : Bytes → Option ℕ
declared_len (k ∷ a ∷ b ∷ c ∷ d ∷ rest) = some (from_be_bytes a b c d)
declared_len _ = none

abbrev finished : List RecvReply → Option Frame → RecvResult
finished replies none = invalid_frame
finished replies (some f) = received f replies

-- The loop of `Link::recv` on the bytes gathered; a frame comes with the answers not yet asked for.
unfoldable pub recv_from : Bytes → List RecvReply → RecvResult
unfolding declared_len
recv_from acc [] = recv_pending
recv_from acc (interrupted ∷ replies) = recv_from acc replies
recv_from acc (recv_failed ∷ replies) = recv_error
recv_from acc (read [] truncated ∷ replies) = unexpected_eof
recv_from acc (read (b ∷ bs) truncated ∷ replies) =
    let acc' = acc ++ (b ∷ bs) in
    let rest = recv_from acc' replies in
    if truncated then frame_truncated else elim (declared_len acc') [
      | none ↦ rest
      | some len ↦
          if ltb max_frame len
          then length_exceeds
          else if leb (5 + len) (length acc')
          then (if ltb (5 + len) (length acc') then spanned else finished replies (decode_one acc'))
          else rest
    ]

unfoldable pub recv : List RecvReply → RecvResult
recv = recv_from []
