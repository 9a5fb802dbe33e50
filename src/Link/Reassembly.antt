-- ===== src/Link/Reassembly.antt =====
-- `Link::recv`: fragments are put together again.
use mathlib.Core.List.{append_assoc, append-nil}
use termblog.Prelude.{
  ℕ, suc, ◌≤◌, sym, ◌∙◌, ◌≡◌, ◌≢◌, refl, false, List, [], ◌∷◌, ◌++◌, none, some, length, ◌⊎◌, zero,
  All, arith, length-append, ap, inl, inr,
}
use termblog.Proto.{Bytes, Frame, max_frame, encode}
use termblog.Proto.RoundTrip.{decode_one-encode, from_be_bytes-put_u32}
use termblog.Link.{RecvReply, interrupted, read, received, declared_len, recv_from, recv}
use termblog.Link.Sending.{NonEmpty, length-encode}

-- A part of an encoded frame declares no length yet, or the length of the payload.
declared_len-encode :
    (acc rest : Bytes) (f : Frame)
    → length f.payload ≤ max_frame
    → acc ++ rest ≡ encode f
    → (declared_len acc ≡ none) ⊎ (declared_len acc ≡ some (length f.payload))
unfolding declared_len encode
declared_len-encode (k ∷ a ∷ b ∷ c ∷ d ∷ acc) rest f small e =
    let n = length f.payload in
    let back = from_be_bytes-put_u32 n (omega arith) in inr (cc (e, back))
declared_len-encode [] rest f small e = inl refl
declared_len-encode (k ∷ []) rest f small e = inl refl
declared_len-encode (k ∷ a ∷ []) rest f small e = inl refl
declared_len-encode (k ∷ a ∷ b ∷ []) rest f small e = inl refl
declared_len-encode (k ∷ a ∷ b ∷ c ∷ []) rest f small e = inl refl

-- The whole frame declares its length.
declared_len-whole :
    (f : Frame) → length f.payload ≤ max_frame → declared_len (encode f) ≡ some (length f.payload)
unfolding declared_len encode
declared_len-whole f small = ap some (from_be_bytes-put_u32 (length f.payload) (omega arith))

-- One more fragment, with more to come.
recv_from_more :
    (acc c rest : Bytes) (f : Frame) (replies : List RecvReply)
    → length f.payload ≤ max_frame
    → c ≢ []
    → rest ≢ []
    → (acc ++ c) ++ rest ≡ encode f
    → recv_from acc (read c false ∷ replies) ≡ recv_from (acc ++ c) replies
unfolding recv_from
recv_from_more acc [] rest f replies small ne more e = absurd (ne refl)
recv_from_more acc (b ∷ bs) [] f replies small ne more e = absurd (more refl)
recv_from_more acc (b ∷ bs) (r ∷ rs) f replies small ne more e =
    elim (declared_len-encode (acc ++ (b ∷ bs)) (r ∷ rs) f small e) [
      | inl n ↦ rw (n, recv_from)
      | inr n ↦
          ground (arith, n, ap length e, length-append (acc ++ (b ∷ bs)) (r ∷ rs), length-encode f)
    ]

-- The last fragment.
recv_from_last :
    (acc c : Bytes) (f : Frame) (replies : List RecvReply)
    → length f.payload ≤ max_frame
    → c ≢ []
    → acc ++ c ≡ encode f
    → recv_from acc (read c false ∷ replies) ≡ received f replies
unfolding recv_from
recv_from_last acc [] f replies small ne e = absurd (ne refl)
recv_from_last acc (b ∷ bs) f replies small ne e =
    ground (arith, e, declared_len-whole f small, length-encode f, decode_one-encode f small)

-- Fragments, each after some interruptions, and then `tail`.
abbrev pub interrupts : ℕ → List RecvReply → List RecvReply
interrupts zero rest = rest
interrupts (suc n) rest = interrupted ∷ interrupts n rest

abbrev pub deliver : List (ℕ × Bytes) → List RecvReply → List RecvReply
deliver [] tail = tail
deliver ((n, c) ∷ cs) tail = interrupts n (read c false ∷ deliver cs tail)

abbrev pub bytes_of : List (ℕ × Bytes) → Bytes
bytes_of [] = []
bytes_of ((n, c) ∷ cs) = c ++ bytes_of cs

recv_from-interrupts :
    (n : ℕ) (acc : Bytes) (rest : List RecvReply)
    → recv_from acc (interrupts n rest) ≡ recv_from acc rest
unfolding recv_from
recv_from-interrupts zero acc rest = refl
recv_from-interrupts (suc n) acc rest = recv_from-interrupts n acc rest

bytes_of-ne-nil : (cs : List (ℕ × Bytes)) → cs ≢ [] → All (λ p. NonEmpty p.1) cs → bytes_of cs ≢ []
bytes_of-ne-nil [] ne h e = ne refl
bytes_of-ne-nil ((n, []) ∷ cs) ne h e = h.0 refl
bytes_of-ne-nil ((n, b ∷ bs) ∷ cs) ne h e = cc

recv_from-deliver :
    (cs : List (ℕ × Bytes)) (acc : Bytes) (f : Frame) (tail : List RecvReply)
    → length f.payload ≤ max_frame
    → cs ≢ []
    → All (λ p. NonEmpty p.1) cs
    → acc ++ bytes_of cs ≡ encode f
    → recv_from acc (deliver cs tail) ≡ received f tail
recv_from-deliver [] acc f tail small ne h e = absurd (ne refl)
recv_from-deliver ((n, c) ∷ []) acc f tail small ne h e =
    recv_from-interrupts n acc (read c false ∷ tail)
    ∙ recv_from_last acc c f tail small h.0 (ap (◌++◌ acc) (sym (append-nil c)) ∙ e)
recv_from-deliver ((n, c) ∷ p ∷ cs) acc f tail small ne h e =
    let regrouped = append_assoc acc c (bytes_of (p ∷ cs)) ∙ e in
    recv_from-interrupts n acc (read c false ∷ deliver (p ∷ cs) tail)
    ∙ recv_from_more acc c (bytes_of (p ∷ cs)) f (deliver (p ∷ cs) tail) small h.0
        (bytes_of-ne-nil (p ∷ cs) (λ x. cc) h.1) regrouped
    ∙ recv_from-deliver (p ∷ cs) (acc ++ c) f tail small (λ x. cc) h.1 regrouped

encode-ne-nil : (f : Frame) → encode f ≢ []
unfolding encode
encode-ne-nil f e = cc

-- However the bytes of a frame within the limit are cut into non-empty fragments, and however often the calls are
-- interrupted in between, `recv` returns that frame, and asks for no answer beyond the last fragment.
pub recv-deliver :
    (cs : List (ℕ × Bytes)) (f : Frame) (tail : List RecvReply)
    → length f.payload ≤ max_frame
    → All (λ p. NonEmpty p.1) cs
    → bytes_of cs ≡ encode f
    → recv (deliver cs tail) ≡ received f tail
unfolding recv
recv-deliver [] f tail small h e = absurd (encode-ne-nil f (sym e))
recv-deliver (p ∷ cs) f tail small h e = recv_from-deliver (p ∷ cs) [] f tail small (λ x. cc) h e
