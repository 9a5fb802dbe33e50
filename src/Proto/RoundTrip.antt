-- ===== src/Proto/RoundTrip.antt =====
-- Frames survive the wire, and only whole frames decode.
use termblog.Prelude.{
  ℕ, ◌≤◌, ◌<◌, ◌/◌, ◌%◌, ◌^◌, sym, ◌∙◌, ◌≡◌, ◌↔◌, [], ◌∷◌, ◌++◌, some, length, All, arith, ap,
}
use termblog.Proto.{Bytes, Frame, max_frame, put_u32, from_be_bytes, encode, decode_one}

abbrev pub AreBytes : Bytes → Type 0
AreBytes = All (λ b. b < 256)

pub from_be_bytes-put_u32 :
    (n : ℕ)
    → n < 2 ^ 32
    → from_be_bytes (n / 2 ^ 24 % 256) (n / 2 ^ 16 % 256) (n / 2 ^ 8 % 256) (n % 256) ≡ n
unfolding from_be_bytes
from_be_bytes-put_u32 n h = omega arith

put_u32-from_be_bytes :
    (a b c d : ℕ)
    → a < 256
    → b < 256
    → c < 256
    → d < 256
    → put_u32 (from_be_bytes a b c d) ≡ a ∷ b ∷ c ∷ d ∷ []
unfolding put_u32 from_be_bytes
put_u32-from_be_bytes a b c d ha hb hc hd = ground arith

-- A frame within the limit is decoded from its encoding.
pub decode_one-encode : (f : Frame) → length f.payload ≤ max_frame → decode_one (encode f) ≡ some f
unfolding decode_one encode
decode_one-encode f h =
    let n = length f.payload in
    let e : from_be_bytes (n / 2 ^ 24 % 256) (n / 2 ^ 16 % 256) (n / 2 ^ 8 % 256) (n % 256) ≡ n =
      from_be_bytes-put_u32 n (omega arith) in
    rw e (ground arith)

decoded_parts :
    (k a b c d : ℕ) (rest : Bytes) (f : Frame)
    → decode_one (k ∷ a ∷ b ∷ c ∷ d ∷ rest) ≡ some f
    → (f ≡ record { kind = k; payload = rest })
      × (length rest ≡ from_be_bytes a b c d)
      × (length rest ≤ max_frame)
unfolding decode_one
decoded_parts k a b c d rest f h = ground arith

decode_one_sound :
    (m : Bytes) (f : Frame)
    → AreBytes m
    → decode_one m ≡ some f
    → (m ≡ encode f) × (length f.payload ≤ max_frame)
decode_one_sound [] f v h = absurd (unfold decode_one in cc)
decode_one_sound (k ∷ []) f v h = absurd (unfold decode_one in cc)
decode_one_sound (k ∷ a ∷ []) f v h = absurd (unfold decode_one in cc)
decode_one_sound (k ∷ a ∷ b ∷ []) f v h = absurd (unfold decode_one in cc)
decode_one_sound (k ∷ a ∷ b ∷ c ∷ []) f v h = absurd (unfold decode_one in cc)
decode_one_sound (k ∷ a ∷ b ∷ c ∷ d ∷ rest) f v h =
    let (f_is, size, small) = decoded_parts k a b c d rest f h in
    rw f_is (
      unfold encode in
          ap (λ p. k ∷ (p ++ rest))
            (sym (put_u32-from_be_bytes a b c d v.1.0 v.1.1.0 v.1.1.1.0 v.1.1.1.1.0)
              ∙ ap put_u32 (sym size)),
      small,
    )

-- A message of bytes decodes to a frame exactly if it is the encoding of that frame, and the payload
-- has at most 2^20 bytes; so a truncated, an extended or an oversized message is refused.
pub decode_one_iff :
    (m : Bytes) (f : Frame)
    → AreBytes m
    → (decode_one m ≡ some f) ↔ ((m ≡ encode f) × (length f.payload ≤ max_frame))
decode_one_iff m f v = (decode_one_sound m f v, λ h. rw h.0 (decode_one-encode f h.1))
