-- ===== src/Proto.antt =====
-- crates/servers/proto/src/lib.rs: the frames between the access layer and jaild. A byte is a number
-- below 256. The JSON of the control frames is serde's, and stays a payload of bytes here.
pub mod RoundTrip
use termblog.Prelude.{
  ℕ, ◌+◌, ◌*◌, ◌/◌, ◌%◌, ◌^◌, not, ◌||◌, ltb, ◌==◌, if◌then◌else◌, List, [], ◌∷◌, ◌++◌, Option,
  none, some, length,
}

abbrev pub Bytes : Type 0
Bytes = List ℕ

abbrev pub kind_open : ℕ
kind_open = 0x01

abbrev pub kind_data : ℕ
kind_data = 0x02

abbrev pub kind_resize : ℕ
kind_resize = 0x03

abbrev pub kind_opened : ℕ
kind_opened = 0x04

abbrev pub kind_closed : ℕ
kind_closed = 0x05

abbrev pub kind_replay_end : ℕ
kind_replay_end = 0x06

pub record Frame : Type 0 where
  pub kind : ℕ
  pub payload : Bytes

-- `Frame::data`
abbrev pub data_frame : Bytes → Frame
data_frame b = record { kind = kind_data; payload = b }

-- `Frame::replay_end`
abbrev pub replay_end_frame : Frame
replay_end_frame = record { kind = kind_replay_end; payload = [] }

-- 1 << 20
abbrev pub max_frame : ℕ
max_frame = 2 ^ 20

-- `put_u32(n as u32)`: the low 32 bits, big endian
unfoldable pub put_u32 : ℕ → Bytes
put_u32 n = (n / 2 ^ 24 % 256) ∷ (n / 2 ^ 16 % 256) ∷ (n / 2 ^ 8 % 256) ∷ (n % 256) ∷ []

-- `u32::from_be_bytes`
unfoldable pub from_be_bytes : ℕ → ℕ → ℕ → ℕ → ℕ
from_be_bytes a b c d = a * 2 ^ 24 + b * 2 ^ 16 + c * 2 ^ 8 + d

unfoldable pub encode : Frame → Bytes
unfolding put_u32
encode f = f.kind ∷ (put_u32 (length f.payload) ++ f.payload)

unfoldable pub decode_one : Bytes → Option Frame
unfolding from_be_bytes
decode_one (k ∷ a ∷ b ∷ c ∷ d ∷ rest) =
    let len = from_be_bytes a b c d in
    if ltb max_frame len || not (length (k ∷ a ∷ b ∷ c ∷ d ∷ rest) == 5 + len)
    then none
    else some (record { kind = k; payload = rest })
decode_one _ = none
