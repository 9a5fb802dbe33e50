-- ===== src/Jaild/Fifo.antt =====
-- The comment FIFOs of crates/servers/jaild/src/session.rs: what a guest writes to one is put
-- together and submitted when the writer closes it.
pub mod Writes
use termblog.Prelude.{
  ℕ, suc, ◌+◌, Bool, true, false, not, ltb, ◌==◌, if◌then◌else◌, List, [], ◌∷◌, ◌++◌, Option, none,
  some, length, is_empty,
}
use termblog.Prelude.Text.{Str}
use termblog.Commentd.Protocol.{max_comment_bytes}

abbrev pub max_session_comments : ℕ
max_session_comments = 8

-- `payload` and `overflow` of one FIFO, and `accepted`, which the FIFOs of a session share
pub record Fifo : Type 0 where
  pub payload : List ℕ
  pub overflow : Bool
  pub accepted : ℕ

-- The messages of a refused write.
pub data Notice : Type 0 where
  too_long not_utf8 too_many : Notice

pub data Outcome : Type 0 where
  nothing : Outcome
  refused : Notice → Outcome
  submits : Str → Outcome

unfoldable pub buffer_fifo_bytes : List ℕ → Fifo → Fifo
buffer_fifo_bytes bytes f =
    if f.overflow
    then f
    else if ltb (max_comment_bytes + 2) (length f.payload + length bytes)
    then record f { payload = []; overflow = true }
    else record f { payload = f.payload ++ bytes }

-- `drain_fifo`: the reads until there is nothing more
unfoldable pub drain_fifo : List (List ℕ) → Fifo → Fifo
unfolding buffer_fifo_bytes
drain_fifo [] f = f
drain_fifo (b ∷ bs) f = drain_fifo bs (buffer_fifo_bytes b f)

-- `raw` without the byte at its end, if it is `b`
unfoldable pub pop_byte : ℕ → List ℕ → Option (List ℕ)
pop_byte b [] = none
pop_byte b (c ∷ []) = if c == b then some [] else none
pop_byte b (c ∷ d ∷ raw) = elim (pop_byte b (d ∷ raw)) [
  | none ↦ none
  | some front ↦ some (c ∷ front)
]

abbrev pub or_whole : List ℕ → Option (List ℕ) → List ℕ
or_whole raw none = raw
or_whole raw (some front) = front

-- `raw` without the line feed at its end, and the carriage return before it
unfoldable pub strip_line_end : List ℕ → List ℕ
unfolding pop_byte
strip_line_end raw = elim (pop_byte b'\n' raw) [
  | none ↦ raw
  | some front ↦ or_whole front (pop_byte b'\r' front)
]

-- `String::from_utf8` of the standard library
module _ (from_utf8 : List ℕ → Option Str) where
  -- the part of `finalize_fifo_write` behind the overflow and the empty payload
  unfoldable pub submit_raw : List ℕ → ℕ → Outcome × ℕ
  submit_raw raw accepted =
      if ltb max_comment_bytes (length raw)
      then (refused too_long, accepted)
      else elim (from_utf8 raw) [
        | none ↦ (refused not_utf8, accepted)
        | some text ↦
            if ltb accepted max_session_comments
            then (submits text, accepted + 1)
            else (refused too_many, accepted)
      ]

  unfoldable pub finalize_fifo_write : Fifo → Outcome × Fifo
  finalize_fifo_write f =
      let (outcome, accepted) = submit_raw (strip_line_end f.payload) f.accepted in
      if f.overflow
      then (refused too_long, record f { payload = []; overflow = false })
      else if is_empty f.payload
      then (nothing, f)
      else (outcome, record { payload = []; overflow = false; accepted = accepted })
