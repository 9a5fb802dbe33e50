-- ===== src/Commentd/Line.antt =====
-- The text of a submission, as crates/servers/commentd/src/store.rs reads it: control characters,
-- the author in front of a colon, and the number of a reply.
pub mod Clean
use termblog.Prelude.{
  ℕ, ◌+◌, ◌*◌, ◌-◌, not, ◌||◌, ltb, ◌==◌, if◌then◌else◌, [], ◌∷◌, Option, none, some, Result, ok,
  ◌>>=◌, ◌>>◌, guard_not, ok_or, filter, length, drop, is_empty,
}
use termblog.Prelude.Text.{Str, lit, strip_prefix, split_once, trim, is_control}
use termblog.ContentModel.Validate.{is_ascii_digit}
use termblog.Commentd.Protocol.{u64_max}

-- the messages of `reply_prefix`
pub data LineError : Type 0 where
  number_too_large number_zero reply_body_empty : LineError

pub record ParsedLine : Type 0 where
  pub author : Str
  pub text : Str
  pub reply_number : Option ℕ

unfoldable pub normalize_controls : Str → Str
normalize_controls = filter (λ c. not (is_control c))

unfoldable pub normalize_comment_controls : Str → Str
normalize_comment_controls = filter (λ c. c == b'\n' || not (is_control c))

-- `take_while(u8::is_ascii_digit)`, with what is left
unfoldable pub span_digits : Str → Str × Str
span_digits [] = ([], [])
span_digits (c ∷ s) =
    let rest = span_digits s in
    let more : Str × Str = (c ∷ rest.0, rest.1) in if is_ascii_digit c then more else ([], c ∷ s)

-- the value of a text of digits
unfoldable pub digits_value : ℕ → Str → ℕ
digits_value n [] = n
digits_value n (c ∷ s) = digits_value (n * 10 + (c - b'0')) s

-- `parse::<u64>()` of a text of digits
unfoldable pub parse_u64 : Str → Option ℕ
unfolding digits_value
parse_u64 s =
    let n = digits_value 0 s in if is_empty s then none else if ltb u64_max n then none else some n

-- the body behind `#`, if digits and a colon stand in front of it
unfoldable pub numbered_body : Str → Option (Str × Str)
unfolding span_digits
numbered_body rest =
    let (digits, after) = span_digits rest in
    if is_empty digits
    then none
    else elim (strip_prefix b':' after) [ none ↦ none | some body ↦ some (digits, body) ]

unfoldable pub number_of_reply : Str → Str → Result LineError (Option (ℕ × Str))
number_of_reply digits rest = do
  number ← ok_or (parse_u64 digits) number_too_large
  guard_not (number == 0) number_zero
  let body = trim rest
  guard_not (is_empty body) reply_body_empty
  ok (some (number, body))

unfoldable pub reply_prefix : Str → Result LineError (Option (ℕ × Str))
unfolding number_of_reply
reply_prefix text = elim (strip_prefix b'#' text) [
  | none ↦ ok none
  | some rest ↦ elim (numbered_body rest) [
    | none ↦ ok none
    | some (digits, body) ↦ number_of_reply digits body
  ]
]

abbrev first_or : Str → Option (Str × Str) → Str
first_or s none = s
first_or s (some (first, rest)) = first

-- the first physical line
abbrev pub first_line : Str → Str
first_line clean = first_or clean (split_once b'\n' clean)

abbrev pub guest_line : Str → ParsedLine
guest_line text = record { author = lit "guest"; text = text; reply_number = none }

abbrev pub with_author : Str → Str → Option (ℕ × Str) → ParsedLine
with_author author text none = record { author = author; text = text; reply_number = none }
with_author author text (some (number, body)) = record {
  author = author;
  text = body;
  reply_number = some number;
}

-- the line past `#N:`, with its first colon, if any, cut
unfoldable pub author_line : Str → Result LineError ParsedLine
author_line clean = elim (split_once b':' (first_line clean)) [
  | none ↦ ok (guest_line clean)
  | some (front, _) ↦
      let author = trim front in
      let text = trim (drop (length front + 1) clean) in
      let parsed : Result LineError ParsedLine = (do
        reply ← reply_prefix text
        ok (with_author author text reply)) in
      if not (is_empty author || is_empty text) then parsed else ok (guest_line clean)
]

abbrev pub reply_or_author : Str → Option (ℕ × Str) → Result LineError ParsedLine
reply_or_author clean none = author_line clean
reply_or_author clean (some (number, text)) =
    ok (record { author = lit "guest"; text = text; reply_number = some number })

unfoldable pub normalize_line : Str → Result LineError (Option ParsedLine)
unfolding author_line
normalize_line line =
    let clean = trim (normalize_comment_controls line) in
    if is_empty clean
    then ok none
    else do reply ← reply_prefix clean; parsed ← reply_or_author clean reply; ok (some parsed)
