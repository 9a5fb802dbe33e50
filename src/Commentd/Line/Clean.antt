-- ===== src/Commentd/Line/Clean.antt =====
-- A parsed line satisfies what is asked of a stored comment.
use termblog.Prelude.{
  ℕ, ◌+◌, ◌≡◌, ◌≢◌, refl, ap, sym, ◌∙◌, subst, ◌⊎◌, inl, inr, true, false, not, ◌||◌, ◌==◌, [], ◌∷◌,
  Option, none, some, ok, All, All-append_front, drop, length, is_empty, arith, Bool-cases,
  Option-cases, Result-cases,
}
use termblog.Prelude.Text.{Str, lit, contains, strip_prefix, split_once, trim, is_control}
use termblog.Prelude.Text.Splitting.{split_once_sound, split_once-none, split_once-front}
use termblog.Prelude.Text.Trimming.{All-trim, All-drop}
use termblog.ContentModel.Validate.{is_ascii_digit}
use termblog.Commentd.Line.{
  ParsedLine, normalize_controls, normalize_comment_controls, span_digits, numbered_body,
  number_of_reply, reply_prefix, first_line, guest_line, with_author, author_line, reply_or_author,
  normalize_line,
}

abbrev pub IsBodyChar : ℕ → Type 0
IsBodyChar c = (c == b'\n' || not (is_control c)) ≡ true

abbrev pub IsNameChar : ℕ → Type 0
IsNameChar c = not (is_control c) ≡ true

-- what `validate_stored` asks of the author and of the text, but for their lengths
pub record IsClean (p : ParsedLine) : Type 0 where
  pub author_ne_nil : p.author ≢ []
  pub author_chars : All IsNameChar p.author
  pub text_ne_nil : p.text ≢ []
  pub text_chars : All IsBodyChar p.text

normalize_comment_controls-All : (s : Str) → All IsBodyChar (normalize_comment_controls s)
unfolding normalize_comment_controls
normalize_comment_controls-All [] = tt
normalize_comment_controls-All (c ∷ s) = elim (Bool-cases (c == b'\n' || not (is_control c))) [
  | inl e ↦ rw (e, normalize_comment_controls) (e, normalize_comment_controls-All s)
  | inr e ↦ rw (e, normalize_comment_controls) (normalize_comment_controls-All s)
]

pub normalize_comment_controls_id : (s : Str) → All IsBodyChar s → normalize_comment_controls s ≡ s
unfolding normalize_comment_controls
normalize_comment_controls_id [] h = refl
normalize_comment_controls_id (c ∷ s) h =
    rw (h.0, normalize_comment_controls) (ap (◌∷◌ c) (normalize_comment_controls_id s h.1))

pub normalize_controls_id : (s : Str) → All IsNameChar s → normalize_controls s ≡ s
unfolding normalize_controls
normalize_controls_id [] h = refl
normalize_controls_id (c ∷ s) h =
    rw (h.0, normalize_controls) (ap (◌∷◌ c) (normalize_controls_id s h.1))

name_of_body : (s : Str) → All IsBodyChar s → contains b'\n' s ≡ false → All IsNameChar s
name_of_body [] h k = tt
name_of_body (c ∷ s) h k = ground (arith, name_of_body s h.1)

module _ {κ} (P : ℕ → Type κ) where
  All-span_digits : (s : Str) → All P s → All P (span_digits s).1
  unfolding span_digits
  All-span_digits [] h = tt
  All-span_digits (c ∷ s) h = elim (Bool-cases (is_ascii_digit c)) [
    | inl e ↦ rw (e, span_digits) (All-span_digits s h.1)
    | inr e ↦ rw (e, span_digits) h
  ]

strip_prefix_sound : (c : ℕ) (s : Str) {t : Str} → strip_prefix c s ≡ some t → s ≡ c ∷ t
strip_prefix_sound c [] h = absurd (cc h)
strip_prefix_sound c (d ∷ s) h = ground arith

numbered_parts :
    (s digits body : Str)
    → numbered_body s ≡ some (digits, body)
    → strip_prefix b':' (span_digits s).1 ≡ some body
unfolding numbered_body
numbered_parts s digits body e = ground arith

numbered_body-All :
    (s digits body : Str)
    → All IsBodyChar s
    → numbered_body s ≡ some (digits, body)
    → All IsBodyChar body
numbered_body-All s digits body h e =
    let after_is = strip_prefix_sound b':' (span_digits s).1 (numbered_parts s digits body e) in
    let after : All IsBodyChar (b':' ∷ body) =
      subst (All IsBodyChar) after_is (All-span_digits IsBodyChar s h) in
    after.1

-- a body that a parser returned
record IsBody (s : Str) : Type 0 where
  ne_nil : s ≢ []
  chars : All IsBodyChar s

is_empty-false : (s : Str) → is_empty s ≡ false → s ≢ []
is_empty-false [] h e = cc
is_empty-false (c ∷ s) h e = cc

reply_parts :
    (digits rest body : Str) (n : ℕ)
    → number_of_reply digits rest ≡ ok (some (n, body))
    → (body ≡ trim rest) × (is_empty (trim rest) ≡ false) × (n ≢ 0)
unfolding number_of_reply
reply_parts digits rest body n h = ground arith

number_of_reply-IsBody :
    (digits rest body : Str) (n : ℕ)
    → All IsBodyChar rest
    → number_of_reply digits rest ≡ ok (some (n, body))
    → IsBody body
number_of_reply-IsBody digits rest body n h e =
    let (is, more, _) = reply_parts digits rest body n e in
    rw is (record { ne_nil = is_empty-false (trim rest) more; chars = All-trim IsBodyChar rest h })

reply_prefix-IsBody :
    (text body : Str) (n : ℕ)
    → All IsBodyChar text
    → reply_prefix text ≡ ok (some (n, body))
    → IsBody body
unfolding reply_prefix
reply_prefix-IsBody text body n h e = elim (Option-cases (strip_prefix b'#' text)) [
  | inl k ↦ absurd (ground arith)
  | inr (rest, k) ↦
      let tail : All IsBodyChar (b'#' ∷ rest) =
        subst (All IsBodyChar) (strip_prefix_sound b'#' text k) h in
      elim (Option-cases (numbered_body rest)) [
        | inl m ↦ absurd (ground arith)
        | inr ((digits, after), m) ↦
            number_of_reply-IsBody digits after body n
              (numbered_body-All rest digits after tail.1 m) (ground arith)
      ]
]

guest_ne_nil : lit "guest" ≢ []
guest_ne_nil e = cc

first_line_name : (s : Str) → All IsBodyChar s → All IsNameChar (first_line s)
first_line_name s h = elim (Option-cases (split_once b'\n' s)) [
  | inl n ↦ rw n (name_of_body s h (split_once-none b'\n' s n))
  | inr ((a, b), k) ↦ rw k (
      name_of_body a
        (All-append_front IsBodyChar a (b'\n' ∷ b)
          (subst (All IsBodyChar) (split_once_sound b'\n' s k) h))
        (split_once-front b'\n' s k))
]

guest-IsClean :
    (text : Str) (n : Option ℕ)
    → IsBody text
    → IsClean (record { author = lit "guest"; text = text; reply_number = n })
guest-IsClean text n b = record {
  author_ne_nil = guest_ne_nil;
  author_chars = (refl, (refl, (refl, (refl, (refl, tt)))));
  text_ne_nil = b.ne_nil;
  text_chars = b.chars;
}

with_author-IsClean :
    (author text : Str) (reply : Option (ℕ × Str))
    → author ≢ []
    → All IsNameChar author
    → IsBody text
    → ((n : ℕ) (body : Str) → reply ≡ some (n, body) → IsBody body)
    → IsClean (with_author author text reply)
with_author-IsClean author text none ne chars b k = record {
  author_ne_nil = ne;
  author_chars = chars;
  text_ne_nil = b.ne_nil;
  text_chars = b.chars;
}
with_author-IsClean author text (some (n, body)) ne chars b k =
    let c = k n body refl in
    record {
      author_ne_nil = ne;
      author_chars = chars;
      text_ne_nil = c.ne_nil;
      text_chars = c.chars;
    }

-- what stands behind the colon, and in front of it
author_parts :
    (clean front back : Str) (p : ParsedLine)
    → split_once b':' (first_line clean) ≡ some (front, back)
    → author_line clean ≡ ok p
    → (p ≡ guest_line clean)
      ⊎ ((reply : Option (ℕ × Str)) × (is_empty (trim front) ≡ false)
          × (is_empty (trim (drop (length front + 1) clean)) ≡ false)
          × (reply_prefix (trim (drop (length front + 1) clean)) ≡ ok reply)
          × (p ≡ with_author (trim front) (trim (drop (length front + 1) clean)) reply))
unfolding author_line
author_parts clean front back p k h =
    elim (Result-cases (reply_prefix (trim (drop (length front + 1) clean)))) [
      | inl (reply, e) ↦
          elim (Bool-cases
            (is_empty (trim front) || is_empty (trim (drop (length front + 1) clean)))) [
              | inl m ↦ inl (ground arith)
              | inr m ↦ inr (reply, ground arith, ground arith, e, ground arith)
            ]
      | inr (x, e) ↦ inl (ground arith)
    ]

author_line-IsClean :
    (clean : Str) (p : ParsedLine) → IsBody clean → author_line clean ≡ ok p → IsClean p
author_line-IsClean clean p b h = elim (Option-cases (split_once b':' (first_line clean))) [
  | inl n ↦
      let e : guest_line clean ≡ p = unfold author_line in ground arith in
      subst IsClean e (guest-IsClean clean none b)
  | inr ((front, back), k) ↦ elim (author_parts clean front back p k h) [
    | inl e ↦ subst IsClean (sym e) (guest-IsClean clean none b)
    | inr (reply, name, body, parsed, e) ↦
        let name_chars = All-append_front IsNameChar front (b':' ∷ back) (
          subst (All IsNameChar) (split_once_sound b':' (first_line clean) k)
            (first_line_name clean b.chars)) in
        let chars = All-trim IsBodyChar _ (All-drop IsBodyChar (length front + 1) clean b.chars) in
        subst IsClean (sym e) (
          with_author-IsClean (trim front) (trim (drop (length front + 1) clean)) reply
            (is_empty-false _ name) (All-trim IsNameChar front name_chars)
            (record { ne_nil = is_empty-false _ body; chars = chars })
            (λ n r m. reply_prefix-IsBody _ r n chars (parsed ∙ ap ok m)))
  ]
]

reply_or_author-IsClean :
    (clean : Str) (reply : Option (ℕ × Str)) (p : ParsedLine)
    → IsBody clean
    → reply_prefix clean ≡ ok reply
    → reply_or_author clean reply ≡ ok p
    → IsClean p
reply_or_author-IsClean clean none p b r h = author_line-IsClean clean p b h
reply_or_author-IsClean clean (some (n, text)) p b r h =
    let e : record { author = lit "guest"; text = text; reply_number = some n } ≡ p = cc h in
    subst IsClean e (guest-IsClean text (some n) (reply_prefix-IsBody clean text n b.chars r))

line_parts :
    (line : Str) (p : ParsedLine)
    → normalize_line line ≡ ok (some p)
    → (reply : Option (ℕ × Str)) × (is_empty (trim (normalize_comment_controls line)) ≡ false)
      × (reply_prefix (trim (normalize_comment_controls line)) ≡ ok reply)
      × (reply_or_author (trim (normalize_comment_controls line)) reply ≡ ok p)
unfolding normalize_line
line_parts line p h = elim (Result-cases (reply_prefix (trim (normalize_comment_controls line)))) [
  | inl (reply, e) ↦
      elim (Result-cases (reply_or_author (trim (normalize_comment_controls line)) reply)) [
        | inl (q, k) ↦ (reply, ground arith, e, ground arith)
        | inr (x, k) ↦ absurd (ground arith)
      ]
  | inr (x, e) ↦ absurd (ground arith)
]

-- What a line is parsed to has an author and a text that are not empty, an author with no control
-- character and a text with none but line feeds.
pub normalize_line-IsClean :
    (line : Str) (p : ParsedLine) → normalize_line line ≡ ok (some p) → IsClean p
normalize_line-IsClean line p h =
    let (reply, more, r, e) = line_parts line p h in
    let clean : IsBody (trim (normalize_comment_controls line)) = record {
      ne_nil = is_empty-false _ more;
      chars = All-trim IsBodyChar _ (normalize_comment_controls-All line);
    } in
    reply_or_author-IsClean (trim (normalize_comment_controls line)) reply p clean r e
