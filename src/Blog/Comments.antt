-- ===== src/Blog/Comments.antt =====
-- crates/tools/jailbin/src/blog/comments.rs: the snapshot of the comments, read inside the jail.
pub mod Line
pub mod EndToEnd
use termblog.Prelude.{
  ℕ, ◌+◌, ◌-◌, Bool, true, false, not, ◌&&◌, ◌||◌, ltb, leb, ◌==◌, within, if◌then◌else◌, List, [],
  ◌∷◌, ◌++◌, Option, none, some, Result, ok, err, ◌>>=◌, ◌>>◌, guard_not, ok_or, filter, length,
  is_empty, drop,
}
use termblog.Prelude.Text.{Str, lit, eq, len, bytes}
use termblog.Prelude.Text.Order.{lines}
use termblog.ContentModel.Validate.{is_ascii_digit}
use termblog.Commentd.Protocol.{VisibleReply, checked_suc, number_of, valid_target}

abbrev pub max_shown : ℕ
max_shown = 100

pub record SnapshotComment : Type 0 where
  pub number : ℕ
  pub target : Str
  pub author : Str
  pub date10 : Str
  pub text : Str
  pub reply_to : Option VisibleReply

-- the messages of `load`, with the index of the line
pub data LoadError : Type 0 where
  line_empty invalid_json invalid_fields number_overflow not_contiguous : ℕ → LoadError
  reply_invalid reply_missing reply_mismatch : ℕ → LoadError

-- `as_bytes()[i] == b`, where there are enough bytes
abbrev pub byte_is : ℕ → ℕ → List ℕ → Bool
byte_is i b [] = false
byte_is ℕ.zero b (c ∷ bs) = c == b
byte_is (ℕ.suc i) b (c ∷ bs) = byte_is i b bs

-- `bytes().enumerate().all(…)`, from index `i` on
unfoldable pub digits_from : ℕ → List ℕ → Bool
digits_from i [] = true
digits_from i (b ∷ bs) =
    let rest = digits_from (i + 1) bs in (i == 4 || i == 7 || is_ascii_digit b) && rest

unfoldable pub valid_date10 : Str → Bool
valid_date10 s =
    len s == 10 && byte_is 4 b'-' (bytes s) && byte_is 7 b'-' (bytes s) && digits_from 0 (bytes s)

-- the map `seen`: the entry in front counts
unfoldable pub find_author : Str → ℕ → List ((Str × ℕ) × Str) → Option Str
find_author target number [] = none
find_author target number (((t, n), author) ∷ seen) =
    if eq t target && n == number then some author else find_author target number seen

abbrev pub bad_fields : SnapshotComment → Bool
bad_fields c =
    not (valid_target c.target)
    || is_empty c.author
    || ltb 32 (len c.author)
    || is_empty c.text
    || ltb 512 (len c.text)
    || not (valid_date10 c.date10)

-- the parent of a reply
unfoldable pub check_reply :
    ℕ → List ((Str × ℕ) × Str) → SnapshotComment → Result LoadError (Unit {0})
check_reply index seen c = elim c.reply_to [
  | none ↦ ok tt
  | some parent ↦
      guard_not (parent.number == 0 || is_empty parent.author || ltb 32 (len parent.author))
        (reply_invalid index)
      >> (ok_or (find_author c.target parent.number seen) (reply_missing index) >>= λ author.
          guard_not (not (eq author parent.author)) (reply_mismatch index))
]

-- `serde_json::from_str` is an argument
module _ (from_json : Str → Option SnapshotComment) where
  -- one round of the loop of `load`
  unfoldable pub load_line :
      ℕ → List (Str × ℕ) → List ((Str × ℕ) × Str) → Str → Result LoadError SnapshotComment
  load_line index numbers seen line = do
    guard_not (is_empty line) (line_empty index)
    c ← ok_or (from_json line) (invalid_json index)
    guard_not (bad_fields c) (invalid_fields index)
    next ← ok_or (checked_suc (number_of c.target numbers)) (number_overflow index)
    guard_not (not (c.number == next)) (not_contiguous index)
    check_reply index seen c
    ok c

  unfoldable pub load_lines :
      Str
      → ℕ
      → List (Str × ℕ)
      → List ((Str × ℕ) × Str)
      → List Str
      → Result LoadError (List SnapshotComment)
  load_lines target index numbers seen [] = ok []
  load_lines target index numbers seen (line ∷ rest) = do
    c ← load_line index numbers seen line
    out ←
        load_lines target (index + 1) ((c.target, c.number) ∷ numbers)
          (((c.target, c.number), c.author) ∷ seen) rest
    ok (if eq c.target target then c ∷ out else out)

  -- `load`, of the text of the file
  unfoldable pub load : Str → Str → Result LoadError (List SnapshotComment)
  load text target = load_lines target 0 [] [] (lines text)

-- `strip_controls`
unfoldable pub strip_controls : Str → Str
strip_controls = filter (λ c. not (within 0x00 0x1f c || within 0x7f 0x9f c))

unfoldable pub strip_comment_controls : Str → Str
strip_comment_controls = filter (λ c. c == b'\n' || not (within 0x00 0x1f c || within 0x7f 0x9f c))

-- `replace('\n', "\n    ")`
unfoldable pub indent_lines : Str → Str
indent_lines [] = []
indent_lines (c ∷ s) =
    let rest = indent_lines s in if c == b'\n' then lit "\n    " ++ rest else c ∷ rest

-- `display_text`; the printer of numbers is an argument
unfoldable pub display_text : (ℕ → Str) → SnapshotComment → Str
display_text show c =
    let text = indent_lines (strip_comment_controls c.text) in
    elim c.reply_to [
      | some parent ↦
          lit "(In reply to "
          ++ (strip_controls parent.author
              ++ (lit " from comment #" ++ (show parent.number ++ (lit "):\n    " ++ text))))
      | none ↦ text
    ]
