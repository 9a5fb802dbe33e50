-- ===== src/Commentd/Stored.antt =====
-- The stored comments of crates/servers/commentd/src/store.rs: their validation, one by one and as
-- replies to one another, their file format, and the packages that the store relies on.
use termblog.Prelude.{
  ℕ, Bool, true, false, not, ◌||◌, ltb, ◌==◌, within, if◌then◌else◌, List, [], ◌∷◌, ◌++◌, Option,
  none, some, Result, ok, err, ◌>>=◌, ◌>>◌, guard_not, ok_or, all, is_empty,
}
use termblog.Prelude.Text.{Str, eq, len, bytes}
use termblog.ContentModel.Validate.{is_ascii_digit}
use termblog.Commentd.Protocol.{Comment, max_comment_bytes, valid_target, find_seen}
use termblog.Commentd.Line.{normalize_controls, normalize_comment_controls}

pub data Status : Type 0 where
  pending approved deleted : Status

-- `==` on the statuses
abbrev pub is_pending : Status → Bool
is_pending pending = true
is_pending _ = false

abbrev pub is_approved : Status → Bool
is_approved approved = true
is_approved _ = false

pub record StoredComment : Type 0 where
  pub id : ℕ
  pub target : Str
  pub author : Str
  pub text : Str
  pub reply_to_id : Option ℕ
  pub ip_hash : Str
  pub created_at : Str
  pub status : Status

-- `StoredComment::view`
unfoldable pub view : StoredComment → Comment
view c = record {
  id = c.id;
  target = c.target;
  author = c.author;
  text = c.text;
  created_at = c.created_at;
  reply_to_id = c.reply_to_id;
}

-- The messages of the store that end a call with an error.
pub data StoreError : Type 0 where
  fail_stop ids_exhausted serialize_failed create_failed still_creating write_failed : StoreError
  directory_sync_failed not_utf8 : StoreError
  id_zero invalid_target invalid_length control_characters invalid_ip_hash created_at_invalid :
      StoreError
  line_empty invalid_json id_not_increasing : ℕ → StoreError
  parent_missing parent_crosses_target parent_not_approved : ℕ → StoreError

abbrev pub Checked : Type 0
Checked = Result StoreError (Unit {0})

-- What the store takes from serde_json, chrono, sha2 and the standard library's IP parser.
pub record Env : Type 1 where
  -- `DateTime<Utc>`
  pub Instant : Type 0
  -- `DateTime::parse_from_rfc3339`
  pub parse_time : Str → Option Instant
  -- `to_rfc3339_opts(SecondsFormat::Secs, true)`
  pub format_time : Instant → Str
  -- `now.signed_duration_since(t).num_seconds() <= seconds`
  pub elapsed_le : Instant → Instant → ℕ → Bool
  -- the lower-case hexadecimal digits of SHA-256
  pub digest : List ℕ → Str
  -- whether `parse::<IpAddr>()` succeeds
  pub is_ip : Str → Bool
  -- `serde_json::to_writer` and `serde_json::from_str` of a comment
  pub to_json : StoredComment → Option Str
  pub from_json : Str → Option StoredComment

-- `is_ascii_hexdigit`
abbrev pub is_ascii_hexdigit : ℕ → Bool
is_ascii_hexdigit c = is_ascii_digit c || within b'a' b'f' c || within b'A' b'F' c

-- the parent that a reply names, among the comments before it: `seen`
unfoldable pub check_parent : List (ℕ × (Str × Status)) → StoredComment → Checked
check_parent seen comment = elim comment.reply_to_id [
  | none ↦ ok tt
  | some parent_id ↦ elim (find_seen parent_id seen) [
    | none ↦ err (parent_missing comment.id)
    | some (parent_target, parent_status) ↦
        if not (eq parent_target comment.target)
        then err (parent_crosses_target comment.id)
        else if not (is_approved parent_status)
        then err (parent_not_approved comment.id)
        else ok tt
  ]
]

abbrev pub remember : StoredComment → List (ℕ × (Str × Status)) → List (ℕ × (Str × Status))
remember c seen = (c.id, (c.target, c.status)) ∷ seen

-- the loop of `validate_relations`
unfoldable pub relations_from : List (ℕ × (Str × Status)) → List StoredComment → Checked
unfolding check_parent
relations_from seen [] = ok tt
relations_from seen (c ∷ cs) = do check_parent seen c; relations_from (remember c seen) cs

unfoldable pub validate_relations : List StoredComment → Checked
validate_relations = relations_from []

module _ (env : Env) where
  open env use {Instant, parse_time, digest, to_json}

  abbrev time_checked : Option Instant → Checked
  time_checked none = err created_at_invalid
  time_checked (some t) = ok tt

  unfoldable pub validate_stored : StoredComment → Checked
  validate_stored c = do
    guard_not (c.id == 0) id_zero
    guard_not (not (valid_target c.target)) invalid_target
    guard_not
        (is_empty c.author
          || ltb 32 (len c.author)
          || is_empty c.text
          || ltb max_comment_bytes (len c.text))
        invalid_length
    guard_not
        (not (eq (normalize_controls c.author) c.author)
          || not (eq (normalize_comment_controls c.text) c.text))
        control_characters
    guard_not (not (len c.ip_hash == 64) || not (all is_ascii_hexdigit (bytes c.ip_hash)))
        invalid_ip_hash
    time_checked (parse_time c.created_at)

  -- The file: one line of JSON for each comment.
  unfoldable pub encode : List StoredComment → Result StoreError Str
  encode [] = ok []
  encode (c ∷ cs) = do
    line ← ok_or (to_json c) serialize_failed
    rest ← encode cs
    ok (line ++ (b'\n' ∷ rest))

  unfoldable pub revision : Str → Str
  revision text = digest (bytes text)

  unfoldable pub hash_ip : List ℕ → Str → Str
  hash_ip salt ip = digest (salt ++ bytes ip)
