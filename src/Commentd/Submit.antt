-- ===== src/Commentd/Submit.antt =====
-- `Store::submit` of crates/servers/commentd/src/store.rs.
pub mod Admission
pub mod Branches
pub mod Accepted
use termblog.Prelude.{
  ℕ, ◌+◌, ◌-◌, Bool, true, false, not, ◌&&◌, ◌||◌, ltb, leb, ◌==◌, if◌then◌else◌, List, [], ◌∷◌,
  ◌++◌, map, Option, none, some, Result, ok, err, ◌>>=◌, ◌>>◌, guard_not, ok_or, filter, any,
  length, last, is_empty, take, drop,
}
use termblog.Prelude.Text.{Str, lit, eq, len}
use termblog.Prelude.Text.Order.{lines}
use termblog.Commentd.Protocol.{
  Comment, VisibleComment, VisibleError, max_comment_bytes, valid_target, checked_suc, page_limit,
  visible_comments, unwrap_or, LimitError,
}
use termblog.Commentd.Line.{LineError, ParsedLine, normalize_line}
use termblog.Commentd.Stored.{
  Env, Status, pending, approved, deleted, is_pending, is_approved, StoredComment, view, StoreError,
  fail_stop, ids_exhausted, create_failed, still_creating, write_failed, directory_sync_failed,
  not_utf8, line_empty, invalid_json, id_not_increasing, validate_relations, validate_stored,
  encode, revision, hash_ip,
}
use termblog.Commentd.Store.{Store, CommitIo, commit}

pub record SubmitRequest : Type 0 where
  pub target : Str
  pub line : Str
  pub ip : Str

-- The messages of a refused submission.
pub data Rejection : Type 0 where
  invalid_target comment_too_long invalid_ip body_empty author_too_long body_too_long : Rejection
  rate_limited duplicate_content : Rejection
  bad_line : LineError → Rejection
  no_such_comment : ℕ → Rejection

-- `ok` is `accepted`; `notice` is the rejection with "Comment not submitted: " before it, or the acceptance.
pub record SubmitResponse : Type 0 where
  pub accepted : Bool
  pub id : Option ℕ
  pub error : Option Rejection

-- `resolve_reply_id`, from `number` on
unfoldable pub resolve_from : ℕ → Str → ℕ → List StoredComment → Option ℕ
resolve_from number target wanted [] = none
resolve_from number target wanted (c ∷ cs) =
    let skipped = resolve_from number target wanted cs in
    let counted = resolve_from (number + 1) target wanted cs in
    if is_approved c.status && eq c.target target
    then elim (checked_suc number) [
      | none ↦ none
      | some n ↦ if n == wanted then some c.id else counted
    ]
    else skipped

unfoldable pub resolve_reply_id : List StoredComment → Str → ℕ → Option ℕ
resolve_reply_id comments target wanted = resolve_from 0 target wanted comments

-- `==` on the optional parents
abbrev pub same_reply : Option ℕ → Option ℕ → Bool
same_reply none none = true
same_reply none (some b) = false
same_reply (some a) none = false
same_reply (some a) (some b) = a == b

-- What an admitted submission adds to the store.
pub record Draft : Type 0 where
  pub target : Str
  pub author : Str
  pub text : Str
  pub reply_to_id : Option ℕ
  pub ip_hash : Str

-- `last().map_or(Some(1), |c| c.id.checked_add(1))`
unfoldable pub next_id : List StoredComment → Option ℕ
next_id comments = elim (last comments) [ none ↦ some 1 | some c ↦ checked_suc c.id ]

abbrev pub reply_id : List StoredComment → Str → Option ℕ → Result Rejection (Option ℕ)
reply_id comments target none = ok none
reply_id comments target (some number) = elim (resolve_reply_id comments target number) [
  | some id ↦ ok (some id)
  | none ↦ err (no_such_comment number)
]

abbrev pub parsed_line : Result LineError (Option ParsedLine) → Result Rejection ParsedLine
parsed_line (ok (some parsed)) = ok parsed
parsed_line (ok none) = err body_empty
parsed_line (err e) = err (bad_line e)

abbrev pub rejected : Rejection → SubmitResponse
rejected reason = record { accepted = false; id = none; error = some reason }

-- the answer of `submit`, once the commit has answered
abbrev pub submitted :
    ℕ → Result StoreError (Unit {0}) × Store → Result StoreError SubmitResponse × Store
submitted id (ok _, s) = (ok (record { accepted = true; id = some id; error = none }), s)
submitted id (err e, s) = (err e, s)

module _ (env : Env) where
  open env use {Instant, parse_time, format_time, elapsed_le, is_ip}

  -- the closure `recent`
  unfoldable pub recent : Instant → StoredComment → ℕ → Bool
  recent now c seconds = elim (parse_time c.created_at) [
    | none ↦ false
    | some t ↦ elapsed_le now t seconds
  ]

  -- the comments of one source within the last hour
  unfoldable pub recent_count : Instant → Str → List StoredComment → ℕ
  recent_count now ip_hash comments =
      length (filter (λ c. eq c.ip_hash ip_hash && recent now c 3600) comments)

  -- whether the same content came from the same source within the last five minutes
  unfoldable pub is_duplicate : Instant → Draft → List StoredComment → Bool
  is_duplicate now draft = any λ c.
      eq c.ip_hash draft.ip_hash
      && eq c.target draft.target
      && eq c.text draft.text
      && same_reply c.reply_to_id draft.reply_to_id
      && recent now c 300

  -- The checks of `submit`, up to the comment to be stored (its ID and its time are still to be given).
  unfoldable pub admit : Instant → Store → SubmitRequest → Result Rejection Draft
  admit now s req = do
    guard_not (not (valid_target req.target)) invalid_target
    guard_not (ltb max_comment_bytes (len req.line)) comment_too_long
    guard_not (not (is_ip req.ip)) invalid_ip
    parsed ← parsed_line (normalize_line req.line)
    guard_not (ltb 32 (len parsed.author)) author_too_long
    guard_not (ltb max_comment_bytes (len parsed.text)) body_too_long
    reply_to_id ← reply_id s.comments req.target parsed.reply_number
    let draft : Draft = record {
      target = req.target;
      author = parsed.author;
      text = parsed.text;
      reply_to_id = reply_to_id;
      ip_hash = hash_ip env s.salt req.ip;
    }
    guard_not (leb 10 (recent_count now draft.ip_hash s.comments)) rate_limited
    guard_not (is_duplicate now draft s.comments) duplicate_content
    ok draft

  abbrev pub stored_of : Instant → Draft → ℕ → StoredComment
  stored_of now draft id = record {
    id = id;
    target = draft.target;
    author = draft.author;
    text = draft.text;
    reply_to_id = draft.reply_to_id;
    ip_hash = draft.ip_hash;
    created_at = format_time now;
    status = pending;
  }

  unfoldable pub store_draft :
      Instant → CommitIo → Store → Draft → Result StoreError SubmitResponse × Store
  store_draft now io s draft = elim (next_id s.comments) [
    | none ↦ (err ids_exhausted, s)
    | some id ↦ submitted id (commit env io (s.comments ++ (stored_of now draft id ∷ [])) s)
  ]

  unfoldable pub submit :
      Instant → CommitIo → Store → SubmitRequest → Result StoreError SubmitResponse × Store
  unfolding store_draft
  submit now io s req = if s.poisoned then (err fail_stop, s) else elim (admit now s req) [
    | err reason ↦ (ok (rejected reason), s)
    | ok draft ↦ store_draft now io s draft
  ]
