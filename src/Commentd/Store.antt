-- ===== src/Commentd/Store.antt =====
-- crates/servers/commentd/src/store.rs: the state of the store, and its commit. The directory is
-- represented by the text of `comments.jsonl`; what the file system answers is an argument.
pub mod Commit
use termblog.Prelude.{
  ℕ, ◌+◌, ◌-◌, Bool, true, false, not, ◌&&◌, ◌||◌, ltb, leb, ◌==◌, if◌then◌else◌, List, [], ◌∷◌,
  ◌++◌, map, Option, none, some, Result, ok, err, ◌>>=◌, ◌>>◌, guard_not, ok_or, filter, any,
  length, last, is_empty, take, drop,
}
use termblog.Prelude.Text.{Str, lit, eq, len}
use termblog.Prelude.Text.Order.{lines}
use termblog.Commentd.Protocol.{
  Comment, VisibleComment, VisibleError, max_comment_bytes, valid_target, checked_suc, page_limit,
  visible_comments, unwrap_or, LimitError,
}
use termblog.Commentd.Line.{LineError, ParsedLine, normalize_line}
use termblog.Commentd.Stored.{
  Env, Status, pending, approved, deleted, is_pending, is_approved, StoredComment, view, StoreError,
  fail_stop, ids_exhausted, create_failed, still_creating, write_failed, directory_sync_failed,
  not_utf8, line_empty, invalid_json, id_not_increasing, validate_relations, validate_stored,
  encode, revision, hash_ip,
}

pub record Store : Type 0 where
  pub data_file : Str
  pub salt : List ℕ
  pub comments : List StoredComment
  pub revision : Str
  pub poisoned : Bool

-- What `opts.open` answers for one temporary name.
pub data OpenReply : Type 0 where
  created already_exists open_failed : OpenReply

-- What the file system answers during one commit.
pub record CommitIo : Type 0 where
  pub opens : List OpenReply
  pub write_all : Bool
  pub sync_all : Bool
  pub rename : Bool
  pub sync_directory : Bool

-- The loop over temporary names.
unfoldable pub create_temp : List OpenReply → Result StoreError (Unit {0})
create_temp [] = err still_creating
create_temp (created ∷ replies) = ok tt
create_temp (already_exists ∷ replies) = create_temp replies
create_temp (open_failed ∷ replies) = err create_failed

module _ (env : Env) where
  -- the writes on the disk, once the candidate is encoded and the temporary file is there
  unfoldable pub replace_file :
      CommitIo → List StoredComment → Str → Store → Result StoreError (Unit {0}) × Store
  replace_file io candidate text s =
      if not (io.write_all && io.sync_all && io.rename)
      then (err write_failed, s)
      else if not io.sync_directory
      then (err directory_sync_failed, record s { data_file = text; poisoned = true })
      else (
        ok tt,
        record s { data_file = text; comments = candidate; revision = revision env text },
      )

  -- `commit`
  unfoldable pub commit :
      CommitIo → List StoredComment → Store → Result StoreError (Unit {0}) × Store
  unfolding replace_file create_temp
  commit io candidate s =
      let prepared : Result StoreError Str = (do
        text ← encode env candidate
        create_temp io.opens
        ok text) in
      elim prepared [ err e ↦ (err e, s) | ok text ↦ replace_file io candidate text s ]
