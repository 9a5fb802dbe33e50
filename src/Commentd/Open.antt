-- ===== src/Commentd/Open.antt =====
-- `Store::open` of crates/servers/commentd/src/store.rs.
use termblog.Prelude.{
  ℕ, ◌+◌, false, leb, List, [], ◌∷◌, Option, Result, ok, ◌>>=◌, ◌>>◌, guard_not, ok_or, is_empty,
}
use termblog.Prelude.Text.{Str}
use termblog.Prelude.Text.Order.{lines}
use termblog.Commentd.Stored.{
  Env, StoredComment, StoreError, not_utf8, line_empty, invalid_json, id_not_increasing,
  validate_relations, validate_stored, encode, revision,
}
use termblog.Commentd.Store.{Store}

module _ (env : Env) where
  open env use {from_json}

  -- The loop of `open` over the lines, from index `index` on.
  unfoldable pub read_lines : ℕ → ℕ → List Str → Result StoreError (List StoredComment)
  read_lines index last_id [] = ok []
  read_lines index last_id (line ∷ rest) = do
    guard_not (is_empty line) (line_empty (index + 1))
    c ← ok_or (from_json line) (invalid_json (index + 1))
    validate_stored env c
    guard_not (leb c.id last_id) (id_not_increasing (index + 1))
    cs ← read_lines (index + 1) c.id rest
    ok (c ∷ cs)

  -- `open`, past the checks of the directory, the marker and the salt; `raw` is the data file, if it
  -- is UTF-8.
  unfoldable pub open_store : List ℕ → Option Str → Result StoreError Store
  open_store salt raw = do
    text ← ok_or raw not_utf8
    comments ← read_lines 0 0 (lines text)
    validate_relations comments
    canonical ← encode env comments
    ok (record {
      data_file = text;
      salt = salt;
      comments = comments;
      revision = revision env canonical;
      poisoned = false;
    })
