-- ===== src/Commentd/Store/Commit.antt =====
-- The outcomes of a commit.
use termblog.Prelude.{
  ◌≡◌, sym, subst, inl, inr, true, ◌&&◌, List, Result, ok, err, arith, Bool-cases, Result-cases,
}
use termblog.Prelude.Text.{Str}
use termblog.Commentd.Stored.{
  Env, StoredComment, StoreError, directory_sync_failed, write_failed, encode, revision,
}
use termblog.Commentd.Store.{Store, CommitIo, create_temp, replace_file, commit}

-- A commit fails with the store and its file untouched; or it replaces the file, cannot make that
-- durable, keeps the memory and poisons the store; or it replaces both file and memory.
pub data Outcome (env : Env) (candidate : List StoredComment) (s : Store)
    : Result StoreError (Unit {0}) × Store → Type 0 where
  untouched :
      {r : Result StoreError (Unit {0}) × Store} (e : StoreError)
      → r ≡ (err e, s)
      → Outcome env candidate s r
  poisoned :
      {r : Result StoreError (Unit {0}) × Store} (text : Str)
      → encode env candidate ≡ ok text
      → r ≡ (err directory_sync_failed, record s { data_file = text; poisoned = true })
      → Outcome env candidate s r
  committed :
      {r : Result StoreError (Unit {0}) × Store} (text : Str)
      → encode env candidate ≡ ok text
      → r
        ≡ (ok tt, record s { data_file = text; comments = candidate; revision = revision env text })
      → Outcome env candidate s r

module _ (env : Env) where
  replace_file-Outcome :
      (io : CommitIo) (candidate : List StoredComment) (text : Str) (s : Store)
      → encode env candidate ≡ ok text
      → Outcome env candidate s (replace_file env io candidate text s)
  unfolding replace_file
  replace_file-Outcome io candidate text s e =
      elim (Bool-cases (io.write_all && io.sync_all && io.rename)) [
        | inr w ↦ untouched write_failed (ground arith)
        | inl w ↦ elim (Bool-cases io.sync_directory) [
          | inr d ↦ poisoned text e (ground arith)
          | inl d ↦ committed text e (ground arith)
        ]
      ]

  prepared_parts :
      (io : CommitIo) (candidate : List StoredComment) (s : Store) (text : Str)
      → encode env candidate ≡ ok text
      → create_temp io.opens ≡ ok tt
      → commit env io candidate s ≡ replace_file env io candidate text s
  unfolding commit
  prepared_parts io candidate s text e c = ground (arith, e, c)

  encode_failed :
      (io : CommitIo) (candidate : List StoredComment) (s : Store) (e : StoreError)
      → encode env candidate ≡ err e
      → commit env io candidate s ≡ (err e, s)
  unfolding commit
  encode_failed io candidate s e h = ground (arith, h)

  create_failed_lem :
      (io : CommitIo) (candidate : List StoredComment) (s : Store) (text : Str) (e : StoreError)
      → encode env candidate ≡ ok text
      → create_temp io.opens ≡ err e
      → commit env io candidate s ≡ (err e, s)
  unfolding commit
  create_failed_lem io candidate s text e h c = ground (arith, h, c)

  -- Every commit fails with file and memory untouched, or replaces the file and poisons the store
  -- with the memory kept, or replaces both, whatever the file system answers.
  pub commit-Outcome :
      (io : CommitIo) (candidate : List StoredComment) (s : Store)
      → Outcome env candidate s (commit env io candidate s)
  commit-Outcome io candidate s = elim (Result-cases (encode env candidate)) [
    | inr (x, e) ↦ untouched x (encode_failed io candidate s x e)
    | inl (text, e) ↦ elim (Result-cases (create_temp io.opens)) [
      | inr (x, c) ↦ untouched x (create_failed_lem io candidate s text x e c)
      | inl (u, c) ↦
          subst (Outcome env candidate s) (sym (prepared_parts io candidate s text e c))
            (replace_file-Outcome io candidate text s e)
    ]
  ]
