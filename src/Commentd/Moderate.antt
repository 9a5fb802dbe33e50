-- ===== src/Commentd/Moderate.antt =====
-- `Store::moderate` of crates/servers/commentd/src/store.rs.
use termblog.Prelude.{
  ℕ, Bool, true, false, ltb, if◌then◌else◌, List, map, Result, ok, err, filter, length, is_empty,
}
use termblog.Commentd.Stored.{Env, StoreError, fail_stop}
use termblog.Commentd.Decision.{chosen, decide}
use termblog.Commentd.Store.{Store, CommitIo, commit}

-- `ok` is `done`; the only error is the empty list of IDs.
pub record ModerateResponse : Type 0 where
  pub done : Bool
  pub changed : ℕ

abbrev pub moderated :
    ℕ → Result StoreError (Unit {0}) × Store → Result StoreError ModerateResponse × Store
moderated changed (ok _, s) = (ok (record { done = true; changed = changed }), s)
moderated changed (err e, s) = (err e, s)

module _ (env : Env) where
  unfoldable pub moderate :
      CommitIo → Store → List ℕ → Bool → Result StoreError ModerateResponse × Store
  moderate io s ids approve =
      if s.poisoned
      then (err fail_stop, s)
      else if is_empty ids
      then (ok (record { done = false; changed = 0 }), s)
      else let changed = length (filter (chosen ids) s.comments) in
        if ltb 0 changed
        then moderated changed (commit env io (map (decide ids approve) s.comments) s)
        else (ok (record { done = true; changed = 0 }), s)
