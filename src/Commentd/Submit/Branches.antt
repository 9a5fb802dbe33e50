-- ===== src/Commentd/Submit/Branches.antt =====
-- The branches of `submit` and `moderate` (crates/servers/commentd/src/store.rs), as equations.
use termblog.Prelude.{
  ℕ, ◌≡◌, refl, Bool, true, false, ltb, List, [], ◌∷◌, ◌++◌, map, none, some, Result, ok, err,
  filter, length, is_empty, arith,
}
use termblog.Commentd.Stored.{Env, StoreError, fail_stop, ids_exhausted}
use termblog.Commentd.Store.{Store, CommitIo, commit}
use termblog.Commentd.Submit.{
  SubmitRequest, Rejection, Draft, next_id, rejected, submitted, stored_of, admit, store_draft,
  submit,
}
use termblog.Commentd.Decision.{chosen, decide}
use termblog.Commentd.Moderate.{moderate, moderated}

pub submitted-store : (id : ℕ) (r : Result StoreError (Unit {0}) × Store) → (submitted id r).1 ≡ r.1
submitted-store id (ok _, s) = refl
submitted-store id (err e, s) = refl

pub moderated-store :
    (changed : ℕ) (r : Result StoreError (Unit {0}) × Store) → (moderated changed r).1 ≡ r.1
moderated-store changed (ok _, s) = refl
moderated-store changed (err e, s) = refl

module _ (env : Env) (io : CommitIo) (s : Store) where
  module _ (now : env.Instant) (req : SubmitRequest) where
    pub submit-poisoned : s.poisoned ≡ true → submit env now io s req ≡ (err fail_stop, s)
    unfolding submit
    submit-poisoned b = ground arith

    pub submit-rejected :
        (x : Rejection)
        → s.poisoned ≡ false
        → admit env now s req ≡ err x
        → submit env now io s req ≡ (ok (rejected x), s)
    unfolding submit
    submit-rejected x b e = ground (arith, e)

    pub submit-exhausted :
        (d : Draft)
        → s.poisoned ≡ false
        → admit env now s req ≡ ok d
        → next_id s.comments ≡ none
        → submit env now io s req ≡ (err ids_exhausted, s)
    unfolding submit store_draft
    submit-exhausted d b e n = ground (arith, e, n)

    pub submit-stored :
        (d : Draft) (id : ℕ)
        → s.poisoned ≡ false
        → admit env now s req ≡ ok d
        → next_id s.comments ≡ some id
        → submit env now io s req
          ≡ submitted id (commit env io (s.comments ++ (stored_of env now d id ∷ [])) s)
    unfolding submit store_draft
    submit-stored d id b e n = ground (arith, e, n)

  module _ (ids : List ℕ) (approve : Bool) where
    pub moderate-poisoned : s.poisoned ≡ true → moderate env io s ids approve ≡ (err fail_stop, s)
    unfolding moderate
    moderate-poisoned b = ground arith

    pub moderate-none :
        s.poisoned ≡ false
        → ltb 0 (length (filter (chosen ids) s.comments)) ≡ false
        → (moderate env io s ids approve).1 ≡ s
    unfolding moderate
    moderate-none b e = ground (arith, e)

    pub moderate-empty :
        s.poisoned ≡ false → is_empty ids ≡ true → (moderate env io s ids approve).1 ≡ s
    unfolding moderate
    moderate-empty b e = ground (arith, e)

    pub moderate-changed :
        s.poisoned ≡ false
        → is_empty ids ≡ false
        → ltb 0 (length (filter (chosen ids) s.comments)) ≡ true
        → moderate env io s ids approve
          ≡ moderated
              (length (filter (chosen ids) s.comments))
              (commit env io (map (decide ids approve) s.comments) s)
    unfolding moderate
    moderate-changed b i e = ground (arith, i, e)
