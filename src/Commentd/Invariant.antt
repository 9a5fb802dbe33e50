-- ===== src/Commentd/Invariant.antt =====
-- The invariant of the comment store (crates/servers/commentd/src/store.rs).
pub mod Kept
use termblog.Prelude.{
  ℕ, ◌≡◌, refl, ap, sym, ◌∙◌, subst, ◌⊎◌, inl, inr, Bool, true, false, List, Option, none, some,
  Result, ok, err, ◌>>=◌, ◌>>◌, guard_not, ok_or, arith, Bool-cases, Option-cases, Result-cases,
}
use termblog.Prelude.Text.{Str}
use termblog.Commentd.Stored.{
  Env, StoredComment, StoreError, directory_sync_failed, validate_relations, encode, revision,
}
use termblog.Commentd.Store.{Store, CommitIo, commit}
use termblog.Commentd.Store.Commit.{Outcome, untouched, poisoned, committed, commit-Outcome}
use termblog.Commentd.Open.{read_lines, open_store}
use termblog.Commentd.Reopen.{EnvLaws, IsValid, read_lines_sound, open_store-encode}
use termblog.Prelude.Text.Order.{lines}

module _ (env : Env) where
  -- The comments are valid, the revision is that of their encoding, and the data file opens: as a
  -- valid store in any case, and as this store unless it is poisoned.
  pub record WellFormed (s : Store) : Type 0 where
    pub valid : IsValid env s.comments
    pub canonical :
        (text : Str) × (encode env s.comments ≡ ok text) × (s.revision ≡ revision env text)
    pub reopens :
        (t : Store) × (open_store env s.salt (some s.data_file) ≡ ok t) × IsValid env t.comments
    pub same : (s.poisoned ≡ true) ⊎ (open_store env s.salt (some s.data_file) ≡ ok s)

  -- what `open` has read
  opened_parts :
      (salt : List ℕ) (raw : Option Str) (s : Store)
      → open_store env salt raw ≡ ok s
      → (text : Str) × (cs : List StoredComment) × (canonical : Str) × (raw ≡ some text)
        × (read_lines env 0 0 (lines text) ≡ ok cs)
        × (validate_relations cs ≡ ok tt)
        × (encode env cs ≡ ok canonical)
        × (s ≡ record {
          data_file = text;
          salt = salt;
          comments = cs;
          revision = revision env canonical;
          poisoned = false;
        })
  unfolding open_store
  opened_parts salt raw s h = elim (Option-cases raw) [
    | inl n ↦ absurd (ground arith)
    | inr (text, r) ↦ elim (Result-cases (read_lines env 0 0 (lines text))) [
      | inr (x, k) ↦ absurd (ground arith)
      | inl (cs, k) ↦ elim (Result-cases (validate_relations cs)) [
        | inr (x, v) ↦ absurd (ground arith)
        | inl (u, v) ↦ elim (Result-cases (encode env cs)) [
          | inr (x, e) ↦ absurd (ground arith)
          | inl (canonical, e) ↦ (text, cs, canonical, r, k, v, e, ground arith)
        ]
      ]
    ]
  ]

  -- A store that `open` answers is well formed, also if the file is not in the form that `commit`
  -- writes.
  pub open_store-WellFormed :
      (salt : List ℕ) (raw : Option Str) (s : Store) → open_store env salt raw ≡ ok s → WellFormed s
  open_store-WellFormed salt raw s h =
      let (text, cs, canonical, r, k, v, e, q) = opened_parts salt raw s h in
      let (a, b) = read_lines_sound env 0 0 (lines text) cs k in
      let valid : IsValid env cs = record { accepted = a; ascending = b; related = v } in
      let h' : open_store env salt (some text) ≡ ok s = ap (open_store env salt) (sym r) ∙ h in
      subst WellFormed (sym q) (record {
        valid = valid;
        canonical = (canonical, e, refl);
        reopens = (s, h', subst (λ t. IsValid env t.comments) (sym q) valid);
        same = inr (h' ∙ ap ok q);
      })

module _ (env : Env) (laws : EnvLaws env) where
  -- A commit of valid comments keeps the store well formed, whatever the file system answers.
  pub commit-WellFormed :
      (io : CommitIo) (candidate : List StoredComment) (s : Store)
      → IsValid env candidate
      → WellFormed env s
      → WellFormed env (commit env io candidate s).1
  commit-WellFormed io candidate s v w = elim (commit-Outcome env io candidate s) [
    | untouched e r ↦ subst (λ p. WellFormed env p.1) (sym r) w
    | poisoned text e r ↦
        subst (λ p. WellFormed env p.1) (sym r)
          (record {
            valid = w.valid;
            canonical = w.canonical;
            reopens = (_, open_store-encode env laws s.salt candidate text v e, v);
            same = inl refl;
          })
    | committed text e r ↦
        subst (λ p. WellFormed env p.1) (sym r)
          (record {
            valid = v;
            canonical = (text, e, refl);
            reopens = (_, open_store-encode env laws s.salt candidate text v e, v);
            same = elim (Bool-cases s.poisoned) [
              | inl p ↦ inl p
              | inr p ↦ inr (
                  open_store-encode env laws s.salt candidate text v e
                  ∙ ap
                      (λ b. ok (record {
                        data_file = text;
                        salt = s.salt;
                        comments = candidate;
                        revision = revision env text;
                        poisoned = b;
                      }))
                      (sym p))
            ];
          })
  ]
