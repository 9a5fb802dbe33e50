-- ===== src/Commentd/Invariant/Kept.antt =====
-- The operations of `Store` (crates/servers/commentd/src/store.rs) keep its invariant.
use termblog.Prelude.{
  ℕ, ◌≡◌, ◌≢◌, refl, sym, subst, inl, inr, Bool, true, false, ltb, ◌==◌, List, [], ◌∷◌, ◌++◌, map,
  some, all, is_empty, All, All-append, filter, length, arith, Bool-cases, Option-cases,
  Result-cases,
}
use termblog.Prelude.Text.{Str, len, bytes}
use termblog.Prelude.Text.Splitting.{eq_iff}
use termblog.Commentd.Protocol.{max_comment_bytes, valid_target}
use termblog.Commentd.Line.{ParsedLine, normalize_controls, normalize_comment_controls}
use termblog.Commentd.Line.Clean.{
  normalize_line-IsClean, normalize_controls_id, normalize_comment_controls_id,
}
use termblog.Commentd.Stored.{Env, StoredComment, is_ascii_hexdigit, validate_stored, hash_ip}
use termblog.Commentd.Store.{Store, CommitIo}
use termblog.Commentd.Submit.{SubmitRequest, Draft, next_id, stored_of, admit, submit}
use termblog.Commentd.Submit.Admission.{IsAdmitted, admit-IsAdmitted}
use termblog.Commentd.Decision.{chosen, decide}
use termblog.Commentd.Submit.Branches.{
  submitted-store, moderated-store, submit-poisoned, submit-rejected, submit-exhausted,
  submit-stored, moderate-poisoned, moderate-none, moderate-empty, moderate-changed,
}
use termblog.Commentd.Moderate.{moderate}
use termblog.Commentd.Relations.{
  Ascending-decide, next_id-Ascending, validate_relations-append, validate_relations-decide,
}
use termblog.Commentd.Reopen.{EnvLaws, Accepted, IsValid}
use termblog.Commentd.Invariant.{WellFormed, commit-WellFormed}

module _ (env : Env) where
  decide-Accepted :
      (ids : List ℕ) (approve : Bool) (c : StoredComment)
      → Accepted env c
      → Accepted env (decide ids approve c)
  unfolding validate_stored decide
  decide-Accepted ids approve c h = ground arith

  decide-All-Accepted :
      (ids : List ℕ) (approve : Bool) (cs : List StoredComment)
      → All (Accepted env) cs
      → All (Accepted env) (map (decide ids approve) cs)
  decide-All-Accepted ids approve [] h = tt
  decide-All-Accepted ids approve (c ∷ cs) h =
      (decide-Accepted ids approve c h.0, decide-All-Accepted ids approve cs h.1)

  decide-IsValid :
      (ids : List ℕ) (approve : Bool) (cs : List StoredComment)
      → IsValid env cs
      → IsValid env (map (decide ids approve) cs)
  decide-IsValid ids approve cs v = record {
    accepted = decide-All-Accepted ids approve cs v.accepted;
    ascending = Ascending-decide ids approve 0 cs v.ascending;
    related = validate_relations-decide ids approve cs v.related;
  }

  -- each of the tests of `validate_stored`
  all_tests :
      (c : StoredComment) (t : env.Instant)
      → (c.id == 0) ≡ false
      → valid_target c.target ≡ true
      → is_empty c.author ≡ false
      → ltb 32 (len c.author) ≡ false
      → is_empty c.text ≡ false
      → ltb max_comment_bytes (len c.text) ≡ false
      → normalize_controls c.author ≡ c.author
      → normalize_comment_controls c.text ≡ c.text
      → len c.ip_hash ≡ 64
      → all is_ascii_hexdigit (bytes c.ip_hash) ≡ true
      → env.parse_time c.created_at ≡ some t
      → Accepted env c
  unfolding validate_stored
  all_tests c t i v a al x xl an xn h hx p =
      ground (arith, eq_iff c.author c.author, eq_iff c.text c.text)

  next_id-ne-zero : (cs : List StoredComment) (id : ℕ) → next_id cs ≡ some id → (id == 0) ≡ false
  unfolding next_id
  next_id-ne-zero cs id h = ground arith

  is_empty-ne-nil : (s : Str) → s ≢ [] → is_empty s ≡ false
  is_empty-ne-nil [] h = absurd (h refl)
  is_empty-ne-nil (c ∷ s) h = refl

abbrev from :
    {env : Env} {A : Type 0} {r t : A × Store} → r ≡ t → WellFormed env t.1 → WellFormed env r.1
from {env} e w = subst (λ x. WellFormed env x.1) (sym e) w

module _ (env : Env) (laws : EnvLaws env) where
  -- The comment of an admitted submission passes the checks of `open`.
  stored_of-Accepted :
      (now : env.Instant) (s : Store) (req : SubmitRequest) (d : Draft) (p : ParsedLine)
      (cs : List StoredComment) (id : ℕ)
      → IsAdmitted env now s req d p
      → next_id cs ≡ some id
      → Accepted env (stored_of env now d id)
  stored_of-Accepted now s req d p cs id a n =
      let clean = normalize_line-IsClean req.line p a.parsed in
      let (t, time) = laws.time_round_trip now in
      all_tests env (stored_of env now d id) t (next_id-ne-zero env cs id n)
        (rw a.target_is a.target_valid)
        (rw a.author_is (is_empty-ne-nil env p.author clean.author_ne_nil))
        (rw a.author_is (ground (arith, a.author_short)))
        (rw a.text_is (is_empty-ne-nil env p.text clean.text_ne_nil))
        (rw a.text_is (ground (arith, a.text_short)))
        (rw a.author_is (normalize_controls_id p.author clean.author_chars))
        (rw a.text_is (normalize_comment_controls_id p.text clean.text_chars))
        (rw a.hash_is (unfold hash_ip in laws.digest_length _))
        (rw a.hash_is (unfold hash_ip in laws.digest_hexadecimal _)) time

  stored_of-IsValid :
      (now : env.Instant) (s : Store) (req : SubmitRequest) (d : Draft) (p : ParsedLine) (id : ℕ)
      → IsValid env s.comments
      → IsAdmitted env now s req d p
      → next_id s.comments ≡ some id
      → IsValid env (s.comments ++ (stored_of env now d id ∷ []))
  stored_of-IsValid now s req d p id v a n = record {
    accepted =
        All-append (Accepted env) s.comments _ v.accepted
          (stored_of-Accepted now s req d p s.comments id a n, tt);
    ascending = next_id-Ascending id s.comments _ v.ascending n refl;
    related =
        validate_relations-append s.comments (stored_of env now d id) v.ascending v.related
          (ground (arith, a.parent, a.target_is));
  }

  -- Given the laws of the packages, `submit` keeps a store well formed: whatever is submitted, and
  -- whatever the file system answers.
  pub submit-WellFormed :
      (now : env.Instant) (io : CommitIo) (s : Store) (req : SubmitRequest)
      → WellFormed env s
      → WellFormed env (submit env now io s req).1
  submit-WellFormed now io s req w = elim (Bool-cases s.poisoned) [
    | inl b ↦ from (submit-poisoned env io s now req b) w
    | inr b ↦ elim (Result-cases (admit env now s req)) [
      | inr (x, e) ↦ from (submit-rejected env io s now req x b e) w
      | inl (d, e) ↦ elim (Option-cases (next_id s.comments)) [
        | inl n ↦ from (submit-exhausted env io s now req d b e n) w
        | inr (id, n) ↦
            let (p, a) = admit-IsAdmitted env now s req d e in
            let v = stored_of-IsValid now s req d p id w.valid a n in
            from (submit-stored env io s now req d id b e n) (
              subst (WellFormed env) (sym (submitted-store id _))
                (commit-WellFormed env laws io _ s v w))
      ]
    ]
  ]

  -- Given the laws of the packages, `moderate` keeps a store well formed: whatever is decided, and
  -- whatever the file system answers.
  pub moderate-WellFormed :
      (io : CommitIo) (s : Store) (ids : List ℕ) (approve : Bool)
      → WellFormed env s
      → WellFormed env (moderate env io s ids approve).1
  moderate-WellFormed io s ids approve w = elim (Bool-cases s.poisoned) [
    | inl b ↦ from (moderate-poisoned env io s ids approve b) w
    | inr b ↦ elim (Bool-cases (is_empty ids)) [
      | inl i ↦ subst (WellFormed env) (sym (moderate-empty env io s ids approve b i)) w
      | inr i ↦ elim (Bool-cases (ltb 0 (length (filter (chosen ids) s.comments)))) [
        | inr e ↦ subst (WellFormed env) (sym (moderate-none env io s ids approve b e)) w
        | inl e ↦
            let v = decide-IsValid env ids approve s.comments w.valid in
            from (moderate-changed env io s ids approve b i e) (
              subst (WellFormed env) (sym (moderated-store _ _))
                (commit-WellFormed env laws io _ s v w))
      ]
    ]
  ]
