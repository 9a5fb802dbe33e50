-- ===== src/Commentd/Submit/Accepted.antt =====
-- The submissions that `submit` accepts, and the numbers that name a parent in them
-- (crates/servers/commentd/src/store.rs).
use termblog.Prelude.{
  ℕ, zero, suc, ◌+◌, ◌≤◌, ◌≡◌, refl, ap, sym, ◌∙◌, subst, inl, inr, true, false, ◌&&◌, List, [],
  ◌∷◌, ◌++◌, length, Option, none, some, Result, ok, err, arith, Bool-cases, Option-cases,
  Result-cases,
}
use termblog.Prelude.Text.{Str, eq}
use termblog.Commentd.Protocol.{Comment, u64_max}
use termblog.Commentd.Line.{ParsedLine}
use termblog.Commentd.Stored.{Env, StoredComment, StoreError, is_approved, view, encode, revision}
use termblog.Commentd.Store.{Store, CommitIo, commit}
use termblog.Commentd.Store.Commit.{untouched, poisoned, committed, commit-Outcome}
use termblog.Commentd.Submit.{
  SubmitRequest, SubmitResponse, Draft, resolve_from, resolve_reply_id, next_id, stored_of,
  submitted, admit, submit,
}
use termblog.Commentd.Submit.Admission.{IsAdmitted, admit-IsAdmitted}
use termblog.Commentd.Submit.Branches.{
  submit-poisoned, submit-rejected, submit-exhausted, submit-stored,
}
use termblog.Commentd.Query.{approved_in}
use termblog.Commentd.Query.Available.{approved_in-hidden, approved_in-shown}

-- `get(i)`
abbrev pub get_elem? {ℓ} : {A : Type ℓ} → List A → ℕ → Option A
get_elem? [] i = none
get_elem? (x ∷ xs) zero = some x
get_elem? (x ∷ xs) (suc i) = get_elem? xs i

abbrev pub id_of : Option Comment → Option ℕ
id_of none = none
id_of (some c) = some c.id

module _ (target : Str) where
  resolve_from-hidden :
      (number wanted : ℕ) (c : StoredComment) (cs : List StoredComment)
      → (is_approved c.status && eq c.target target) ≡ false
      → resolve_from number target wanted (c ∷ cs) ≡ resolve_from number target wanted cs
  unfolding resolve_from
  resolve_from-hidden number wanted c cs e = rw e

  resolve_from-shown :
      (number : ℕ) (c : StoredComment) (cs : List StoredComment)
      → number + length (c ∷ cs) ≤ u64_max
      → (is_approved c.status && eq c.target target) ≡ true
      → resolve_from number target (number + 1 + 0) (c ∷ cs) ≡ some c.id
  unfolding resolve_from
  resolve_from-shown number c cs h e = ground arith

  resolve_from-later :
      (number i : ℕ) (c : StoredComment) (cs : List StoredComment)
      → number + length (c ∷ cs) ≤ u64_max
      → (is_approved c.status && eq c.target target) ≡ true
      → resolve_from number target (number + 1 + 1 + i) (c ∷ cs)
        ≡ resolve_from (number + 1) target (number + 1 + 1 + i) cs
  unfolding resolve_from
  resolve_from-later number i c cs h e = ground arith

  resolve_from-approved_in :
      (number i : ℕ) (cs : List StoredComment)
      → number + length cs ≤ u64_max
      → resolve_from number target (number + 1 + i) cs ≡ id_of (get_elem? (approved_in target cs) i)
  resolve_from-approved_in number i [] h = unfold resolve_from approved_in in refl
  resolve_from-approved_in number zero (c ∷ cs) h =
      let rest = resolve_from-approved_in number zero cs (omega (arith, h)) in
      elim (Bool-cases (is_approved c.status && eq c.target target)) [
        | inl e ↦
            resolve_from-shown number c cs h e
            ∙ unfold view in ap (λ l. id_of (get_elem? l 0)) (sym (approved_in-shown target c cs e))
        | inr e ↦
            resolve_from-hidden number (number + 1 + 0) c cs e
            ∙ rest
            ∙ ap (λ l. id_of (get_elem? l 0)) (sym (approved_in-hidden target c cs e))
      ]
  resolve_from-approved_in number (suc i) (c ∷ cs) h =
      let rest = resolve_from-approved_in number (suc i) cs (omega (arith, h)) in
      let next = resolve_from-approved_in (number + 1) i cs (omega (arith, h)) in
      elim (Bool-cases (is_approved c.status && eq c.target target)) [
        | inl e ↦
            ap (λ w. resolve_from number target w (c ∷ cs)) (omega arith)
            ∙ resolve_from-later number i c cs h e
            ∙ next
            ∙ ap (λ l. id_of (get_elem? l (suc i))) (sym (approved_in-shown target c cs e))
        | inr e ↦
            resolve_from-hidden number (number + 1 + suc i) c cs e
            ∙ rest
            ∙ ap (λ l. id_of (get_elem? l (suc i))) (sym (approved_in-hidden target c cs e))
      ]

-- A reply's number names the comment that the public view of the target shows under that number,
-- if there are at most 2^64 - 1 comments.
pub resolve_reply_id-approved_in :
    (comments : List StoredComment) (target : Str) (i : ℕ)
    → length comments ≤ u64_max
    → resolve_reply_id comments target (i + 1) ≡ id_of (get_elem? (approved_in target comments) i)
unfolding resolve_reply_id
resolve_reply_id-approved_in comments target i h =
    ap (λ w. resolve_from 0 target w comments) (omega arith)
    ∙ resolve_from-approved_in target 0 i comments (omega (arith, h))

module _ (env : Env) where
  -- A submission that is accepted was admitted, was given the next ID, and is the last of the
  -- comments, which are in the file.
  pub record IsAccepted (now : env.Instant) (s t : Store) (req : SubmitRequest)
      (resp : SubmitResponse) : Type 0 where
    pub draft : Draft
    pub parsed : ParsedLine
    pub id : ℕ
    pub admitted : IsAdmitted env now s req draft parsed
    pub id_is_next : next_id s.comments ≡ some id
    pub id_answered : resp.id ≡ some id
    pub comments_are : t.comments ≡ s.comments ++ (stored_of env now draft id ∷ [])
    pub file_is : encode env t.comments ≡ ok t.data_file
    pub revision_is : t.revision ≡ revision env t.data_file

  abbrev IsSubmitted :
      env.Instant → Store → SubmitRequest → Result StoreError SubmitResponse × Store → Type 0
  IsSubmitted now s req (ok resp, t) = resp.accepted ≡ true → IsAccepted now s t req resp
  IsSubmitted now s req (err e, t) = Unit

  stored :
      (now : env.Instant) (io : CommitIo) (s : Store) (req : SubmitRequest) (d : Draft)
      (p : ParsedLine) (id : ℕ)
      → IsAdmitted env now s req d p
      → next_id s.comments ≡ some id
      → IsSubmitted now s req
          (submitted id (commit env io (s.comments ++ (stored_of env now d id ∷ [])) s))
  stored now io s req d p id a n =
      elim (commit-Outcome env io (s.comments ++ (stored_of env now d id ∷ [])) s) [
        | untouched e r ↦ subst (λ x. IsSubmitted now s req (submitted id x)) (sym r) tt
        | poisoned text e r ↦ subst (λ x. IsSubmitted now s req (submitted id x)) (sym r) tt
        | committed text e r ↦
            subst (λ x. IsSubmitted now s req (submitted id x)) (sym r)
              (λ h. record {
                draft = d;
                parsed = p;
                id = id;
                admitted = a;
                id_is_next = n;
                id_answered = refl;
                comments_are = refl;
                file_is = e;
                revision_is = refl;
              })
      ]

  submit-IsSubmitted :
      (now : env.Instant) (io : CommitIo) (s : Store) (req : SubmitRequest)
      → IsSubmitted now s req (submit env now io s req)
  submit-IsSubmitted now io s req = elim (Bool-cases s.poisoned) [
    | inl b ↦ subst (IsSubmitted now s req) (sym (submit-poisoned env io s now req b)) tt
    | inr b ↦ elim (Result-cases (admit env now s req)) [
      | inr (x, e) ↦
          subst (IsSubmitted now s req) (sym (submit-rejected env io s now req x b e))
            (λ h. absurd (cc h))
      | inl (d, e) ↦ elim (Option-cases (next_id s.comments)) [
        | inl n ↦ subst (IsSubmitted now s req) (sym (submit-exhausted env io s now req d b e n)) tt
        | inr (id, n) ↦
            let (p, a) = admit-IsAdmitted env now s req d e in
            subst (IsSubmitted now s req) (sym (submit-stored env io s now req d id b e n))
              (stored now io s req d p id a n)
      ]
    ]
  ]

  -- If `submit` answers that a submission is accepted, it has met every check (target, lengths,
  -- address, parent, rate and duplicates), has the next ID, stands behind the comments there were,
  -- and is in the data file.
  pub submit-IsAccepted :
      (now : env.Instant) (io : CommitIo) (s t : Store) (req : SubmitRequest)
      (resp : SubmitResponse)
      → submit env now io s req ≡ (ok resp, t)
      → resp.accepted ≡ true
      → IsAccepted now s t req resp
  submit-IsAccepted now io s t req resp h =
      subst (IsSubmitted now s req) h (submit-IsSubmitted now io s req)
