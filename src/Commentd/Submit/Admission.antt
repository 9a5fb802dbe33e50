-- ===== src/Commentd/Submit/Admission.antt =====
-- What `submit` has checked of a submission that it admits.
use termblog.Prelude.{
  ℕ, ◌<◌, ◌≤◌, ◌≡◌, refl, ◌⊎◌, inl, inr, true, false, List, Option, none, some, ok, arith,
  Option-cases, Result-cases,
}
use termblog.Prelude.Text.{Str, len}
use termblog.Commentd.Protocol.{max_comment_bytes, valid_target}
use termblog.Commentd.Line.{ParsedLine, normalize_line}
use termblog.Commentd.Stored.{Env, StoredComment, hash_ip}
use termblog.Commentd.Store.{Store}
use termblog.Commentd.Submit.{
  SubmitRequest, Draft, admit, recent_count, is_duplicate, resolve_reply_id, reply_id, parsed_line,
}

-- the parent of the draft
abbrev pub ParentOf : List StoredComment → Str → Option ℕ → Option ℕ → Type 0
ParentOf comments target number id =
    ((number ≡ none) × (id ≡ none))
    ⊎ ((n : ℕ) × (i : ℕ) × (number ≡ some n)
        × (resolve_reply_id comments target n ≡ some i)
        × (id ≡ some i))

reply_id-ParentOf :
    (comments : List StoredComment) (target : Str) (number id : Option ℕ)
    → reply_id comments target number ≡ ok id
    → ParentOf comments target number id
reply_id-ParentOf comments target none id h = inl (refl, cc h)
reply_id-ParentOf comments target (some n) id h =
    elim (Option-cases (resolve_reply_id comments target n)) [
      | inl e ↦ absurd (ground arith)
      | inr (i, e) ↦ inr (n, i, refl, e, ground arith)
    ]

module _ (env : Env) where
  pub record IsAdmitted (now : env.Instant) (s : Store) (req : SubmitRequest) (d : Draft)
      (p : ParsedLine) : Type 0 where
    pub parsed : normalize_line req.line ≡ ok (some p)
    pub target_valid : valid_target req.target ≡ true
    pub line_short : len req.line ≤ max_comment_bytes
    pub address_valid : env.is_ip req.ip ≡ true
    pub target_is : d.target ≡ req.target
    pub author_is : d.author ≡ p.author
    pub text_is : d.text ≡ p.text
    pub author_short : len p.author ≤ 32
    pub text_short : len p.text ≤ max_comment_bytes
    pub hash_is : d.ip_hash ≡ hash_ip env s.salt req.ip
    pub parent : ParentOf s.comments req.target p.reply_number d.reply_to_id
    pub rate : recent_count env now (hash_ip env s.salt req.ip) s.comments < 10
    pub no_duplicate : is_duplicate env now d s.comments ≡ false

  module _ (now : env.Instant) (s : Store) (req : SubmitRequest) where
    IsAdmitted-with :
        (d : Draft) (p : ParsedLine) (id : Option ℕ)
        → parsed_line (normalize_line req.line) ≡ ok p
        → reply_id s.comments req.target p.reply_number ≡ ok id
        → admit env now s req ≡ ok d
        → IsAdmitted now s req d p
    unfolding admit
    IsAdmitted-with d p id e r h = record {
      parsed = ground arith;
      target_valid = ground arith;
      line_short = ground arith;
      address_valid = ground arith;
      target_is = ground arith;
      author_is = ground arith;
      text_is = ground arith;
      author_short = ground arith;
      text_short = ground arith;
      hash_is = ground arith;
      parent = ground (arith, reply_id-ParentOf s.comments req.target p.reply_number id r);
      rate = ground arith;
      no_duplicate = ground arith;
    }

    pub admit-IsAdmitted :
        (d : Draft) → admit env now s req ≡ ok d → (p : ParsedLine) × IsAdmitted now s req d p
    unfolding admit
    admit-IsAdmitted d h = elim (Result-cases (parsed_line (normalize_line req.line))) [
      | inl (p, e) ↦ elim (Result-cases (reply_id s.comments req.target p.reply_number)) [
        | inl (id, r) ↦ (p, IsAdmitted-with d p id e r h)
        | inr (x, r) ↦ absurd (ground arith)
      ]
      | inr (x, e) ↦ absurd (ground arith)
    ]
