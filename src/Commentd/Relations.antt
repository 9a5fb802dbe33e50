-- ===== src/Commentd/Relations.antt =====
-- The order of the IDs and the relations of replies, under a new comment and under moderation.
use termblog.Prelude.{
  ℕ, ◌+◌, ◌≤◌, ◌<◌, ◌≡◌, refl, ◌∙◌, ◌⊎◌, inl, inr, Bool, List, [], ◌∷◌, ◌++◌, map, none, some, ok,
  arith, Option-cases,
}
use termblog.Prelude.Text.{Str}
use termblog.Prelude.Text.Splitting.{eq_iff}
use termblog.Commentd.Protocol.{find_seen}
use termblog.Commentd.Stored.{
  Status, approved, StoredComment, check_parent, remember, relations_from, validate_relations,
}
use termblog.Commentd.Decision.{decide}
use termblog.Commentd.Submit.{resolve_from, resolve_reply_id, next_id}

-- IDs above `last_id`, strictly increasing
abbrev pub Ascending : ℕ → List StoredComment → Type 0
Ascending last_id [] = Unit
Ascending last_id (c ∷ cs) = (last_id < c.id) × Ascending c.id cs

abbrev Seen : Type 0
Seen = List (ℕ × (Str × Status))

-- `seen` behind the comments
abbrev seen_after : Seen → List StoredComment → Seen
seen_after seen [] = seen
seen_after seen (c ∷ cs) = seen_after (remember c seen) cs

relations_from-append :
    (seen : Seen) (cs : List StoredComment) (c : StoredComment)
    → relations_from seen cs ≡ ok tt
    → check_parent (seen_after seen cs) c ≡ ok tt
    → relations_from seen (cs ++ (c ∷ [])) ≡ ok tt
unfolding relations_from
relations_from-append seen [] c h k = rw k
relations_from-append seen (d ∷ cs) c h k =
    ground (arith, relations_from-append (remember d seen) cs c)

-- Later comments do not hide an earlier one.
find_seen-seen_after :
    (seen : Seen) (cs : List StoredComment) (last_id id : ℕ)
    → Ascending last_id cs
    → id ≤ last_id
    → find_seen id (seen_after seen cs) ≡ find_seen id seen
unfolding find_seen
find_seen-seen_after seen [] last_id id h k = refl
find_seen-seen_after seen (c ∷ cs) last_id id h k =
    find_seen-seen_after (remember c seen) cs c.id id h.1 (omega arith) ∙ ground arith

resolved_is_seen :
    (seen : Seen) (cs : List StoredComment) (last_id number : ℕ) (target : Str) (wanted id : ℕ)
    → Ascending last_id cs
    → resolve_from number target wanted cs ≡ some id
    → find_seen id (seen_after seen cs) ≡ some (target, approved)
unfolding resolve_from find_seen
resolved_is_seen seen [] last_id number target wanted id h e = absurd (cc e)
resolved_is_seen seen (c ∷ cs) last_id number target wanted id h e = ground (
  arith,
  eq_iff c.target target,
  find_seen-seen_after (remember c seen) cs c.id c.id h.1,
  resolved_is_seen (remember c seen) cs c.id number target wanted id h.1,
  resolved_is_seen (remember c seen) cs c.id (number + 1) target wanted id h.1,
)

check_parent-resolved :
    (seen : Seen) (c : StoredComment) (id : ℕ)
    → c.reply_to_id ≡ some id
    → find_seen id seen ≡ some (c.target, approved)
    → check_parent seen c ≡ ok tt
unfolding check_parent
check_parent-resolved seen c id e h = ground (arith, eq_iff c.target c.target)

-- Whatever was approved still is.
record Keeps (seen seen' : Seen) : Type 0 where
  at :
      (id : ℕ) (t : Str)
      → find_seen id seen ≡ some (t, approved)
      → find_seen id seen' ≡ some (t, approved)

check_parent-decide :
    (ids : List ℕ) (approve : Bool) (seen seen' : Seen) (c : StoredComment)
    → Keeps seen seen'
    → check_parent seen c ≡ ok tt
    → check_parent seen' (decide ids approve c) ≡ ok tt
unfolding check_parent decide
check_parent-decide ids approve seen seen' c k h = elim (Option-cases c.reply_to_id) [
  | inl n ↦ ground arith
  | inr (p, r) ↦ elim (Option-cases (find_seen p seen)) [
    | inl n ↦ absurd (ground arith)
    | inr ((t, st), f) ↦ ground (arith, k.at p t)
  ]
]

Keeps-remember :
    (ids : List ℕ) (approve : Bool) (seen seen' : Seen) (c : StoredComment)
    → Keeps seen seen'
    → Keeps (remember c seen) (remember (decide ids approve c) seen')
unfolding find_seen decide
Keeps-remember ids approve seen seen' c k = record { at = λ id t h. ground (arith, k.at id t) }

relations_from-decide :
    (ids : List ℕ) (approve : Bool) (seen seen' : Seen) (cs : List StoredComment)
    → Keeps seen seen'
    → relations_from seen cs ≡ ok tt
    → relations_from seen' (map (decide ids approve) cs) ≡ ok tt
unfolding relations_from
relations_from-decide ids approve seen seen' [] k h = refl
relations_from-decide ids approve seen seen' (c ∷ cs) k h = ground (
  arith,
  check_parent-decide ids approve seen seen' c k,
  relations_from-decide ids approve (remember c seen) (remember (decide ids approve c) seen') cs
      (Keeps-remember ids approve seen seen' c k),
)

pub Ascending-decide :
    (ids : List ℕ) (approve : Bool) (last_id : ℕ) (cs : List StoredComment)
    → Ascending last_id cs
    → Ascending last_id (map (decide ids approve) cs)
unfolding decide
Ascending-decide ids approve last_id [] h = tt
Ascending-decide ids approve last_id (c ∷ cs) h =
    ground (arith, Ascending-decide ids approve c.id cs h.1)

Ascending-append :
    (last_id id : ℕ) (x : StoredComment) (cs : List StoredComment) (c : StoredComment)
    → Ascending last_id (x ∷ cs)
    → next_id (x ∷ cs) ≡ some id
    → c.id ≡ id
    → Ascending last_id ((x ∷ cs) ++ (c ∷ []))
unfolding next_id
Ascending-append last_id id x [] c h e k = ground arith
Ascending-append last_id id x (y ∷ cs) c h e k = (h.0, Ascending-append x.id id y cs c h.1 e k)

-- A comment with the next ID goes to the end.
pub next_id-Ascending :
    (id : ℕ) (cs : List StoredComment) (c : StoredComment)
    → Ascending 0 cs
    → next_id cs ≡ some id
    → c.id ≡ id
    → Ascending 0 (cs ++ (c ∷ []))
next_id-Ascending id [] c h e k = unfold next_id in ground arith
next_id-Ascending id (x ∷ cs) c h e k = Ascending-append 0 id x cs c h e k

-- A new comment, with no parent or with the parent that its number was resolved to.
pub validate_relations-append :
    (cs : List StoredComment) (c : StoredComment)
    → Ascending 0 cs
    → validate_relations cs ≡ ok tt
    → (c.reply_to_id ≡ none)
      ⊎ ((n : ℕ) × (id : ℕ) × (resolve_reply_id cs c.target n ≡ some id)
          × (c.reply_to_id ≡ some id))
    → validate_relations (cs ++ (c ∷ [])) ≡ ok tt
unfolding validate_relations resolve_reply_id
validate_relations-append cs c a h (inl e) =
    relations_from-append [] cs c h (unfold check_parent in rw (e, check_parent))
validate_relations-append cs c a h (inr (n, id, resolved, e)) = relations_from-append [] cs c h (
    check_parent-resolved (seen_after [] cs) c id e
      (resolved_is_seen [] cs 0 0 c.target n id a resolved))

-- Moderation keeps every parent approved.
pub validate_relations-decide :
    (ids : List ℕ) (approve : Bool) (cs : List StoredComment)
    → validate_relations cs ≡ ok tt
    → validate_relations (map (decide ids approve) cs) ≡ ok tt
unfolding validate_relations
validate_relations-decide ids approve cs h =
    relations_from-decide ids approve [] [] cs (record { at = λ id t e. e }) h
