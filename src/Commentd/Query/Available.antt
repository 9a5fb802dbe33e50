-- ===== src/Commentd/Query/Available.antt =====
-- The public view of a valid store (`public_query` of crates/servers/commentd/src/store.rs, over
-- `visible_comments` of protocol.rs).
use termblog.Prelude.{
  ℕ, ◌+◌, ◌≤◌, ◌<◌, ◌≡◌, refl, ap, sym, ◌∙◌, subst, inl, inr, true, false, ◌&&◌, ◌==◌, List, [],
  ◌∷◌, Option, none, some, ok, All, arith, Bool-cases, Option-cases, Result-cases,
}
use termblog.Prelude.Text.{Str, eq}
use termblog.Prelude.Text.Splitting.{eq_iff}
use termblog.Commentd.Protocol.{
  Comment, VisibleReply, VisibleComment, u64_max, number_of, find_seen, find_reply, visible_one,
  visible_from, visible_comments,
}
use termblog.Commentd.Stored.{
  Status, approved, is_approved, StoredComment, view, check_parent, remember, relations_from,
  validate_relations,
}
use termblog.Commentd.Query.{approved_in}
use termblog.Commentd.Relations.{Ascending}

-- an ID is a `u64`
abbrev pub IsU64 : StoredComment → Type 0
IsU64 c = c.id ≤ u64_max

-- The comments of the view, in order, are numbered from `number + 1` on.
abbrev pub Shows : ℕ → List Comment → List VisibleComment → Type 0
Shows number [] [] = Unit
Shows number [] (v ∷ vs) = ⊥
Shows number (c ∷ cs) [] = ⊥
Shows number (c ∷ cs) (v ∷ vs) =
    (v.number ≡ number + 1)
    × (v.target ≡ c.target)
    × (v.author ≡ c.author)
    × (v.text ≡ c.text)
    × Shows (number + 1) cs vs

abbrev SeenStored : Type 0
SeenStored = List (ℕ × (Str × Status))

abbrev SeenVisible : Type 0
SeenVisible = List (ℕ × (Str × VisibleReply))

parent_approved :
    (stored : SeenStored) (c : StoredComment) (p : ℕ)
    → c.reply_to_id ≡ some p
    → check_parent stored c ≡ ok tt
    → find_seen p stored ≡ some (c.target, approved)
unfolding check_parent
parent_approved stored c p r h = elim (Option-cases (find_seen p stored)) [
  | inl n ↦ absurd (ground arith)
  | inr ((t, st), f) ↦ ground (arith, eq_iff t c.target)
]

module _ (target : Str) where
  -- an approved comment of the target is among the visible ones
  record Agrees (stored : SeenStored) (visible : SeenVisible) : Type 0 where
    at :
        (id : ℕ)
        → find_seen id stored ≡ some (target, approved)
        → (r : VisibleReply) × (find_seen id visible ≡ some (target, r))

  Agrees-hidden :
      (stored : SeenStored) (visible : SeenVisible) (c : StoredComment)
      → (is_approved c.status && eq c.target target) ≡ false
      → Agrees stored visible
      → Agrees (remember c stored) visible
  unfolding find_seen
  Agrees-hidden stored visible c h a = record {
    at = λ id e. ground (arith, eq_iff c.target target, a.at id);
  }

  Agrees-shown :
      (stored : SeenStored) (visible : SeenVisible) (c : StoredComment) (r : VisibleReply)
      → c.target ≡ target
      → Agrees stored visible
      → Agrees (remember c stored) ((c.id, (c.target, r)) ∷ visible)
  unfolding find_seen
  Agrees-shown stored visible c r h a = record {
    at = λ id e. elim (Bool-cases (c.id == id)) [
      | inl i ↦ (r, ground arith)
      | inr i ↦ let (q, k) = a.at id (ground arith) in (q, ground arith)
    ];
  }

  reply_shown :
      (stored : SeenStored) (visible : SeenVisible) (c : StoredComment)
      → c.target ≡ target
      → Agrees stored visible
      → check_parent stored c ≡ ok tt
      → (r : Option VisibleReply) × (find_reply (view c) visible ≡ ok r)
  unfolding find_reply view
  reply_shown stored visible c t a h = elim (Option-cases c.reply_to_id) [
    | inl n ↦ (none, ground arith)
    | inr (p, r) ↦
        let (q, k) = a.at p (parent_approved stored c p r h ∙ ap (λ x. some (x, approved)) t) in
        (some q, ground (arith, eq_iff target c.target))
  ]

  one_shown :
      (stored : SeenStored) (visible : SeenVisible) (next_number : List (Str × ℕ))
      (last_id number : ℕ) (c : StoredComment)
      → c.target ≡ target
      → Agrees stored visible
      → check_parent stored c ≡ ok tt
      → number_of target next_number ≡ number
      → number ≤ last_id
      → last_id < c.id
      → IsU64 c
      → (r : Option VisibleReply) × (visible_one last_id next_number visible (view c)
          ≡ ok (record {
            number = number + 1;
            target = c.target;
            author = c.author;
            text = c.text;
            created_at = c.created_at;
            reply_to = r;
          }))
  one_shown stored visible next_number last_id number c t a h n m l u =
      let (r, k) = reply_shown stored visible c t a h in
      (r, unfold visible_one view in ground arith)

  relations_parts :
      (stored : SeenStored) (c : StoredComment) (cs : List StoredComment)
      → relations_from stored (c ∷ cs) ≡ ok tt
      → (check_parent stored c ≡ ok tt) × (relations_from (remember c stored) cs ≡ ok tt)
  unfolding relations_from
  relations_parts stored c cs h = elim (Result-cases (check_parent stored c)) [
    | inl (u, e) ↦ (e, ground arith)
    | inr (x, e) ↦ absurd (ground arith)
  ]

  visible_from-cons :
      (last_id : ℕ) (next_number : List (Str × ℕ)) (visible : SeenVisible) (c : Comment)
      (rest : List Comment) (v : VisibleComment) (vs : List VisibleComment)
      → visible_one last_id next_number visible c ≡ ok v
      → visible_from c.id
          ((c.target, v.number) ∷ next_number)
          ((c.id, (c.target, record { number = v.number; author = c.author })) ∷ visible)
          rest
        ≡ ok vs
      → visible_from last_id next_number visible (c ∷ rest) ≡ ok (v ∷ vs)
  unfolding visible_from
  visible_from-cons last_id next_number visible c rest v vs e f = ground (arith, e, f)

  -- the loop succeeds, on comments numbered from `number + 1` on
  abbrev IsShown : ℕ → List (Str × ℕ) → SeenVisible → ℕ → List Comment → Type 0
  IsShown last_id next_number visible number cs =
      (vs : List VisibleComment) × (visible_from last_id next_number visible cs ≡ ok vs)
      × Shows number cs vs

  pub approved_in-hidden :
      (c : StoredComment) (cs : List StoredComment)
      → (is_approved c.status && eq c.target target) ≡ false
      → approved_in target (c ∷ cs) ≡ approved_in target cs
  unfolding approved_in
  approved_in-hidden c cs e = rw e

  pub approved_in-shown :
      (c : StoredComment) (cs : List StoredComment)
      → (is_approved c.status && eq c.target target) ≡ true
      → approved_in target (c ∷ cs) ≡ view c ∷ approved_in target cs
  unfolding approved_in
  approved_in-shown c cs e = rw e

  abbrev next_seen : StoredComment → ℕ → SeenVisible → SeenVisible
  next_seen c number visible =
      (c.id, (c.target, record { number = number; author = c.author })) ∷ visible

  IsShown-cons :
      (last_id : ℕ) (next_number : List (Str × ℕ)) (visible : SeenVisible) (number : ℕ)
      (c : StoredComment) (rest : List Comment) (r : Option VisibleReply)
      → visible_one last_id next_number visible (view c)
        ≡ ok (record {
          number = number + 1;
          target = c.target;
          author = c.author;
          text = c.text;
          created_at = c.created_at;
          reply_to = r;
        })
      → IsShown c.id
          ((c.target, number + 1) ∷ next_number)
          (next_seen c (number + 1) visible)
          (number + 1)
          rest
      → IsShown last_id next_number visible number (view c ∷ rest)
  unfolding view
  IsShown-cons last_id next_number visible number c rest r one (vs, e, w) = (
    _,
    visible_from-cons last_id next_number visible (view c) rest _ vs one e,
    (refl, refl, refl, refl, w),
  )

  number_of-front :
      (t : Str) (n : ℕ) (m : List (Str × ℕ)) → t ≡ target → number_of target ((t, n) ∷ m) ≡ n
  unfolding number_of
  number_of-front t n m e = ground (arith, eq_iff t target)

  -- Every round of the loop over the public comments succeeds.
  visible_from-IsShown :
      (stored : SeenStored) (visible : SeenVisible) (next_number : List (Str × ℕ))
      (below last_id number : ℕ) (cs : List StoredComment)
      → Agrees stored visible
      → number_of target next_number ≡ number
      → number ≤ last_id
      → last_id ≤ below
      → Ascending below cs
      → All IsU64 cs
      → relations_from stored cs ≡ ok tt
      → IsShown last_id next_number visible number (approved_in target cs)
  visible_from-IsShown stored visible next_number below last_id number [] a n m l o u h =
      unfold approved_in visible_from in ([], refl, tt)
  visible_from-IsShown stored visible next_number below last_id number (c ∷ cs) a n m l o u h =
      let (parent, later) = relations_parts stored c cs h in
      elim (Bool-cases (is_approved c.status && eq c.target target)) [
        | inr e ↦
            subst (IsShown last_id next_number visible number) (sym (approved_in-hidden c cs e)) (
              visible_from-IsShown (remember c stored) visible next_number c.id last_id number cs
                (Agrees-hidden stored visible c e a) n m (omega (arith, l, o.0)) o.1 u.1 later)
        | inl e ↦
            let t : c.target ≡ target = ground (arith, eq_iff c.target target) in
            let (r, one) =
              one_shown stored visible next_number last_id number c t a parent n m
                (omega (arith, l, o.0)) u.0 in
            subst (IsShown last_id next_number visible number) (sym (approved_in-shown c cs e)) (
              IsShown-cons last_id next_number visible number c (approved_in target cs) r one (
                visible_from-IsShown (remember c stored) (next_seen c (number + 1) visible)
                  ((c.target, number + 1) ∷ next_number) c.id c.id (number + 1) cs
                  (Agrees-shown stored visible c _ t a)
                  (number_of-front c.target (number + 1) next_number t) (omega (arith, m, l, o.0))
                  (omega arith) o.1 u.1 later))
      ]

-- If the IDs increase and are 64-bit numbers, and the replies are in order, then the public view
-- never fails: the approved comments of the target are shown in order, numbered from 1 on.
pub visible_comments-Shows :
    (target : Str) (cs : List StoredComment)
    → Ascending 0 cs
    → All IsU64 cs
    → validate_relations cs ≡ ok tt
    → (vs : List VisibleComment) × (visible_comments (approved_in target cs) ≡ ok vs)
      × Shows 0 (approved_in target cs) vs
unfolding visible_comments validate_relations
visible_comments-Shows target cs o u h =
    visible_from-IsShown target [] [] [] 0 0 0 cs
      (record { at = λ id e. absurd (unfold find_seen in cc e) }) (unfold number_of in refl)
      (omega arith) (omega arith) o u h
