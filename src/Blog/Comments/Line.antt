-- ===== src/Blog/Comments/Line.antt =====
-- One line of the snapshot that jaild writes, as the reader in the jail reads it
-- (crates/servers/jaild/src/jail.rs and crates/tools/jailbin/src/blog/comments.rs).
use termblog.Prelude.{
  ℕ, ◌≤◌, ◌<◌, ◌≡◌, ap, sym, ◌∙◌, inl, inr, true, false, ◌||◌, ltb, ◌==◌, List, [], ◌∷◌, ◌++◌,
  Option, none, some, ok, is_empty, arith, Bool-cases, Option-cases, Result-cases,
}
use termblog.Prelude.Text.{Str, lit, len, contains}
use termblog.Prelude.Text.Objects.{object-not_empty}
use termblog.Prelude.Text.Splitting.{eq→≡, eq_refl}
use termblog.Commentd.Protocol.{
  Comment, VisibleReply, VisibleComment, number_of, find_seen, find_reply, visible_one, checked_suc,
  valid_target,
}
use termblog.Jaild.Snapshot.{SnapshotLine, get_to, snapshot_line}
use termblog.Blog.Comments.{
  SnapshotComment, valid_date10, find_author, bad_fields, check_reply, load_line,
}

-- the fields of the line that the reader takes
abbrev pub read_back : SnapshotLine → SnapshotComment
read_back l = record {
  number = l.number;
  target = l.target;
  author = l.author;
  date10 = l.date10;
  text = l.text;
  reply_to = l.reply_to;
}

-- What is relied on in serde_json: a line is an object on one line, and is read back.
pub record CodecLaws (to_json : SnapshotLine → Option Str)
    (from_json : Str → Option SnapshotComment) : Type 0 where
  pub round_trip :
      (l : SnapshotLine) (line : Str) → to_json l ≡ some line → from_json line ≡ some (read_back l)
  pub object :
      (l : SnapshotLine) (line : Str) → to_json l ≡ some line → (p : Str) × (line ≡ p ++ lit "}")
  pub one_line :
      (l : SnapshotLine) (line : Str) → to_json l ≡ some line → contains b'\n' line ≡ false

-- A comment whose fields the reader accepts.
pub record IsShowable (c : Comment) : Type 0 where
  pub target : valid_target c.target ≡ true
  pub author : (is_empty c.author || ltb 32 (len c.author)) ≡ false
  pub text : (is_empty c.text || ltb 512 (len c.text)) ≡ false
  pub date : (d : Str) × (get_to 10 c.created_at ≡ some d) × (valid_date10 d ≡ true)

abbrev pub date_of : Option Str → Str
date_of none = []
date_of (some d) = d

-- what the reader shows of a comment: the date is cut off the time
abbrev pub shown : VisibleComment → SnapshotComment
shown v = read_back (snapshot_line v (date_of (get_to 10 v.created_at)))

abbrev pub SeenVisible : Type 0
SeenVisible = List (ℕ × (Str × VisibleReply))

-- The reader knows the authors that the view knows, under their numbers.
pub record Agrees (numbers : List (Str × ℕ)) (visible : SeenVisible) (seen : List ((Str × ℕ) × Str))
    : Type 0 where
  pub at :
      (id : ℕ) (target : Str) (r : VisibleReply)
      → find_seen id visible ≡ some (target, r)
      → (find_author target r.number seen ≡ some r.author)
        × (0 < r.number)
        × (r.number ≤ number_of target numbers)
        × ((is_empty r.author || ltb 32 (len r.author)) ≡ false)

-- what `visible_one` answers
pub record Seen (last_id : ℕ) (numbers : List (Str × ℕ)) (visible : SeenVisible) (c : Comment)
    (v : VisibleComment) : Type 0 where
  pub number : checked_suc (number_of c.target numbers) ≡ some v.number
  pub reply : find_reply c visible ≡ ok v.reply_to
  pub target : v.target ≡ c.target
  pub author : v.author ≡ c.author
  pub text : v.text ≡ c.text
  pub created_at : v.created_at ≡ c.created_at

pub visible_one-Seen :
    (last_id : ℕ) (numbers : List (Str × ℕ)) (visible : SeenVisible) (c : Comment)
    (v : VisibleComment)
    → visible_one last_id numbers visible c ≡ ok v
    → Seen last_id numbers visible c v
unfolding visible_one
visible_one-Seen last_id numbers visible c v h =
    elim (Option-cases (checked_suc (number_of c.target numbers))) [
      | inl n ↦ absurd (ground (arith, h, n))
      | inr (n, k) ↦ elim (Result-cases (find_reply c visible)) [
        | inr (x, r) ↦ absurd (ground (arith, h, k, r))
        | inl (reply, r) ↦
            let e : v ≡ record {
              number = n;
              target = c.target;
              author = c.author;
              text = c.text;
              created_at = c.created_at;
              reply_to = reply;
            } =
              ground (arith, h, k, r) in
            record {
              number = k ∙ ap (λ x. some x.number) (sym e);
              reply = r ∙ ap (λ x. ok x.reply_to) (sym e);
              target = ap (λ x. x.target) e;
              author = ap (λ x. x.author) e;
              text = ap (λ x. x.text) e;
              created_at = ap (λ x. x.created_at) e;
            }
      ]
    ]

module _ (numbers : List (Str × ℕ)) (visible : SeenVisible) (seen : List ((Str × ℕ) × Str))
    (agrees : Agrees numbers visible seen) where
  parent_found :
      (c : Comment) (r : VisibleReply)
      → find_reply c visible ≡ ok (some r)
      → (id : ℕ) × (find_seen id visible ≡ some (c.target, r))
  unfolding find_reply
  parent_found c r h = elim (Option-cases c.reply_to_id) [
    | inl n ↦ absurd (ground (arith, h, n))
    | inr (id, n) ↦ elim (Option-cases (find_seen id visible)) [
      | inl k ↦ absurd (ground (arith, h, n, k))
      | inr ((t, q), k) ↦ (id, ground (arith, h, n, k, eq→≡ t c.target))
    ]
  ]

  check_reply-some :
      (index : ℕ) (c : Comment) (r : VisibleReply) (s : SnapshotComment)
      → find_reply c visible ≡ ok (some r)
      → s.target ≡ c.target
      → s.reply_to ≡ some r
      → check_reply index seen s ≡ ok tt
  unfolding check_reply
  check_reply-some index c r s h t e =
      let (id, k) = parent_found c r h in
      let (a, b, d, f) = agrees.at id c.target r k in
      ground (arith, t, e, a, b, f, eq_refl r.author)

  check_reply-ok :
      (index : ℕ) (c : Comment) (s : SnapshotComment)
      → find_reply c visible ≡ ok s.reply_to
      → s.target ≡ c.target
      → check_reply index seen s ≡ ok tt
  check_reply-ok index c s h t = elim (Option-cases s.reply_to) [
    | inl n ↦ unfold check_reply in ground (arith, n)
    | inr (r, n) ↦ check_reply-some index c r s (h ∙ ap ok n) t n
  ]

  pub Agrees-later :
      (c : Comment) (v : VisibleComment) (last_id : ℕ)
      → IsShowable c
      → Seen last_id numbers visible c v
      → Agrees
          ((c.target, v.number) ∷ numbers)
          ((c.id, (c.target, record { number = v.number; author = c.author })) ∷ visible)
          (((c.target, v.number), c.author) ∷ seen)
  unfolding number_of find_seen find_author
  Agrees-later c v last_id good q = record {
    at = λ id target r h. elim (Bool-cases (c.id == id)) [
      | inl e ↦ ground (arith, h, e, eq_refl c.target, good.author, q.number)
      | inr e ↦
          let before : find_seen id visible ≡ some (target, r) = ground (arith, h, e) in
          ground (arith, agrees.at id target r before, eq→≡ c.target target, q.number)
    ];
  }

module _ (to_json : SnapshotLine → Option Str) (from_json : Str → Option SnapshotComment)
    (laws : CodecLaws to_json from_json) where
  shown_date :
      (v : VisibleComment) (d : Str)
      → get_to 10 v.created_at ≡ some d
      → shown v ≡ read_back (snapshot_line v d)
  shown_date v d e = ap (λ o. read_back (snapshot_line v (date_of o))) e

  -- the line of a comment that the reader accepts
  pub load_line-shown :
      (index last_id : ℕ) (numbers : List (Str × ℕ)) (visible : SeenVisible)
      (seen : List ((Str × ℕ) × Str)) (c : Comment) (v : VisibleComment) (line d : Str)
      → Agrees numbers visible seen
      → IsShowable c
      → Seen last_id numbers visible c v
      → get_to 10 c.created_at ≡ some d
      → to_json (snapshot_line v d) ≡ some line
      → load_line from_json index numbers seen line ≡ ok (shown v)
  unfolding load_line
  load_line-shown index last_id numbers visible seen c v line d agrees good q date j =
      let (d', f, dated) = good.date in
      let e : shown v ≡ read_back (snapshot_line v d) =
        shown_date v d (ap (get_to 10) q.created_at ∙ date) in
      let (p, o) = laws.object (snapshot_line v d) line j in
      let full : is_empty line ≡ false = rw o (object-not_empty p) in
      let back = laws.round_trip (snapshot_line v d) line j in
      let reply =
        check_reply-ok numbers visible seen agrees index c (read_back (snapshot_line v d)) q.reply
          q.target in
      let fields : bad_fields (read_back (snapshot_line v d)) ≡ false = ground (
        arith,
        ap valid_target q.target ∙ good.target,
        ap (λ s. is_empty s || ltb 32 (len s)) q.author ∙ good.author,
        ap (λ s. is_empty s || ltb 512 (len s)) q.text ∙ good.text,
        dated,
        f,
        date,
      ) in
      let number = ap (λ t. checked_suc (number_of t numbers)) q.target ∙ q.number in
      let run : load_line from_json index numbers seen line ≡ ok (read_back (snapshot_line v d)) =
        ground (arith, full, back, fields, number, reply) in
      run ∙ ap ok (sym e)
