-- ===== src/Blog/Comments/EndToEnd.antt =====
-- The snapshot that jaild writes of the comments of a store, as the reader in the jail loads it
-- (crates/servers/jaild/src/jail.rs and crates/tools/jailbin/src/blog/comments.rs).
use termblog.Prelude.{
  ℕ, ◌+◌, ◌≡◌, refl, ap, sym, ◌∙◌, subst, inl, inr, Bool, true, false, if◌then◌else◌, List, [], ◌∷◌,
  ◌++◌, map, Option, some, ok, filter, All, arith, Bool-cases, Option-cases, Result-cases,
}
use termblog.Prelude.Text.{Str, eq, split}
use termblog.Prelude.Text.Order.{lines}
use termblog.Prelude.Text.Objects.{lines-cons}
use termblog.Commentd.Protocol.{
  Comment, VisibleComment, find_seen, visible_one, visible_from, visible_comments,
}
use termblog.Jaild.Snapshot.{SnapshotLine, get_to, snapshot_line, snapshot_text, snapshot_bytes}
use termblog.Blog.Comments.{SnapshotComment, valid_date10, load_line, load_lines, load}
use termblog.Commentd.Stored.{StoredComment, view, validate_stored}
use termblog.Commentd.Store.{Store}
use termblog.Commentd.Client.{all_comments}
use termblog.Commentd.Client.Snapshot.{serving, all_comments_sound}
use termblog.Commentd.Client.Pages.{wanted_comments}
use termblog.Commentd.Query.{wanted}
use termblog.Commentd.Stored
use termblog.Commentd.Reopen.{Accepted, IsValid}
use termblog.Blog.Comments.Line.{
  CodecLaws, IsShowable, shown, SeenVisible, Agrees, visible_one-Seen, Agrees-later,
  load_line-shown,
}

pair : {a b c d : Str} → a ≡ c → b ≡ d → ◌≡◌ {A = Str × Str} (a, b) (c, d)
pair e f = λ i. (e i, f i)

nothing_seen : Agrees [] [] []
nothing_seen = record { at = λ id target r h. absurd (unfold find_seen in cc h) }

module _ (to_json : SnapshotLine → Option Str) (from_json : Str → Option SnapshotComment)
    (laws : CodecLaws to_json from_json) where
  -- what a snapshot of one more comment is made of
  snapshot_text-parts :
      (v : VisibleComment) (vs : List VisibleComment) (text : Str)
      → snapshot_text to_json (v ∷ vs) ≡ ok text
      → (d : Str) × (line : Str) × (rest : Str) × (get_to 10 v.created_at ≡ some d)
        × (to_json (snapshot_line v d) ≡ some line)
        × (snapshot_text to_json vs ≡ ok rest)
        × (text ≡ line ++ (b'\n' ∷ rest))
  unfolding snapshot_text
  snapshot_text-parts v vs text h = elim (Option-cases (get_to 10 v.created_at)) [
    | inl n ↦ absurd (ground (arith, h, n))
    | inr (d, a) ↦ elim (Option-cases (to_json (snapshot_line v d))) [
      | inl n ↦ absurd (ground (arith, h, a, n))
      | inr (line, b) ↦ elim (Result-cases (snapshot_text to_json vs)) [
        | inr (x, k) ↦ absurd (ground (arith, h, a, b, k))
        | inl (rest, k) ↦ (d, line, rest, a, b, k, ground (arith, h, a, b, k))
      ]
    ]
  ]

  visible_from-parts :
      (last_id : ℕ) (numbers : List (Str × ℕ)) (visible : SeenVisible) (c : Comment)
      (cs : List Comment) (vs : List VisibleComment)
      → visible_from last_id numbers visible (c ∷ cs) ≡ ok vs
      → (v : VisibleComment) × (rest : List VisibleComment) × (visible_one last_id numbers visible c
          ≡ ok v)
        × (visible_from c.id
              ((c.target, v.number) ∷ numbers)
              ((c.id, (c.target, record { number = v.number; author = c.author })) ∷ visible)
              cs
            ≡ ok rest)
        × (vs ≡ v ∷ rest)
  unfolding visible_from
  visible_from-parts last_id numbers visible c cs vs h =
      elim (Result-cases (visible_one last_id numbers visible c)) [
        | inr (x, k) ↦ absurd (ground (arith, h, k))
        | inl (v, k) ↦
            elim (Result-cases (
              visible_from c.id ((c.target, v.number) ∷ numbers)
                ((c.id, (c.target, record { number = v.number; author = c.author })) ∷ visible)
                cs)) [
                  | inr (x, l) ↦ absurd (ground (arith, h, k, l))
                  | inl (rest, l) ↦ (v, rest, k, l, ground (arith, h, k, l))
                ]
      ]

  load_lines-cons :
      (target : Str) (index : ℕ) (numbers : List (Str × ℕ)) (seen : List ((Str × ℕ) × Str))
      (line : Str) (rest : List Str) (s : SnapshotComment) (t author : Str)
      (out : List SnapshotComment)
      → load_line from_json index numbers seen line ≡ ok s
      → s.target ≡ t
      → s.author ≡ author
      → load_lines from_json target
          (index + 1)
          ((t, s.number) ∷ numbers)
          (((t, s.number), author) ∷ seen)
          rest
        ≡ ok out
      → load_lines from_json target index numbers seen (line ∷ rest)
        ≡ ok (if eq s.target target then s ∷ out else out)
  unfolding load_lines
  load_lines-cons target index numbers seen line rest s t author out first e f h =
      let h' : load_lines from_json target (index + 1) ((s.target, s.number) ∷ numbers)
            (((s.target, s.number), s.author) ∷ seen) rest
          ≡ ok out =
        ap
          (λ (x : Str × Str).
            load_lines from_json target (index + 1) ((x.0, s.number) ∷ numbers)
              (((x.0, s.number), x.1) ∷ seen) rest)
          (pair e f)
        ∙ h in
      ground (arith, first, h')

  load_lines-shown :
      (target : Str) (index last_id : ℕ) (numbers : List (Str × ℕ)) (visible : SeenVisible)
      (seen : List ((Str × ℕ) × Str)) (cs : List Comment) (vs : List VisibleComment) (text : Str)
      → Agrees numbers visible seen
      → All IsShowable cs
      → visible_from last_id numbers visible cs ≡ ok vs
      → snapshot_text to_json vs ≡ ok text
      → load_lines from_json target index numbers seen (lines text)
        ≡ ok (filter (λ c. eq c.target target) (map shown vs))
  load_lines-shown target index last_id numbers visible seen [] vs text a good h k =
      unfold visible_from snapshot_text load_lines lines split in ground (arith, h, k)
  load_lines-shown target index last_id numbers visible seen (c ∷ cs) vs text a good h k =
      let (v, ws, one, more, e) = visible_from-parts last_id numbers visible c cs vs h in
      let q = visible_one-Seen last_id numbers visible c v one in
      let (d, line, rest, date, j, later, t) =
        snapshot_text-parts v ws text (sym (ap (snapshot_text to_json) e) ∙ k) in
      let (p, o) = laws.object (snapshot_line v d) line j in
      let l : lines text ≡ line ∷ lines rest =
        rw (t, o) (lines-cons p rest (rw (sym o) (laws.one_line (snapshot_line v d) line j))) in
      let first =
        load_line-shown to_json from_json laws index last_id numbers visible seen c v line d a
          good.0 q (ap (get_to 10) (sym q.created_at) ∙ date) j in
      let ih =
        load_lines-shown target (index + 1) c.id _ _ _ cs ws rest
          (Agrees-later numbers visible seen a c v last_id good.0 q) good.1 more later in
      let run =
        load_lines-cons target index numbers seen line (lines rest) (shown v) c.target c.author
          (filter (λ s. eq s.target target) (map shown ws)) first q.target q.author ih in
      ap (load_lines from_json target index numbers seen) l
      ∙ run
      ∙ sym (ap (λ us. ok (filter (λ s. eq s.target target) (map shown us))) e)

  -- Given the laws of serde_json: if jaild writes a snapshot of comments whose fields the reader
  -- accepts, then the reader loads it, and gets, for each target, the comments that the public view
  -- shows of it, in order.
  pub load-snapshot_bytes :
      (comments : List Comment) (text target : Str)
      → All IsShowable comments
      → snapshot_bytes to_json comments ≡ ok text
      → (visible : List VisibleComment) × (visible_comments comments ≡ ok visible)
        × (load from_json text target ≡ ok (filter (λ c. eq c.target target) (map shown visible)))
  unfolding snapshot_bytes load visible_comments
  load-snapshot_bytes comments text target good h =
      elim (Result-cases (visible_comments comments)) [
        | inr (x, k) ↦ absurd (ground (arith, h, k))
        | inl (vs, k) ↦ (
          vs,
          k,
          load_lines-shown target 0 0 [] [] [] comments vs text nothing_seen good k
              (ground (arith, h, k)),
        )
      ]

-- The comments of a valid store are such comments, if a time that chrono reads begins with its date.
module _ (env : Stored.Env)
    (dated : (time : Str) (t : env.Instant)
      → env.parse_time time ≡ some t
      → (d : Str) × (get_to 10 time ≡ some d) × (valid_date10 d ≡ true)) where
  view-IsShowable : (c : StoredComment) → Accepted env c → IsShowable (view c)
  unfolding view validate_stored
  view-IsShowable c h = elim (Option-cases (env.parse_time c.created_at)) [
    | inl n ↦ absurd (ground (arith, h, n))
    | inr (t, p) ↦ record {
      target = ground (arith, h);
      author = ground (arith, h);
      text = ground (arith, h);
      date = dated c.created_at t p;
    }
  ]

  views-IsShowable :
      (awaiting : Bool) (cs : List StoredComment)
      → All (Accepted env) cs
      → All IsShowable (map view (filter (λ c. wanted awaiting c.status) cs))
  views-IsShowable awaiting [] h = tt
  views-IsShowable awaiting (c ∷ cs) h = elim (Bool-cases (wanted awaiting c.status)) [
    | inl e ↦ rw e (view-IsShowable c h.0, views-IsShowable awaiting cs h.1)
    | inr e ↦ rw e (views-IsShowable awaiting cs h.1)
  ]

  wanted-IsShowable :
      (awaiting : Bool) (s : Store)
      → IsValid env s.comments
      → All IsShowable (wanted_comments awaiting s)
  unfolding wanted_comments
  wanted-IsShowable awaiting s v = views-IsShowable awaiting s.comments v.accepted

  -- Given the laws of serde_json, and a time that chrono reads beginning with its date: if jaild gets
  -- the approved comments of a valid store that does not change meanwhile, and writes their snapshot,
  -- then the reader in the jail loads it, and gets, for each target, the comments that the public view
  -- shows of it, in order.
  pub load-stored :
      (to_json : SnapshotLine → Option Str) (from_json : Str → Option SnapshotComment)
      → CodecLaws to_json from_json
      → (s : Store) (fuel : ℕ) (comments : List Comment) (text target : Str)
      → IsValid env s.comments
      → all_comments (serving false (λ n. s)) fuel ≡ ok comments
      → snapshot_bytes to_json comments ≡ ok text
      → (visible : List VisibleComment) × (visible_comments comments ≡ ok visible)
        × (load from_json text target ≡ ok (filter (λ c. eq c.target target) (map shown visible)))
  load-stored to_json from_json laws s fuel comments text target v h k =
      let (m, e) =
        all_comments_sound false (λ n. s) (λ n. v.ascending) (λ m n q. refl) fuel comments h in
      load-snapshot_bytes to_json from_json laws comments text target
        (subst (All IsShowable) (sym e) (wanted-IsShowable false s v)) k
