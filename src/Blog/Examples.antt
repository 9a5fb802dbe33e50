-- ===== src/Blog/Examples.antt =====
-- The theorems on the snapshot of the comments at a store with one approved comment. The packages are
-- stood for by functions that know one time and one line.
use termblog.Prelude.{
  ℕ, ◌-◌, ◌≡◌, refl, ap, inl, inr, Bool, true, false, not, ◌&&◌, leb, ◌==◌, if◌then◌else◌, List, [],
  ◌∷◌, map, Option, none, some, ok, filter, is_empty, arith, Bool-cases,
}
use termblog.Prelude.Text.{Str, lit, eq}
use termblog.Prelude.Text.Splitting.{eq_iff}
use termblog.ContentModel.Validate.{validate_target}
use termblog.Commentd.Line.{normalize_controls, normalize_comment_controls}
use termblog.Commentd.Protocol.{
  VisibleReply, VisibleComment, visible_comments, visible_from, visible_one, number_of,
  valid_target,
}
use termblog.Commentd.Stored.{
  Env, approved, StoredComment, view, validate_stored, validate_relations, relations_from,
}
use termblog.Commentd.Store.{Store}
use termblog.Commentd.Reopen.{IsValid}
use termblog.Commentd.Client.{all_comments}
use termblog.Commentd.Client.Pages.{wanted_comments}
use termblog.Commentd.Client.Snapshot.{serving, all_comments_complete}
use termblog.Jaild.Snapshot.{SnapshotLine, get_to, snapshot_text, snapshot_bytes}
use termblog.Blog.Comments.{SnapshotComment, valid_date10, digits_from, load}
use termblog.Blog.Comments.Line.{CodecLaws, read_back, shown}
use termblog.Blog.Comments.EndToEnd.{load-stored}

abbrev noon : Str
noon = lit "2026-01-02T12:00:00Z"

abbrev zeros : ℕ → Str
zeros ℕ.zero = []
zeros (ℕ.suc n) = b'0' ∷ zeros n

abbrev packages : Env
packages = record {
  Instant = ℕ;
  parse_time = λ s. if eq s noon then some 0 else none;
  format_time = λ t. noon;
  elapsed_le = λ now t seconds. leb (now - t) seconds;
  digest = λ bs. zeros 64;
  is_ip = λ s. not (is_empty s);
  to_json = λ c. none;
  from_json = λ line. none;
}

packages_dated :
    (time : Str) (t : ℕ)
    → packages.parse_time time ≡ some t
    → (d : Str) × (get_to 10 time ≡ some d) × (valid_date10 d ≡ true)
unfolding get_to valid_date10 digits_from
packages_dated time t h = elim (Bool-cases (eq time noon)) [
  | inl e ↦ (lit "2026-01-02", ap (get_to 10) ((eq_iff time noon).0 e), refl)
  | inr e ↦ absurd (ground (arith, h, e))
]

abbrev greeting_line : SnapshotLine
greeting_line = record {
  number = 1;
  target = lit "/";
  author = lit "alice";
  date10 = lit "2026-01-02";
  text = lit "hi";
  reply_to = none;
}

abbrev no_reply : Option VisibleReply → Bool
no_reply none = true
no_reply (some r) = false

no_reply→≡ : (o : Option VisibleReply) → no_reply o ≡ true → o ≡ none
no_reply→≡ none h = refl
no_reply→≡ (some r) h = cc

abbrev is_first : SnapshotLine → Bool
is_first l =
    l.number == 1
    && eq l.target (lit "/")
    && eq l.author (lit "alice")
    && eq l.date10 (lit "2026-01-02")
    && eq l.text (lit "hi")
    && no_reply l.reply_to

is_first→≡ : (l : SnapshotLine) → is_first l ≡ true → l ≡ greeting_line
is_first→≡ l h =
    let e1 : l.number ≡ 1 = ground (arith, h) in
    let e2 : l.target ≡ lit "/" = ground (arith, h, eq_iff l.target (lit "/")) in
    let e3 : l.author ≡ lit "alice" = ground (arith, h, eq_iff l.author (lit "alice")) in
    let e4 : l.date10 ≡ lit "2026-01-02" = ground (arith, h, eq_iff l.date10 (lit "2026-01-02")) in
    let e5 : l.text ≡ lit "hi" = ground (arith, h, eq_iff l.text (lit "hi")) in
    let e6 : l.reply_to ≡ none = ground (arith, h, no_reply→≡ l.reply_to) in
    λ i. record {
      number = e1 i;
      target = e2 i;
      author = e3 i;
      date10 = e4 i;
      text = e5 i;
      reply_to = e6 i;
    }

abbrev to_json : SnapshotLine → Option Str
to_json l = if is_first l then some (lit "{}") else none

abbrev from_json : Str → Option SnapshotComment
from_json line = if eq line (lit "{}") then some (read_back greeting_line) else none

to_json_parts :
    (l : SnapshotLine) (line : Str)
    → to_json l ≡ some line
    → (l ≡ greeting_line) × (line ≡ lit "{}")
to_json_parts l line h = elim (Bool-cases (is_first l)) [
  | inl e ↦ (is_first→≡ l e, ground (arith, h, e))
  | inr e ↦ absurd (ground (arith, h, e))
]

json-CodecLaws : CodecLaws to_json from_json
json-CodecLaws = record {
  round_trip = λ l line h. let (s, e) = to_json_parts l line h in rw (s, e) (unfold eq in refl);
  object = λ l line h. (lit "{", (to_json_parts l line h).1);
  one_line = λ l line h. rw ((to_json_parts l line h).1) refl;
}

abbrev first_comment : StoredComment
first_comment = record {
  id = 1;
  target = lit "/";
  author = lit "alice";
  text = lit "hi";
  reply_to_id = none;
  ip_hash = zeros 64;
  created_at = noon;
  status = approved;
}

abbrev store : Store
store = record {
  data_file = [];
  salt = [];
  comments = first_comment ∷ [];
  revision = lit "r";
  poisoned = false;
}

store-IsValid : IsValid packages store.comments
unfolding validate_stored eq valid_target validate_target normalize_controls
    normalize_comment_controls validate_relations relations_from
store-IsValid = record { accepted = (refl, tt); ascending = omega arith; related = refl }

store_all : all_comments (serving false (λ n. store)) 2 ≡ ok (wanted_comments false store)
unfolding wanted_comments
store_all = all_comments_complete false store (omega arith) 2 (omega arith)

store_snapshot : snapshot_bytes to_json (wanted_comments false store) ≡ ok (lit "{}\n")
unfolding wanted_comments snapshot_bytes snapshot_text visible_comments visible_from visible_one
    view number_of get_to eq
store_snapshot = refl

load-stored_example :
    (visible : List VisibleComment) × (visible_comments (wanted_comments false store) ≡ ok visible)
    × (load from_json (lit "{}\n") (lit "/")
        ≡ ok (filter (λ c. eq c.target (lit "/")) (map shown visible)))
load-stored_example =
    load-stored packages packages_dated to_json from_json json-CodecLaws store 2
      (wanted_comments false store) (lit "{}\n") (lit "/") store-IsValid store_all store_snapshot
