-- ===== src/Jaild/Snapshot.antt =====
-- The snapshot of the comments that jaild writes for the jails: `snapshot_bytes` and
-- `approved_counts` of crates/servers/jaild/src/jail.rs.
use termblog.Prelude.{
  ℕ, ◌-◌, leb, ◌==◌, if◌then◌else◌, List, [], ◌∷◌, ◌++◌, Option, none, some, Result, ok, err, ◌>>=◌,
  ok_or,
}
use mathlib.Core.Option
use termblog.Prelude.Text.{Str, len_utf8}
use termblog.Commentd.Protocol.{
  Comment, VisibleReply, VisibleComment, VisibleError, visible_comments, checked_suc, number_of,
}

pub record SnapshotLine : Type 0 where
  pub number : ℕ
  pub target : Str
  pub author : Str
  pub date10 : Str
  pub text : Str
  pub reply_to : Option VisibleReply

pub data SnapshotError : Type 0 where
  not_visible : VisibleError → SnapshotError
  created_at_too_short serialize_failed count_overflow : SnapshotError

-- `get(..n)`: the first `n` bytes, if a character ends there
unfoldable pub get_to : ℕ → Str → Option Str
get_to n [] = if n == 0 then some [] else none
get_to n (c ∷ s) =
    let rest = Option.map (◌∷◌ c) (get_to (n - len_utf8 c) s) in
    if n == 0 then some [] else if leb (len_utf8 c) n then rest else none

abbrev pub from_visible : {A : Type 0} → Result VisibleError A → Result SnapshotError A
from_visible (ok a) = ok a
from_visible (err e) = err (not_visible e)

abbrev pub snapshot_line : VisibleComment → Str → SnapshotLine
snapshot_line c date10 = record {
  number = c.number;
  target = c.target;
  author = c.author;
  date10 = date10;
  text = c.text;
  reply_to = c.reply_to;
}

-- `serde_json::to_writer` is an argument
module _ (to_json : SnapshotLine → Option Str) where
  -- the loop of `snapshot_bytes`
  unfoldable pub snapshot_text : List VisibleComment → Result SnapshotError Str
  snapshot_text [] = ok []
  snapshot_text (c ∷ cs) = do
    date10 ← ok_or (get_to 10 c.created_at) created_at_too_short
    line ← ok_or (to_json (snapshot_line c date10)) serialize_failed
    rest ← snapshot_text cs
    ok (line ++ (b'\n' ∷ rest))

  -- `snapshot_bytes`, as a text
  unfoldable pub snapshot_bytes : List Comment → Result SnapshotError Str
  snapshot_bytes comments = do
    visible ← from_visible (visible_comments comments)
    snapshot_text visible

-- the loop of `approved_counts`: the entry in front counts
unfoldable pub count_targets : List (Str × ℕ) → List Comment → Result SnapshotError (List (Str × ℕ))
count_targets counts [] = ok counts
count_targets counts (c ∷ cs) = do
  n ← ok_or (checked_suc (number_of c.target counts)) count_overflow
  count_targets ((c.target, n) ∷ counts) cs

unfoldable pub approved_counts : List Comment → Result SnapshotError (List (Str × ℕ))
approved_counts comments = do
  visible ← from_visible (visible_comments comments)
  count_targets [] comments
