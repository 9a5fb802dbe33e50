-- ===== src/Commentd/Protocol.antt =====
-- crates/servers/commentd/src/protocol.rs: the public view of the comments. A `u64` is a number; a
-- sum that may pass 2^64 - 1 is checked as in the source.
use termblog.Prelude.{
  ℕ, ◌+◌, ◌-◌, ◌^◌, Bool, not, ◌||◌, leb, ◌==◌, within, if◌then◌else◌, List, [], ◌∷◌, Option, none,
  some, Result, ok, err, ◌>>=◌, ◌>>◌, guard_not, ok_or,
}
use termblog.Prelude.Text.{Str, eq}
use termblog.ContentModel.Validate.{Checked, validate_target}

abbrev pub default_limit : ℕ
default_limit = 100

abbrev pub max_limit : ℕ
max_limit = 100

abbrev pub max_comment_bytes : ℕ
max_comment_bytes = 512

abbrev pub u64_max : ℕ
u64_max = 2 ^ 64 - 1

-- `n.checked_add(1)`
abbrev pub checked_suc : ℕ → Option ℕ
checked_suc n = if n == u64_max then none else some (n + 1)

pub record Comment : Type 0 where
  pub id : ℕ
  pub target : Str
  pub author : Str
  pub text : Str
  pub created_at : Str
  pub reply_to_id : Option ℕ

pub record VisibleReply : Type 0 where
  pub number : ℕ
  pub author : Str

pub record VisibleComment : Type 0 where
  pub number : ℕ
  pub target : Str
  pub author : Str
  pub text : Str
  pub created_at : Str
  pub reply_to : Option VisibleReply

-- `unwrap_or`
abbrev pub unwrap_or {ℓ} : {A : Type ℓ} → Option A → A → A
unwrap_or none d = d
unwrap_or (some a) d = a

pub data LimitError : Type 0 where
  limit_out_of_range : LimitError

unfoldable pub page_limit : Option ℕ → Result LimitError ℕ
page_limit limit =
    let n = unwrap_or limit default_limit in
    if not (within 1 max_limit n) then err limit_out_of_range else ok n

abbrev is_ok : Checked → Bool
is_ok (ok _) = Bool.true
is_ok (err _) = Bool.false

unfoldable pub valid_target : Str → Bool
valid_target target = is_ok (validate_target target)

-- the messages of `visible_comments`
pub data VisibleError : Type 0 where
  ids_not_increasing numbers_exhausted : VisibleError
  reply_missing reply_crosses_target : ℕ → VisibleError

-- the map `next_number`: the entry in front counts, and none is 0
unfoldable pub number_of : Str → List (Str × ℕ) → ℕ
number_of target [] = 0
number_of target ((t, n) ∷ m) = if eq t target then n else number_of target m

-- the map `seen`: the entry in front counts
unfoldable pub find_seen {ℓ} : {V : Type ℓ} → ℕ → List (ℕ × V) → Option V
find_seen id [] = none
find_seen id ((i, v) ∷ m) = if i == id then some v else find_seen id m

-- the parent of a reply, which must stand in the same target
unfoldable pub find_reply :
    Comment → List (ℕ × (Str × VisibleReply)) → Result VisibleError (Option VisibleReply)
find_reply comment seen = elim comment.reply_to_id [
  | none ↦ ok none
  | some parent_id ↦ elim (find_seen parent_id seen) [
    | none ↦ err (reply_missing parent_id)
    | some (parent_target, parent) ↦
        if not (eq parent_target comment.target)
        then err (reply_crosses_target parent_id)
        else ok (some parent)
  ]
]

-- one round of the loop: `last_id`, `next_number` and `seen` are the state before it
unfoldable pub visible_one :
    ℕ
    → List (Str × ℕ)
    → List (ℕ × (Str × VisibleReply))
    → Comment
    → Result VisibleError VisibleComment
unfolding find_reply
visible_one last_id next_number seen comment = do
  guard_not (comment.id == 0 || leb comment.id last_id) ids_not_increasing
  number ← ok_or (checked_suc (number_of comment.target next_number)) numbers_exhausted
  reply_to ← find_reply comment seen
  ok (record {
    number = number;
    target = comment.target;
    author = comment.author;
    text = comment.text;
    created_at = comment.created_at;
    reply_to = reply_to;
  })

unfoldable pub visible_from :
    ℕ
    → List (Str × ℕ)
    → List (ℕ × (Str × VisibleReply))
    → List Comment
    → Result VisibleError (List VisibleComment)
visible_from last_id next_number seen [] = ok []
visible_from last_id next_number seen (comment ∷ rest) = do
  v ← visible_one last_id next_number seen comment
  out ←
      visible_from comment.id ((comment.target, v.number) ∷ next_number)
        ((comment.id, (comment.target, record { number = v.number; author = comment.author }))
          ∷ seen)
        rest
  ok (v ∷ out)

unfoldable pub visible_comments : List Comment → Result VisibleError (List VisibleComment)
visible_comments = visible_from 0 [] []
