-- ===== src/Commentd/Examples.antt =====
-- The theorems on the comment store at concrete inputs. The packages are stood for by functions of
-- which one comment has a JSON text, times are numbers, and the digest is constant.
use termblog.Prelude.{
  ℕ, ◌+◌, ◌-◌, ◌≡◌, refl, inl, inr, Bool, true, false, not, ◌&&◌, leb, ◌==◌, if◌then◌else◌, List,
  [], ◌∷◌, Option, none, some, ok, is_empty, arith, Bool-cases,
}
use termblog.Prelude.Text.{Str, lit, eq, split, split_once, trim, strip_suffix}
use termblog.Prelude.Text.Order.{lines}
use termblog.Prelude.Text.Splitting.{eq_iff}
use termblog.Commentd.Stored.{
  Env, Status, pending, approved, deleted, is_pending, StoredComment, validate_stored,
  validate_relations, relations_from, encode, revision, hash_ip,
}
use termblog.Commentd.Store.{Store, CommitIo, created, already_exists, commit}
use termblog.Commentd.Open.{read_lines, open_store}
use termblog.Commentd.Submit.{
  SubmitRequest, SubmitResponse, submit, admit, recent_count, is_duplicate, next_id,
}
use termblog.Commentd.Reopen.{EnvLaws}
use termblog.Commentd.Reopen.{open_store-encode}
use termblog.ContentModel.Validate.{validate_target}
use termblog.Commentd.Line.{
  normalize_line, normalize_controls, normalize_comment_controls, reply_prefix, numbered_body,
  parse_u64,
}
use termblog.Commentd.Line.Clean.{IsClean, normalize_line-IsClean}
use termblog.Commentd.Protocol.{VisibleComment, visible_comments, find_seen, valid_target}
use termblog.Commentd.Query.{approved_in}
use termblog.Commentd.Query.Available.{Shows, visible_comments-Shows}
use termblog.Commentd.Store.Commit.{Outcome, commit-Outcome}
use termblog.Commentd.Submit.{resolve_reply_id}
use termblog.Commentd.Submit.Accepted.{
  get_elem?, id_of, IsAccepted, submit-IsAccepted, resolve_reply_id-approved_in,
}
use termblog.Commentd.Invariant.{WellFormed, open_store-WellFormed}
use termblog.Commentd.Server.{Parser, Daemon, Action, check, public_side, private_side, serve}
use termblog.Commentd.Server.Lifetime.{serve-WellFormed, serve-kept}
use termblog.Commentd.Invariant.Kept.{submit-WellFormed}

abbrev zeros : ℕ → Str
zeros ℕ.zero = []
zeros (ℕ.suc n) = b'0' ∷ zeros n

-- what "alice: hi" is stored as, at time 7
abbrev sample : StoredComment
sample = record {
  id = 1;
  target = lit "/";
  author = lit "alice";
  text = lit "hi";
  reply_to_id = none;
  ip_hash = zeros 64;
  created_at = 7 ∷ [];
  status = pending;
}

abbrev has_no_parent : Option ℕ → Bool
has_no_parent none = true
has_no_parent (some n) = false

abbrev is_sample : StoredComment → Bool
is_sample c =
    c.id == 1
    && eq c.target (lit "/")
    && eq c.author (lit "alice")
    && eq c.text (lit "hi")
    && has_no_parent c.reply_to_id
    && eq c.ip_hash (zeros 64)
    && eq c.created_at (7 ∷ [])
    && is_pending c.status

abbrev parse_time : Str → Option ℕ
parse_time [] = none
parse_time (t ∷ []) = some t
parse_time (t ∷ u ∷ rest) = none

abbrev packages : Env
packages = record {
  Instant = ℕ;
  parse_time = parse_time;
  format_time = λ t. t ∷ [];
  elapsed_le = λ now t seconds. leb (now - t) seconds;
  digest = λ bs. zeros 64;
  is_ip = λ s. not (is_empty s);
  to_json = λ c. if is_sample c then some (lit "{}") else none;
  from_json = λ line. if eq line (lit "{}") then some sample else none;
}

has_no_parent→≡ : (o : Option ℕ) → has_no_parent o ≡ true → o ≡ none
has_no_parent→≡ none h = refl
has_no_parent→≡ (some n) h = cc

is_pending→≡ : (s : Status) → is_pending s ≡ true → s ≡ pending
is_pending→≡ pending h = refl
is_pending→≡ approved h = cc
is_pending→≡ deleted h = cc

is_sample→≡ : (c : StoredComment) → is_sample c ≡ true → c ≡ sample
is_sample→≡ c h =
    let e1 : c.id ≡ 1 = ground arith in
    let e2 : c.target ≡ lit "/" = ground (arith, eq_iff c.target (lit "/")) in
    let e3 : c.author ≡ lit "alice" = ground (arith, eq_iff c.author (lit "alice")) in
    let e4 : c.text ≡ lit "hi" = ground (arith, eq_iff c.text (lit "hi")) in
    let e5 : c.reply_to_id ≡ none = ground (arith, has_no_parent→≡ c.reply_to_id) in
    let e6 : c.ip_hash ≡ zeros 64 = ground (arith, eq_iff c.ip_hash (zeros 64)) in
    let e7 : c.created_at ≡ 7 ∷ [] = ground (arith, eq_iff c.created_at (7 ∷ [])) in
    let e8 : c.status ≡ pending = ground (arith, is_pending→≡ c.status) in
    λ i. record {
      id = e1 i;
      target = e2 i;
      author = e3 i;
      text = e4 i;
      reply_to_id = e5 i;
      ip_hash = e6 i;
      created_at = e7 i;
      status = e8 i;
    }

json_parts :
    (c : StoredComment) (line : Str)
    → packages.to_json c ≡ some line
    → (c ≡ sample) × (line ≡ lit "{}")
json_parts c line h = elim (Bool-cases (is_sample c)) [
  | inl e ↦ (is_sample→≡ c e, ground (arith, e))
  | inr e ↦ absurd (ground (arith, e))
]

packages-EnvLaws : EnvLaws packages
packages-EnvLaws = record {
  json_round_trip = λ c line h. let (s, l) = json_parts c line h in rw (s, l) (unfold eq in refl);
  json_object = λ c line h. (lit "{", (json_parts c line h).1);
  json_one_line = λ c line h. rw ((json_parts c line h).1) refl;
  time_round_trip = λ t. (t, refl);
  digest_length = λ bs. refl;
  digest_hexadecimal = λ bs. refl;
}

abbrev good_io : CommitIo
good_io = record {
  opens = already_exists ∷ created ∷ [];
  write_all = true;
  sync_all = true;
  rename = true;
  sync_directory = true;
}

abbrev empty_store : Store
empty_store = record {
  data_file = [];
  salt = 1 ∷ 2 ∷ [];
  comments = [];
  revision = zeros 64;
  poisoned = false;
}

abbrev one_comment : Store
one_comment = record {
  data_file = lit "{}\n";
  salt = 1 ∷ 2 ∷ [];
  comments = sample ∷ [];
  revision = zeros 64;
  poisoned = false;
}

abbrev request : SubmitRequest
request = record { target = lit "/"; line = lit "alice: hi"; ip = lit "192.0.2.1" }

abbrev accepted_response : SubmitResponse
accepted_response = record { accepted = true; id = some 1; error = none }

empty_store-opens : open_store packages (1 ∷ 2 ∷ []) (some []) ≡ ok empty_store
unfolding open_store read_lines lines split encode revision validate_relations relations_from
empty_store-opens = refl

one_comment-opens : open_store packages (1 ∷ 2 ∷ []) (some (lit "{}\n")) ≡ ok one_comment
unfolding open_store read_lines lines split strip_suffix encode revision validate_relations
    validate_stored eq valid_target validate_target normalize_controls normalize_comment_controls
    relations_from
one_comment-opens = refl

submit-request : submit packages 7 good_io empty_store request ≡ (ok accepted_response, one_comment)
unfolding submit admit valid_target validate_target eq normalize_line trim
    normalize_comment_controls reply_prefix split_once recent_count is_duplicate next_id commit
    encode hash_ip revision
submit-request = refl

empty_store-WellFormed : WellFormed packages empty_store
empty_store-WellFormed =
    open_store-WellFormed packages (1 ∷ 2 ∷ []) (some []) empty_store empty_store-opens

one_comment-WellFormed : WellFormed packages one_comment
one_comment-WellFormed =
    open_store-WellFormed packages (1 ∷ 2 ∷ []) (some (lit "{}\n")) one_comment one_comment-opens

submit-WellFormed_example : WellFormed packages (submit packages 7 good_io empty_store request).1
submit-WellFormed_example =
    submit-WellFormed packages packages-EnvLaws 7 good_io empty_store request empty_store-WellFormed

submit-IsAccepted_example : IsAccepted packages 7 empty_store one_comment request accepted_response
submit-IsAccepted_example =
    submit-IsAccepted packages 7 good_io empty_store one_comment request accepted_response
      submit-request refl

sample-encode : encode packages (sample ∷ []) ≡ ok (lit "{}\n")
unfolding encode eq
sample-encode = refl

open_store-encode_example :
    open_store packages (1 ∷ 2 ∷ []) (some (lit "{}\n"))
    ≡ ok (record {
      data_file = lit "{}\n";
      salt = 1 ∷ 2 ∷ [];
      comments = sample ∷ [];
      revision = revision packages (lit "{}\n");
      poisoned = false;
    })
open_store-encode_example =
    open_store-encode packages packages-EnvLaws (1 ∷ 2 ∷ []) (sample ∷ []) (lit "{}\n")
      one_comment-WellFormed.valid sample-encode

commit-Outcome_example :
    Outcome packages (sample ∷ []) empty_store (commit packages good_io (sample ∷ []) empty_store)
commit-Outcome_example = commit-Outcome packages good_io (sample ∷ []) empty_store

alice_line :
    normalize_line (lit "alice: #2: hi")
    ≡ ok (some (record { author = lit "alice"; text = lit "hi"; reply_number = some 2 }))
unfolding normalize_line trim normalize_comment_controls reply_prefix split_once numbered_body
    parse_u64
alice_line = refl

normalize_line-IsClean_example :
    IsClean (record { author = lit "alice"; text = lit "hi"; reply_number = some 2 })
normalize_line-IsClean_example =
    normalize_line-IsClean (lit "alice: #2: hi")
      (record { author = lit "alice"; text = lit "hi"; reply_number = some 2 }) alice_line

-- an approved comment, and a pending reply to it
abbrev thread : List StoredComment
thread =
    record sample { status = approved }
    ∷ record sample { id = 2; reply_to_id = some 1 }
    ∷ record sample { id = 4; reply_to_id = some 1; status = approved }
    ∷ []

thread-related : validate_relations thread ≡ ok tt
unfolding validate_relations relations_from find_seen eq
thread-related = refl

visible_comments-Shows_example :
    (vs : List VisibleComment) × (visible_comments (approved_in (lit "/") thread) ≡ ok vs)
    × Shows 0 (approved_in (lit "/") thread) vs
visible_comments-Shows_example =
    visible_comments-Shows (lit "/") thread (omega arith, (omega arith, (omega arith, tt)))
      (omega arith, (omega arith, (omega arith, tt))) thread-related

resolve_reply_id-approved_in_example :
    resolve_reply_id thread (lit "/") (1 + 1) ≡ id_of (get_elem? (approved_in (lit "/") thread) 1)
resolve_reply_id-approved_in_example = resolve_reply_id-approved_in thread (lit "/") 1 (omega arith)

-- the payload says which request it is
abbrev parser : Parser
parser = record {
  parse_query = λ p. none;
  parse_submit = λ p. if is_empty p then none else some request;
  parse_page = λ p. none;
  parse_ids = λ p. some p;
}

abbrev daemon : Daemon
daemon = record { store = empty_store; answered = 0; exited = false }

-- a submission, the approval of it, and the check behind the first of them
abbrev actions : List (Action packages)
actions =
    Action.request private_side 7 good_io (record { kind = 1; payload = 1 ∷ [] })
    ∷ Action.request private_side 8 good_io (record { kind = 4; payload = 1 ∷ [] })
    ∷ check
    ∷ []

serve-WellFormed_example : WellFormed packages (serve packages parser actions daemon).store
serve-WellFormed_example =
    serve-WellFormed packages packages-EnvLaws parser actions daemon empty_store-WellFormed

abbrev public_actions : List (Action packages)
public_actions =
    Action.request public_side 7 good_io (record { kind = 1; payload = 1 ∷ [] }) ∷ check ∷ []

serve-kept_example : (serve packages parser public_actions daemon).store ≡ empty_store
serve-kept_example = serve-kept packages parser public_actions daemon (inl (refl, (tt, tt)))
