-- ===== src/Statd/Validate.antt =====
-- The checks of requests in crates/servers/statd/src/store.rs.
pub mod Sorting
pub mod Sound
use termblog.Prelude.{
  ℕ, ◌+◌, ◌/◌, ◌%◌, ◌^◌, not, ◌||◌, ltb, ◌==◌, if◌then◌else◌, List, [], ◌∷◌, ◌++◌, Option, none,
  some, Result, ok, err, ◌>>=◌, ◌>>◌, guard_not, ok_or, length, is_empty,
}
use termblog.Prelude.Text.{Str, lit, eq, len}
use termblog.Prelude.Text.Order.{le}
use termblog.ContentModel.Validate.{PathModelError}
use termblog.ContentModel.Article.{parse}
use termblog.ContentModel.Scope.{ContentScope, from_target, contains_article}
use termblog.ContentModel.Manifest.{seen}
use termblog.Jaild.Quota.{IpAddr, v4, v6}
use termblog.Statd.Protocol.{
  max_snapshot_targets, max_snapshot_articles, max_article_key_len, Source, RecordEvent,
  SnapshotTargetRequest,
}

-- The messages of a refused request, and the failures of the database.
pub data StatdError : Type 0 where
  batch_size article_length article_mapping article_elsewhere invalid_ip : StatdError
  path_error : PathModelError → StatdError
  too_many_targets too_many_articles duplicate_target duplicate_article : StatdError
  counter_overflow database_failed : StatdError

abbrev pub from_path : {A : Type 0} → Result PathModelError A → Result StatdError A
from_path (ok a) = ok a
from_path (err e) = err (path_error e)

-- What the store takes from its packages: the parser and the printer of addresses, and HMAC-SHA-256.
pub record Env : Type 0 where
  -- `parse::<IpAddr>()`
  pub parse_ip : Str → Option IpAddr
  -- `Ipv4Addr::to_string` and `Ipv6Addr::to_string`, on the number of an address
  pub show_v4 : ℕ → Str
  pub show_v6 : ℕ → Str
  -- the MAC of a message under a key
  pub mac : List ℕ → List ℕ → List ℕ

-- `Ipv6Addr::to_ipv4_mapped`: the addresses of ::ffff:0:0/96
abbrev pub to_ipv4_mapped : ℕ → Option ℕ
to_ipv4_mapped n = if n / 2 ^ 32 == 0xffff then some (n % 2 ^ 32) else none

pub record ValidEvent : Type 0 where
  pub source : Source
  pub target : Str
  pub article : Str
  pub ip : Str

module _ (env : Env) where
  abbrev pub show_ip : IpAddr → Str
  show_ip (v4 a) = env.show_v4 a
  show_ip (v6 a) = elim (to_ipv4_mapped a) [ none ↦ env.show_v6 a | some b ↦ env.show_v4 b ]

  unfoldable pub canonical_ip : Str → Result StatdError Str
  canonical_ip raw = do ip ← ok_or (env.parse_ip raw) invalid_ip; ok (show_ip ip)

  unfoldable pub validate_event : RecordEvent → Result StatdError ValidEvent
  validate_event event = do
    guard_not (is_empty event.article || ltb max_article_key_len (len event.article)) article_length
    article ← from_path (parse (event.article ++ lit ".md"))
    guard_not (not (eq article.key event.article)) article_mapping
    scope ← from_path (from_target event.target)
    guard_not (not (contains_article scope article)) article_elsewhere
    ip ← canonical_ip event.ip
    ok (record { source = event.source; target = event.target; article = event.article; ip = ip })

  -- `map(validate_event).collect::<Result<Vec<_>>>()`
  unfoldable pub validate_events : List RecordEvent → Result StatdError (List ValidEvent)
  validate_events [] = ok []
  validate_events (e ∷ es) = do
    event ← validate_event e
    events ← validate_events es
    ok (event ∷ events)

-- one round of the inner loop of `validate_snapshot_request`; the answer is the count of articles
unfoldable pub validate_key : ContentScope → List Str → ℕ → Str → Result StatdError ℕ
validate_key scope seen_articles article_count key = do
  let count = article_count + 1
  guard_not (ltb max_snapshot_articles count) too_many_articles
  guard_not (is_empty key || ltb max_article_key_len (len key)) article_length
  article ← from_path (parse (key ++ lit ".md"))
  guard_not (not (eq article.key key) || not (contains_article scope article)) article_elsewhere
  guard_not (seen key seen_articles) duplicate_article
  ok count

unfoldable pub validate_keys : ContentScope → List Str → ℕ → List Str → Result StatdError ℕ
validate_keys scope seen_articles article_count [] = ok article_count
validate_keys scope seen_articles article_count (key ∷ keys) = do
  count ← validate_key scope seen_articles article_count key
  validate_keys scope (key ∷ seen_articles) count keys

-- `sort()` on texts, as a stable insertion
unfoldable pub insert_key : Str → List Str → List Str
insert_key s [] = s ∷ []
insert_key s (t ∷ ts) = let rest = insert_key s ts in if le s t then s ∷ t ∷ ts else t ∷ rest

unfoldable pub sort_keys : List Str → List Str
sort_keys [] = []
sort_keys (s ∷ ss) = insert_key s (sort_keys ss)

-- the loop over the targets
unfoldable pub validate_targets :
    List Str → ℕ → List SnapshotTargetRequest → Result StatdError (List SnapshotTargetRequest)
validate_targets seen_targets article_count [] = ok []
validate_targets seen_targets article_count (t ∷ ts) = do
  scope ← from_path (from_target t.target)
  guard_not (seen t.target seen_targets) duplicate_target
  count ← validate_keys scope [] article_count t.articles
  rest ← validate_targets (t.target ∷ seen_targets) count ts
  ok (record { target = t.target; articles = sort_keys t.articles } ∷ rest)

-- `sort_by` on the targets, as a stable insertion
unfoldable pub insert_target :
    SnapshotTargetRequest → List SnapshotTargetRequest → List SnapshotTargetRequest
insert_target s [] = s ∷ []
insert_target s (t ∷ ts) =
    let rest = insert_target s ts in if le s.target t.target then s ∷ t ∷ ts else t ∷ rest

unfoldable pub sort_targets : List SnapshotTargetRequest → List SnapshotTargetRequest
sort_targets [] = []
sort_targets (s ∷ ss) = insert_target s (sort_targets ss)

unfoldable pub validate_snapshot_request :
    List SnapshotTargetRequest → Result StatdError (List SnapshotTargetRequest)
validate_snapshot_request targets = do
  guard_not (ltb max_snapshot_targets (length targets)) too_many_targets
  valid ← validate_targets [] 0 targets
  ok (sort_targets valid)
