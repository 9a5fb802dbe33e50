-- ===== src/Statd/Store.antt =====
-- `record_batch` and `snapshot` of crates/servers/statd/src/store.rs.
pub mod Counts
pub mod Batch
pub mod Reports
pub mod Progress
use termblog.Prelude.{
  ℕ, ◌+◌, ◌-◌, ◌^◌, Bool, true, false, not, ◌&&◌, ◌||◌, ltb, ◌==◌, if◌then◌else◌, List, [], ◌∷◌,
  ◌++◌, map, Option, none, some, Result, ok, err, ◌>>=◌, ◌>>◌, guard_not, ok_or, length, is_empty,
}
use termblog.Prelude.Text.{Str, bytes}
use termblog.Commentd.Protocol.{unwrap_or}
use termblog.Statd.Protocol.{
  max_batch_events, Source, terminal_read_session, static_request, RecordEvent,
  SnapshotTargetRequest, ArticleSnapshot, TargetSnapshot,
}
use termblog.Statd.Validate.{
  Env, StatdError, batch_size, counter_overflow, database_failed, ValidEvent, validate_events,
  validate_snapshot_request,
}
use termblog.Statd.Database.{Database}

abbrev pub i64_max : ℕ
i64_max = 2 ^ 63 - 1

-- `checked_add(1)` on an `i64` that is not negative
abbrev pub checked_next : ℕ → Result StatdError ℕ
checked_next n = if n == i64_max then err counter_overflow else ok (n + 1)

-- the totals of a target with one more event
unfoldable pub next_totals : Source → ℕ × ℕ → Result StatdError (ℕ × ℕ)
next_totals terminal_read_session (terminal, requests) = do
  n ← checked_next terminal
  ok (n, requests)
next_totals static_request (terminal, requests) = do n ← checked_next requests; ok (terminal, n)

unfoldable pub visitor_hash : Env → List ℕ → Str → Str → List ℕ
visitor_hash env secret target ip = env.mac secret (bytes target ++ (0 ∷ bytes ip))

module _ (db : Database) where
  unfoldable pub increment_target : Str → Source → db.State → Result StatdError db.State
  increment_target target source s = do
    totals ← next_totals source (unwrap_or (db.target_totals s target) (0, 0))
    ok_or (db.set_target_totals target totals s) database_failed

  unfoldable pub increment_article : Str → Str → Source → db.State → Result StatdError db.State
  increment_article target article source s = do
    next ← checked_next (unwrap_or (db.article_total s target article source) 0)
    ok_or (db.set_article_total target article source next s) database_failed

module _ (env : Env) (db : Database) where
  -- one round of the loop of `record_batch`
  unfoldable pub record_event : List ℕ → ValidEvent → db.State → Result StatdError db.State
  record_event secret event s = do
    s1 ← increment_target db event.target event.source s
    s2 ← increment_article db event.target event.article event.source s1
    ok_or (db.add_visitor event.target (visitor_hash env secret event.target event.ip) s2)
        database_failed

  unfoldable pub record_events : List ℕ → List ValidEvent → db.State → Result StatdError db.State
  record_events secret [] s = ok s
  record_events secret (e ∷ es) s = do s' ← record_event secret e s; record_events secret es s'

  -- the part of `record_batch` that may fail: the number of events, and the state to be left
  unfoldable pub batch : List ℕ → List RecordEvent → db.State → Result StatdError (ℕ × db.State)
  batch secret requested s = do
    guard_not (is_empty requested || ltb max_batch_events (length requested)) batch_size
    events ← validate_events env requested
    guard_not (not (db.begins s)) database_failed
    s' ← record_events secret events s
    guard_not (not (db.commits s')) database_failed
    ok (length events, s')

  abbrev pub rolled_back :
      db.State → Result StatdError (ℕ × db.State) → Result StatdError ℕ × db.State
  rolled_back s (ok (n, s')) = (ok n, s')
  rolled_back s (err e) = (err e, s)

  -- `record_batch`: the transaction is rolled back unless it is committed
  unfoldable pub record_batch :
      List ℕ → List RecordEvent → db.State → Result StatdError ℕ × db.State
  record_batch secret requested s = rolled_back s (batch secret requested s)

module _ (db : Database) where
  -- what `snapshot` reports of an article: the rows of both sources, and 0 for a row that is missing
  unfoldable pub article_snapshot : db.State → Str → Str → ArticleSnapshot
  article_snapshot s target article = record {
    article = article;
    terminal_read_sessions = unwrap_or (db.article_total s target article terminal_read_session) 0;
    static_requests = unwrap_or (db.article_total s target article static_request) 0;
  }

  unfoldable pub target_snapshot : db.State → SnapshotTargetRequest → TargetSnapshot
  target_snapshot s requested =
      let totals = unwrap_or (db.target_totals s requested.target) (0, 0) in
      record {
        target = requested.target;
        terminal_read_sessions_total = totals.0;
        static_requests_total = totals.1;
        unique_visitors_approx = db.visitors s requested.target;
        articles = map (article_snapshot s requested.target) requested.articles;
      }

  -- `snapshot`, in the field `targets` of its response
  unfoldable pub snapshot :
      List SnapshotTargetRequest → db.State → Result StatdError (List TargetSnapshot)
  snapshot request s = do
    targets ← validate_snapshot_request request
    guard_not (not (db.begins s && db.commits s)) database_failed
    ok (map (target_snapshot s) targets)
