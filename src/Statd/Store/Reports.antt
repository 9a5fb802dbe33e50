-- ===== src/Statd/Store/Reports.antt =====
-- `snapshot` of crates/servers/statd/src/store.rs against the log of the events recorded.
use termblog.Prelude.{ℕ, ◌≡◌, fun_ext, ap, not, ◌&&◌, List, map, ok, ◌>>=◌, ◌>>◌, guard_not, length}
use termblog.Prelude.Text.{Str}
use termblog.Statd.Protocol.{
  terminal_read_session, static_request, SnapshotTargetRequest, ArticleSnapshot, TargetSnapshot,
}
use termblog.Statd.Validate.{Env, ValidEvent, database_failed, validate_snapshot_request}
use termblog.Statd.Database.{Database}
use termblog.Statd.Store.{article_snapshot, target_snapshot, snapshot}
use termblog.Statd.Store.Counts.{Represents, target_count, article_count, hashes, distinct}

-- the counts of the log for an article
abbrev pub counted_article : List ValidEvent → Str → Str → ArticleSnapshot
counted_article log target article = record {
  article = article;
  terminal_read_sessions = article_count target article terminal_read_session log;
  static_requests = article_count target article static_request log;
}

-- the counts of the log for a target: its events of both sources, and how many hashes they have
abbrev pub counted : Env → List ℕ → List ValidEvent → SnapshotTargetRequest → TargetSnapshot
counted env secret log requested = record {
  target = requested.target;
  terminal_read_sessions_total = target_count requested.target terminal_read_session log;
  static_requests_total = target_count requested.target static_request log;
  unique_visitors_approx = length (distinct (hashes env secret requested.target log));
  articles = map (counted_article log requested.target) requested.articles;
}

module _ (env : Env) (secret : List ℕ) (db : Database) (log : List ValidEvent) (s : db.State)
    (r : Represents env secret db log s) where
  article_snapshot-counted :
      (target article : Str)
      → article_snapshot db s target article ≡ counted_article log target article
  unfolding article_snapshot
  article_snapshot-counted target article =
      cc (r.articles target article terminal_read_session, r.articles target article static_request)

  target_snapshot-counted :
      (requested : SnapshotTargetRequest)
      → target_snapshot db s requested ≡ counted env secret log requested
  unfolding target_snapshot
  target_snapshot-counted t = cc (
    r.totals t.target,
    r.unique t.target,
    ap (λ f. map f t.articles) (fun_ext (article_snapshot-counted t.target)),
  )

  -- If the database holds the counts of a log, `snapshot` checks the request, and, if the database
  -- answers, reports the counts of that log for each target and each article in the order of the
  -- checked request.
  pub snapshot-counted :
      (request : List SnapshotTargetRequest)
      → snapshot db request s ≡ (
          validate_snapshot_request request >>= λ targets.
          guard_not (not (db.begins s && db.commits s)) database_failed
          >> ok (map (counted env secret log) targets))
  unfolding snapshot
  snapshot-counted request =
      ap
        (λ (f : SnapshotTargetRequest → TargetSnapshot).
          validate_snapshot_request request >>= λ targets.
          guard_not (not (db.begins s && db.commits s)) database_failed >> ok (map f targets))
        (fun_ext target_snapshot-counted)
