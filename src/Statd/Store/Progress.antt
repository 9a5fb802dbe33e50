-- ===== src/Statd/Store/Progress.antt =====
-- When `record_batch` of crates/servers/statd/src/store.rs succeeds.
use termblog.Prelude.{
  ℕ, ◌+◌, ◌≤◌, ◌<◌, ◌≡◌, refl, ap, ◌∙◌, true, false, List, [], ◌∷◌, some, ok, length, is_empty,
  arith,
}
use termblog.Prelude.Text.{Str}
use termblog.Commentd.Protocol.{unwrap_or}
use termblog.Statd.Protocol.{
  Source, terminal_read_session, static_request, RecordEvent, max_batch_events,
}
use termblog.Statd.Validate.{Env, ValidEvent, validate_events}
use termblog.Statd.Database.{Database, DatabaseLaws}
use termblog.Statd.Store.{
  i64_max, checked_next, next_totals, visitor_hash, increment_target, increment_article,
  record_event, record_events, batch, record_batch,
}
use termblog.Statd.Store.Counts.{Represents, record_event-Represents, target_count, article_count}
use termblog.Statd.Store.Batch.{validate_events-length}

-- A database that answers every statement.
pub record Answers (db : Database) : Type 0 where
  pub begin : (s : db.State) → db.begins s ≡ true
  pub commit : (s : db.State) → db.commits s ≡ true
  pub set_target :
      (target : Str) (v : ℕ × ℕ) (s : db.State)
      → (s' : db.State) × (db.set_target_totals target v s ≡ some s')
  pub set_article :
      (target article : Str) (source : Source) (n : ℕ) (s : db.State)
      → (s' : db.State) × (db.set_article_total target article source n s ≡ some s')
  pub add :
      (target : Str) (h : List ℕ) (s : db.State)
      → (s' : db.State) × (db.add_visitor target h s ≡ some s')

target_count-bound :
    (target : Str) (source : Source) (log : List ValidEvent)
    → target_count target source log ≤ length log
unfolding target_count
target_count-bound target source [] = omega arith
target_count-bound target source (e ∷ log) = ground (arith, target_count-bound target source log)

article_count-bound :
    (target article : Str) (source : Source) (log : List ValidEvent)
    → article_count target article source log ≤ length log
unfolding article_count
article_count-bound target article source [] = omega arith
article_count-bound target article source (e ∷ log) =
    ground (arith, article_count-bound target article source log)

checked_next-ok : (n : ℕ) → n < i64_max → checked_next n ≡ ok (n + 1)
checked_next-ok n h = ground arith

next_totals-ok :
    (source : Source) (a b : ℕ)
    → a < i64_max
    → b < i64_max
    → (v : ℕ × ℕ) × (next_totals source (a, b) ≡ ok v)
unfolding next_totals
next_totals-ok terminal_read_session a b h k = ((a + 1, b), rw (checked_next-ok a h) refl)
next_totals-ok static_request a b h k = ((a, b + 1), rw (checked_next-ok b k) refl)

module _ (env : Env) (secret : List ℕ) (db : Database) (laws : DatabaseLaws db)
    (answers : Answers db) where
  record_event-ok :
      (e : ValidEvent) (log : List ValidEvent) (s : db.State)
      → Represents env secret db log s
      → length log < i64_max
      → (s' : db.State) × (record_event env db secret e s ≡ ok s')
  unfolding record_event increment_target increment_article
  record_event-ok e log s r h =
      let counts = r.totals e.target in
      let (v, n) =
        next_totals-ok e.source (target_count e.target terminal_read_session log)
          (target_count e.target static_request log)
          (omega (arith, h, target_count-bound e.target terminal_read_session log))
          (omega (arith, h, target_count-bound e.target static_request log)) in
      let (s1, k) = answers.set_target e.target v s in
      let a = unwrap_or (db.article_total s1 e.target e.article e.source) 0 in
      let same : a ≡ article_count e.target e.article e.source log =
        ap (λ o. unwrap_or o 0)
          (laws.article_total-set_target e.target e.target e.article e.source v s s1 k)
        ∙ r.articles e.target e.article e.source in
      let next =
        checked_next-ok a
          (omega (arith, h, same, article_count-bound e.target e.article e.source log)) in
      let (s2, l) = answers.set_article e.target e.article e.source (a + 1) s1 in
      let (s3, m) = answers.add e.target (visitor_hash env secret e.target e.ip) s2 in
      (s3, cc (counts, n, k, next, l, m))

  record_events-ok :
      (es log : List ValidEvent) (s : db.State)
      → Represents env secret db log s
      → length log + length es ≤ i64_max
      → (s' : db.State) × (record_events env db secret es s ≡ ok s')
  unfolding record_events
  record_events-ok [] log s r h = (s, refl)
  record_events-ok (e ∷ es) log s r h =
      let (t, k) = record_event-ok e log s r (omega arith) in
      let (s', l) =
        record_events-ok es (e ∷ log) t (record_event-Represents env secret db laws e log s t r k)
          (omega arith) in
      (s', rw (k, record_events) l)

  -- Given the laws of a database that answers every statement, holds the counts of a log, and has
  -- room for the events in its counters: a batch of 1 to 256 events that are accepted is recorded.
  pub record_batch_recorded :
      (requested : List RecordEvent) (events log : List ValidEvent) (s : db.State)
      → Represents env secret db log s
      → is_empty requested ≡ false
      → length requested ≤ max_batch_events
      → validate_events env requested ≡ ok events
      → length log + length requested ≤ i64_max
      → (record_batch env db secret requested s).0 ≡ ok (length requested)
  unfolding record_batch batch
  record_batch_recorded requested events log s r ne few v room =
      let same = validate_events-length env requested events v in
      let (s', k) = record_events-ok events log s r (omega (arith, same, room)) in
      ground (arith, v, k, answers.begin s, answers.commit s', same)
