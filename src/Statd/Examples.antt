-- ===== src/Statd/Examples.antt =====
-- The theorems on the counts at concrete inputs: the tables are functions, one address is read, and
-- the key is left out of the MAC.
use termblog.Prelude.{
  ℕ, ◌+◌, ◌≡◌, refl, ap, ◌⊎◌, Bool, true, false, not, ◌&&◌, ◌||◌, if◌then◌else◌, List, [], ◌∷◌, map,
  Option, none, some, ok, err, ◌>>=◌, ◌>>◌, guard_not, length, arith,
}
use termblog.Prelude.Text.{Str, lit, eq}
use termblog.Prelude.Text.{split, strip_suffix, rsplit_once}
use termblog.ContentModel.Validate.{
  each, is_slug_char, strip_slashes, validate_target, validate_relative, validate_segment,
  validate_article_source_segment, validate_article_segment,
}
use termblog.ContentModel.Attachment
use termblog.ContentModel.Article.{parse}
use termblog.ContentModel.Scope.{from_directory_rel, from_target, contains_article, proc_of}
use termblog.Jaild.Quota.{v4}
use termblog.Statd.Protocol.{Source, static_request, RecordEvent, SnapshotTargetRequest}
use termblog.Statd.Validate.{
  Env, StatdError, ValidEvent, canonical_ip, validate_event, validate_events, database_failed,
  validate_snapshot_request,
}
use termblog.Statd.Database.{Database, DatabaseLaws, same_source}
use termblog.Statd.Store.{record_batch, snapshot}
use termblog.Statd.Store.Counts.{Represents, target_count, article_count, hashes, distinct}
use termblog.Statd.Store.Batch.{logged, record_batch-Represents}
use termblog.Statd.Store.Reports.{counted, snapshot-counted}
use termblog.Statd.Store.Progress.{Answers, record_batch_recorded}

pub record Tables : Type 0 where
  pub totals : Str → Option (ℕ × ℕ)
  pub articles : Str → Str → Source → Option ℕ
  pub known : Str → List ℕ → Bool
  pub count : Str → ℕ

abbrev set_totals : Str → ℕ × ℕ → Tables → Tables
set_totals t v s = record s { totals = λ u. if eq t u then some v else s.totals u }

abbrev set_article : Str → Str → Source → ℕ → Tables → Tables
set_article t a src n s = record s {
  articles =
      λ u b dst. if eq t u && eq a b && same_source src dst then some n else s.articles u b dst;
}

abbrev add : Str → List ℕ → Tables → Tables
add t h s = record s {
  known = λ u k. eq t u && eq k h || s.known u k;
  count =
      λ u. if eq t u && s.known t h then s.count u else if eq t u then s.count u + 1 else s.count u;
}

abbrev tables : Database
tables = record {
  State = Tables;
  begins = λ s. true;
  target_totals = λ s. s.totals;
  set_target_totals = λ t v s. some (set_totals t v s);
  article_total = λ s. s.articles;
  set_article_total = λ t a src n s. some (set_article t a src n s);
  has_visitor = λ s. s.known;
  add_visitor = λ t h s. some (add t h s);
  visitors = λ s. s.count;
  commits = λ s. true;
}

some_inj : {A : Type 0} (d a b : A) → some a ≡ some b → b ≡ a
some_inj d a b e = cc

tables-DatabaseLaws : DatabaseLaws tables
tables-DatabaseLaws = record {
  target_totals-set = λ t u v s s' e. ap (λ x. x.totals u) (some_inj s _ s' e);
  article_total-set_target = λ t u a src v s s' e. ap (λ x. x.articles u a src) (some_inj s _ s' e);
  has_visitor-set_target = λ t u h v s s' e. ap (λ x. x.known u h) (some_inj s _ s' e);
  visitors-set_target = λ t u v s s' e. ap (λ x. x.count u) (some_inj s _ s' e);
  target_totals-set_article = λ t a u src n s s' e. ap (λ x. x.totals u) (some_inj s _ s' e);
  article_total-set = λ t a u b src dst n s s' e. ap (λ x. x.articles u b dst) (some_inj s _ s' e);
  has_visitor-set_article = λ t a u h src n s s' e. ap (λ x. x.known u h) (some_inj s _ s' e);
  visitors-set_article = λ t a u src n s s' e. ap (λ x. x.count u) (some_inj s _ s' e);
  target_totals-add = λ t u h s s' e. ap (λ x. x.totals u) (some_inj s _ s' e);
  article_total-add = λ t u a h src s s' e. ap (λ x. x.articles u a src) (some_inj s _ s' e);
  has_visitor-add = λ t u h k s s' e. ap (λ x. x.known u k) (some_inj s _ s' e);
  visitors-add = λ t u h s s' e. ap (λ x. x.count u) (some_inj s _ s' e);
}

tables-Answers : Answers tables
tables-Answers = record {
  begin = λ s. refl;
  commit = λ s. refl;
  set_target = λ t v s. (_, refl);
  set_article = λ t a src n s. (_, refl);
  add = λ t h s. (_, refl);
}

abbrev no_rows : Tables
no_rows = record {
  totals = λ u. none;
  articles = λ u a src. none;
  known = λ u h. false;
  count = λ u. 0;
}

abbrev packages : Env
packages = record {
  parse_ip = λ s. if eq s (lit "192.0.2.7") then some (v4 0xc0000207) else none;
  show_v4 = λ n. n ∷ [];
  show_v6 = λ n. n ∷ n ∷ [];
  mac = λ key message. message;
}

no_rows-Represents : Represents packages (5 ∷ []) tables [] no_rows
unfolding target_count article_count hashes distinct
no_rows-Represents = record {
  totals = λ t. refl;
  articles = λ t a src. refl;
  known = λ t h. refl;
  unique = λ t. refl;
}

abbrev request : List RecordEvent
request =
    record {
      source = static_request;
      target = lit "/notes/";
      article = lit "notes/unix";
      ip = lit "192.0.2.7";
    }
    ∷ []

abbrev event : ValidEvent
event = record {
  source = static_request;
  target = lit "/notes/";
  article = lit "notes/unix";
  ip = 0xc0000207 ∷ [];
}

validate_events-request : validate_events packages request ≡ ok (event ∷ [])
unfolding validate_events validate_event parse validate_relative each split validate_segment eq
    validate_article_source_segment strip_suffix validate_article_segment is_slug_char from_target
    validate_target strip_slashes from_directory_rel Attachment.from_directory_rel
    Attachment.target_of contains_article proc_of rsplit_once canonical_ip
validate_events-request = refl

record_batch-Represents_example :
    ((events : List ValidEvent) × (validate_events packages request ≡ ok events)
      × ((record_batch packages tables (5 ∷ []) request no_rows).0 ≡ ok (length request))
      × Represents packages
          (5 ∷ [])
          tables
          (logged events [])
          (record_batch packages tables (5 ∷ []) request no_rows).1)
    ⊎ ((e : StatdError) × (record_batch packages tables (5 ∷ []) request no_rows
          ≡ (err e, no_rows)))
record_batch-Represents_example =
    record_batch-Represents packages (5 ∷ []) tables tables-DatabaseLaws request [] no_rows
      no_rows-Represents

record_batch_recorded_example :
    (record_batch packages tables (5 ∷ []) request no_rows).0 ≡ ok (length request)
record_batch_recorded_example =
    record_batch_recorded packages (5 ∷ []) tables tables-DatabaseLaws tables-Answers request
      (event ∷ []) [] no_rows no_rows-Represents refl (omega arith) validate_events-request
      (omega arith)

abbrev asked : List SnapshotTargetRequest
asked = record { target = lit "/notes/"; articles = lit "notes/unix" ∷ [] } ∷ []

snapshot-counted_example : snapshot tables asked no_rows ≡ (
    validate_snapshot_request asked >>= λ targets.
    guard_not (not (tables.begins no_rows && tables.commits no_rows)) database_failed
    >> ok (map (counted packages (5 ∷ []) []) targets))
snapshot-counted_example =
    snapshot-counted packages (5 ∷ []) tables [] no_rows no_rows-Represents asked
