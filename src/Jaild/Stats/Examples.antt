-- ===== src/Jaild/Stats/Examples.antt =====
-- The theorems on the counts at one scope with one article, and a database that no event is recorded
-- in.
use termblog.Prelude.{◌≡◌, refl, Bool, true, false, List, [], ◌∷◌, map, none, some, ok}
use termblog.Prelude.Text.{Str, lit, eq, split, strip_suffix, rsplit_once}
use termblog.ContentModel.Validate.{
  each, is_slug_char, strip_slashes, validate_target, validate_relative, validate_segment,
  validate_article_source_segment, validate_article_segment,
}
use termblog.ContentModel.Attachment
use termblog.ContentModel.Article.{parse}
use termblog.ContentModel.Scope.{
  ContentScope, from_directory_rel, from_target, contains_article, proc_of,
}
use termblog.ContentModel.Index.{
  ArticleIndex, validate, validate_entries, validate_entry, is_date10,
}
use termblog.ContentModel.Manifest.{seen}
use termblog.Commentd.Protocol.{unwrap_or}
use termblog.Statd.Protocol.{SnapshotTargetRequest, TargetSnapshot}
use termblog.Statd.Database.{Database}
use termblog.Statd.Validate.{
  validate_snapshot_request, validate_targets, validate_keys, validate_key, sort_keys, insert_key,
  sort_targets, insert_target,
}
use termblog.Statd.Store.{snapshot, target_snapshot, article_snapshot}
use termblog.Jaild.Stats.{
  ByTarget, articles_by_target, get, build_snapshot_request, SnapshotResponse,
  validate_stats_response, stat_snapshot_bytes, find_target,
}
use termblog.Jaild.Stats.Indexed.{target_of_scope, targets, articles_by_target_total}
use termblog.Jaild.Stats.Response.{IsCounts, stat_snapshot_bytes_total}
use termblog.Jaild.Stats.Agreement.{validate_stats_response-snapshot}

abbrev notes : ContentScope
notes = record {
  directory_rel = lit "notes";
  target = lit "/notes/";
  comment_rel = lit "notes/.comments";
  proc_rel = lit "notes";
  stat_rel = lit "notes";
}

abbrev index : ArticleIndex
index = record {
  version = 1;
  articles =
      record {
        date10 = lit "2026-01-02";
        source_rel = lit "notes/unix.md";
        key = lit "notes/unix";
        route = lit "/notes/unix/";
        title = lit "Unix";
      }
      ∷ [];
}

index-checked : validate index ≡ ok tt
unfolding validate validate_entries validate_entry parse validate_relative each split
    validate_segment eq validate_article_source_segment strip_suffix validate_article_segment
    is_slug_char is_date10
index-checked = refl

articles_by_target_total_example :
    (m : ByTarget) × (articles_by_target index (notes ∷ []) ≡ ok m)
    × (targets m ≡ map target_of_scope (notes ∷ []))
articles_by_target_total_example = articles_by_target_total index (notes ∷ []) index-checked

abbrev one_article : ByTarget
one_article = (lit "/notes/", lit "notes/unix" ∷ []) ∷ []

abbrev request : List SnapshotTargetRequest
request = record { target = lit "/notes/"; articles = lit "notes/unix" ∷ [] } ∷ []

abbrev no_events : Database
no_events = record {
  State = Bool;
  begins = λ s. true;
  target_totals = λ s t. none;
  set_target_totals = λ t v s. none;
  article_total = λ s t a src. none;
  set_article_total = λ t a src n s. none;
  has_visitor = λ s t h. false;
  add_visitor = λ t h s. none;
  visitors = λ s t. 0;
  commits = λ s. true;
}

abbrev answered : List TargetSnapshot
answered =
    record {
      target = lit "/notes/";
      terminal_read_sessions_total = 0;
      static_requests_total = 0;
      unique_visitors_approx = 0;
      articles =
          record { article = lit "notes/unix"; terminal_read_sessions = 0; static_requests = 0 }
          ∷ [];
    }
    ∷ []

abbrev response : SnapshotResponse
response = record {
  is_ok = true;
  snapshot_at = lit "2026-01-02T12:00:00Z";
  targets = answered;
  error = none;
}

snapshot-request : snapshot no_events request true ≡ ok answered
unfolding snapshot validate_snapshot_request validate_targets from_target validate_target eq
    strip_slashes strip_suffix validate_relative each split validate_segment
    validate_article_segment is_slug_char from_directory_rel Attachment.from_directory_rel
    Attachment.target_of validate_keys parse contains_article proc_of
    validate_article_source_segment rsplit_once article_snapshot target_snapshot insert_key
    insert_target sort_keys sort_targets validate_key
snapshot-request = refl

validate_stats_response-snapshot_example :
    validate_stats_response (λ s. true) request response ≡ ok response
validate_stats_response-snapshot_example =
    validate_stats_response-snapshot no_events true (λ s. true) (lit "2026-01-02T12:00:00Z") request
      answered refl snapshot-request

build-request : build_snapshot_request (notes ∷ []) one_article ≡ some request
unfolding build_snapshot_request get eq
build-request = refl

notes-seen : seen notes.target (map target_of_scope (notes ∷ [])) ≡ true
unfolding eq
notes-seen = refl

stat_snapshot_bytes_total_example :
    (text : Str) × (stat_snapshot_bytes
        (λ n. n ∷ [])
        notes
        (unwrap_or (get notes.target one_article) [])
        3
        response.snapshot_at
        (find_target notes.target response.targets)
      ≡ some text)
    × IsCounts
        (λ n. n ∷ [])
        notes
        (unwrap_or (get notes.target one_article) [])
        3
        response.snapshot_at
        response.targets
        text
stat_snapshot_bytes_total_example =
    stat_snapshot_bytes_total (λ n. n ∷ []) (λ s. true) (notes ∷ []) one_article request response
      response notes 3 response.snapshot_at build-request validate_stats_response-snapshot_example
      notes-seen
