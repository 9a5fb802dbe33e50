-- ===== src/Jaild/Stats.antt =====
-- The counts that jaild asks of statd and writes for the jails: `articles_by_target`,
-- `build_snapshot_request`, `validate_stats_response` and `stat_snapshot_bytes` of
-- crates/servers/jaild/src/jail.rs. The map by target is the list of its entries: only the entry of a
-- target and the sum of the lengths are taken of it.
pub mod Indexed
pub mod Answered
pub mod Response
pub mod Agreement
mod Examples
use termblog.Prelude.{
  ℕ, ◌+◌, Bool, true, false, not, ◌&&◌, ◌||◌, ltb, ◌==◌, if◌then◌else◌, List, [], ◌∷◌, ◌++◌, map,
  Option, none, some, Result, ok, err, ◌>>=◌, ◌>>◌, guard_not, ok_or, all, length,
}
use mathlib.Core.Option
use termblog.Prelude.Text.{Str, lit, eq}
use termblog.ContentModel.Validate.{PathModelError}
use termblog.ContentModel.Article.{ArticlePath, parse}
use termblog.ContentModel.Scope.{ContentScope}
use termblog.ContentModel.Index.{ArticleIndexEntry, ArticleIndex}
use termblog.ContentModel.Manifest.{seen}
use termblog.Commentd.Protocol.{unwrap_or}
use termblog.Statd.Protocol.{
  max_snapshot_targets, max_snapshot_articles, SnapshotTargetRequest, ArticleSnapshot,
  TargetSnapshot,
}
use termblog.Statd.Validate.{sort_keys}

abbrev pub ByTarget : Type 0
ByTarget = List (Str × List Str)

-- a refused path, or the panic of an `expect`
pub data StatsError : Type 0 where
  bad_path : PathModelError → StatsError
  panicked : StatsError

abbrev pub from_path_error : {A : Type 0} → Result PathModelError A → Result StatsError A
from_path_error (ok a) = ok a
from_path_error (err e) = err (bad_path e)

-- the map `by_directory`: the last scope of a directory counts
unfoldable pub find_scope : Str → List ContentScope → Option ContentScope
find_scope directory [] = none
find_scope directory (s ∷ scopes) = elim (find_scope directory scopes) [
  | some r ↦ some r
  | none ↦ if eq s.directory_rel directory then some s else none
]

-- `get` of a target
unfoldable pub get : Str → ByTarget → Option (List Str)
get target [] = none
get target ((t, keys) ∷ m) = if eq t target then some keys else get target m

-- `get_mut(target)` and `push(key)`
unfoldable pub push : Str → Str → ByTarget → Option ByTarget
push target key [] = none
push target key ((t, keys) ∷ m) =
    let rest = Option.map (◌∷◌ (t, keys)) (push target key m) in
    if eq t target then some ((t, keys ++ (key ∷ [])) ∷ m) else rest

-- the loop over the entries of the index
unfoldable pub group_articles :
    List ContentScope → List ArticleIndexEntry → ByTarget → Result StatsError ByTarget
group_articles scopes [] output = ok output
group_articles scopes (entry ∷ entries) output = do
  article ← from_path_error (parse entry.source_rel)
  next ← elim (find_scope article.directory_rel scopes) [
    | none ↦ ok output
    | some scope ↦ ok_or (push scope.target article.key output) panicked
  ]
  group_articles scopes entries next

abbrev pub no_articles : ContentScope → Str × List Str
no_articles s = (s.target, [])

abbrev pub sorted : Str × List Str → Str × List Str
sorted (t, keys) = (t, sort_keys keys)

unfoldable pub articles_by_target : ArticleIndex → List ContentScope → Result StatsError ByTarget
articles_by_target index scopes = do
  output ← group_articles scopes index.articles (map no_articles scopes)
  ok (map sorted output)

abbrev pub count_articles : ByTarget → ℕ
count_articles [] = 0
count_articles ((t, keys) ∷ m) = length keys + count_articles m

abbrev pub target_request : ByTarget → ContentScope → SnapshotTargetRequest
target_request m s = record { target = s.target; articles = unwrap_or (get s.target m) [] }

unfoldable pub build_snapshot_request :
    List ContentScope → ByTarget → Option (List SnapshotTargetRequest)
build_snapshot_request scopes m =
    if ltb max_snapshot_targets (length scopes) || ltb max_snapshot_articles (count_articles m)
    then none
    else some (map (target_request m) scopes)

pub record SnapshotResponse : Type 0 where
  pub is_ok : Bool
  pub snapshot_at : Str
  pub targets : List TargetSnapshot
  pub error : Option Str

pub data ResponseError : Type 0 where
  unsuccessful not_rfc3339 targets_differ : ResponseError
  unexpected_target duplicate_target articles_differ : Str → ResponseError

-- `collect` into a set of texts: each text is kept once
unfoldable pub set_of : List Str → List Str
set_of [] = []
set_of (s ∷ ss) = let rest = set_of ss in if seen s ss then rest else s ∷ rest

-- `==` of two sets
abbrev pub same_set : List Str → List Str → Bool
same_set ss ts = all (λ s. seen s ts) ss && all (λ t. seen t ss) ts

-- the map `expected`: the last target of a name counts
unfoldable pub expected : Str → List SnapshotTargetRequest → Option (List Str)
expected target [] = none
expected target (r ∷ request) = elim (expected target request) [
  | some articles ↦ some articles
  | none ↦ if eq r.target target then some r.articles else none
]

abbrev pub keys_of : TargetSnapshot → List Str
keys_of t = map (λ (a : ArticleSnapshot). a.article) t.articles

-- one round of the loop of `validate_stats_response`
unfoldable pub check_target :
    List SnapshotTargetRequest → List Str → TargetSnapshot → Result ResponseError (Unit {0})
check_target request seen_targets t = do
  articles ← ok_or (expected t.target request) (unexpected_target t.target)
  guard_not (seen t.target seen_targets) (duplicate_target t.target)
  guard_not
      (not (length (set_of (keys_of t)) == length t.articles)
        || not (same_set (keys_of t) articles))
      (articles_differ t.target)

unfoldable pub check_targets :
    List SnapshotTargetRequest → List Str → List TargetSnapshot → Result ResponseError (Unit {0})
check_targets request seen_targets [] = ok tt
check_targets request seen_targets (t ∷ ts) = do
  check_target request seen_targets t
  check_targets request (t.target ∷ seen_targets) ts

abbrev is_some : Option Str → Bool
is_some none = false
is_some (some s) = true

-- `validate_stats_response`; whether `parse_from_rfc3339` succeeds is an argument
unfoldable pub validate_stats_response :
    (Str → Bool)
    → List SnapshotTargetRequest
    → SnapshotResponse
    → Result ResponseError SnapshotResponse
validate_stats_response is_rfc3339 request response = do
  guard_not (not response.is_ok || is_some response.error) unsuccessful
  guard_not (not (is_rfc3339 response.snapshot_at)) not_rfc3339
  let targets = set_of (map (λ (r : SnapshotTargetRequest). r.target) request)
  guard_not
      (not (length targets == length request) || not (length response.targets == length targets))
      targets_differ
  check_targets request [] response.targets
  ok response

-- the map `by_article`: the last row of an article counts
unfoldable pub find_article : Str → List ArticleSnapshot → Option ArticleSnapshot
find_article key [] = none
find_article key (a ∷ rows) = elim (find_article key rows) [
  | some r ↦ some r
  | none ↦ if eq a.article key then some a else none
]

-- what `write_stats_snapshots` takes from a response for a scope
unfoldable pub find_target : Str → List TargetSnapshot → Option TargetSnapshot
find_target target [] = none
find_target target (t ∷ ts) =
    let rest = find_target target ts in if eq t.target target then some t else rest

-- the printer of numbers is an argument; `none` is the panic of the `expect`
module _ (show : ℕ → Str) where
  abbrev pub article_line : ArticleSnapshot → Str → Str → Str
  article_line a key rest =
      lit "article "
      ++ (key
          ++ (lit " terminal_read_sessions="
              ++ (show a.terminal_read_sessions
                  ++ (lit " static_requests=" ++ (show a.static_requests ++ (b'\n' ∷ rest))))))

  unfoldable pub article_lines : List ArticleSnapshot → List Str → Option Str
  article_lines rows [] = some []
  article_lines rows (key ∷ keys) = elim (find_article key rows) [
    | none ↦ none
    | some a ↦ elim (article_lines rows keys) [
      | none ↦ none
      | some rest ↦ some (article_line a key rest)
    ]
  ]

  abbrev pub total_lines : TargetSnapshot → Str
  total_lines t =
      lit "terminal_read_sessions_total "
      ++ (show t.terminal_read_sessions_total
          ++ (lit "\nstatic_requests_total "
              ++ (show t.static_requests_total
                  ++ (lit "\nunique_visitors_approx "
                      ++ (show t.unique_visitors_approx ++ lit "\n")))))

  abbrev pub status_lines : ContentScope → Str → Str → Str
  status_lines scope snapshot_at status =
      lit "version 1\ntarget "
      ++ (scope.target
          ++ (lit "\nsnapshot_at "
              ++ (snapshot_at ++ (lit "\nstats_status " ++ (status ++ lit "\n")))))

  unfoldable pub stat_snapshot_bytes :
      ContentScope → List Str → ℕ → Str → Option TargetSnapshot → Option Str
  stat_snapshot_bytes scope articles comments_approved snapshot_at none = some (
      status_lines scope snapshot_at (lit "unavailable")
      ++ (lit "comments_approved " ++ (show comments_approved ++ lit "\n")))
  stat_snapshot_bytes scope articles comments_approved snapshot_at (some stats) =
      Option.map
        (λ rows.
          status_lines scope snapshot_at (lit "ok")
          ++ (total_lines stats
              ++ (lit "comments_approved " ++ (show comments_approved ++ (b'\n' ∷ rows)))))
        (article_lines stats.articles articles)
