-- ===== src/Commentd/Query.antt =====
-- The queries of crates/servers/commentd/src/store.rs: `public_query` and `page`.
pub mod Available
use termblog.Prelude.{
  ℕ, ◌+◌, ◌-◌, Bool, true, false, not, ◌&&◌, ltb, leb, ◌==◌, if◌then◌else◌, List, [], ◌∷◌, map,
  Option, none, some, Result, ok, err, ◌>>=◌, ◌>>◌, guard_not, filter, length, last, is_empty, take,
  drop,
}
use mathlib.Core.Option
use termblog.Prelude.Text.{Str, eq}
use termblog.Commentd.Protocol.{
  Comment, VisibleComment, valid_target, page_limit, visible_comments, unwrap_or, LimitError,
  VisibleError,
}
use termblog.Commentd.Stored.{
  Status, pending, approved, is_pending, is_approved, StoredComment, view,
}
use termblog.Commentd.Store.{Store}

-- The messages of a refused query.
pub data QueryError : Type 0 where
  invalid_target limit_error revision_required stale_revision data_unavailable : QueryError

pub record PublicQuery : Type 0 where
  pub target : Str
  pub after_number : Option ℕ
  pub limit : Option ℕ
  pub revision : Option Str

-- The fields of a response whose `ok` is true; a refused query is the `err` of a `Result`, and
-- carries the revision of the store in either case.
pub record PublicPage : Type 0 where
  pub total : ℕ
  pub omitted_earlier : ℕ
  pub comments : List VisibleComment
  pub next_after_number : Option ℕ
  pub has_more : Bool

pub record PublicQueryResponse : Type 0 where
  pub revision : Str
  pub result : Result QueryError PublicPage

pub record PageRequest : Type 0 where
  pub after_id : ℕ
  pub limit : Option ℕ
  pub revision : Option Str

pub record Page : Type 0 where
  pub comments : List Comment
  pub next_after_id : Option ℕ
  pub has_more : Bool

pub record PageResponse : Type 0 where
  pub revision : Str
  pub result : Result QueryError Page

abbrev pub limit_of : Result LimitError ℕ → Result QueryError ℕ
limit_of (ok n) = ok n
limit_of (err e) = err limit_error

abbrev pub is_stale : Str → Option Str → Bool
is_stale current none = false
is_stale current (some r) = not (eq r current)

abbrev pub is_none {ℓ} : {A : Type ℓ} → Option A → Bool
is_none none = true
is_none (some a) = false

abbrev available :
    Result VisibleError (List VisibleComment) → Result QueryError (List VisibleComment)
available (ok all) = ok all
available (err e) = err data_unavailable

-- the comments that the public sees in a target: `private`
unfoldable pub approved_in : Str → List StoredComment → List Comment
approved_in target comments =
    map view (filter (λ c. is_approved c.status && eq c.target target) comments)

-- the newest comments of a target
unfoldable pub latest_page : ℕ → List VisibleComment → PublicPage
latest_page limit all =
    let start = length all - limit in
    record {
      total = length all;
      omitted_earlier = start;
      comments = drop start all;
      next_after_number = none;
      has_more = false;
    }

-- the comments after a number
unfoldable pub page_after : ℕ → ℕ → List VisibleComment → PublicPage
page_after limit after all =
    let rest = filter (λ (c : VisibleComment). ltb after c.number) all in
    let comments = take limit rest in
    let has_more = not (is_empty (drop limit rest)) in
    record {
      total = length all;
      omitted_earlier = 0;
      comments = comments;
      next_after_number =
          if has_more then Option.map (λ (c : VisibleComment). c.number) (last comments) else none;
      has_more = has_more;
    }

unfoldable pub query_result : Store → PublicQuery → Result QueryError PublicPage
unfolding latest_page page_after approved_in
query_result s req = do
  guard_not (not (valid_target req.target)) invalid_target
  limit ← limit_of (page_limit req.limit)
  guard_not (ltb 0 (unwrap_or req.after_number 0) && is_none req.revision) revision_required
  guard_not (is_stale s.revision req.revision) stale_revision
  all ← available (visible_comments (approved_in req.target s.comments))
  ok (elim req.after_number [
    | none ↦ latest_page limit all
    | some after ↦ page_after limit after all
  ])

abbrev pub public_query : Store → PublicQuery → PublicQueryResponse
public_query s req = record { revision = s.revision; result = query_result s req }

-- the comments of a page, over all with the wanted status
unfoldable pub id_page : ℕ → List Comment → Page
id_page limit rest =
    let comments = take limit rest in
    let has_more = not (is_empty (drop limit rest)) in
    record {
      comments = comments;
      next_after_id = if has_more then Option.map (λ (c : Comment). c.id) (last comments) else none;
      has_more = has_more;
    }

abbrev pub wanted : Bool → Status → Bool
wanted true s = is_pending s
wanted false s = is_approved s

unfoldable pub page_result : Store → PageRequest → Bool → Result QueryError Page
unfolding id_page
page_result s req awaiting = do
  limit ← limit_of (page_limit req.limit)
  guard_not (ltb 0 req.after_id && is_none req.revision) revision_required
  guard_not (is_stale s.revision req.revision) stale_revision
  ok (
      id_page limit
        (map view (filter (λ c. wanted awaiting c.status && ltb req.after_id c.id) s.comments)))

abbrev pub page : Store → PageRequest → Bool → PageResponse
page s req awaiting = record { revision = s.revision; result = page_result s req awaiting }
