-- ===== src/ContentModel/Index.antt =====
-- `ArticleIndex`: the machine-readable index of the articles.
pub mod Sound
use termblog.Prelude.{
  ℕ, ◌+◌, Bool, true, false, not, ◌&&◌, ◌||◌, ◌==◌, List, [], ◌∷◌, Result, ok, ◌>>=◌, ◌>>◌,
  guard_not, any, if◌then◌else◌, length,
}
use termblog.Prelude.Text.{Str, eq, bytes, is_control}
use termblog.ContentModel.Validate.{
  PathModelError, Checked, is_ascii_digit, unsupported_version, index_inconsistent, index_date,
  index_title, index_duplicate,
}
use termblog.ContentModel.Article.{ArticlePath, parse}
use termblog.ContentModel.Manifest.{seen}

pub record ArticleIndexEntry : Type 0 where
  pub date10 : Str
  pub source_rel : Str
  pub key : Str
  pub route : Str
  pub title : Str

pub record ArticleIndex : Type 0 where
  pub version : ℕ
  pub articles : List ArticleIndexEntry

-- `bytes().enumerate().all(…)`, from index `i` on
unfoldable pub date_bytes : ℕ → List ℕ → Bool
date_bytes i [] = true
date_bytes i (b ∷ bs) =
    let rest = date_bytes (i + 1) bs in
    (if i == 4 || i == 7 then b == b'-' else is_ascii_digit b) && rest

unfoldable pub is_date10 : Str → Bool
unfolding date_bytes
is_date10 date = length (bytes date) == 10 && date_bytes 0 (bytes date)

-- one round of the loop of `validate`; the sets hold the earlier sources, keys and routes
unfoldable pub validate_entry : List Str → List Str → List Str → ArticleIndexEntry → Checked
validate_entry sources keys routes entry = do
  path ← parse entry.source_rel
  guard_not (not (eq path.key entry.key) || not (eq path.route entry.route))
      (index_inconsistent entry.source_rel)
  guard_not (not (is_date10 entry.date10)) (index_date entry.date10)
  guard_not (any is_control entry.title) (index_title entry.source_rel)
  guard_not (seen entry.source_rel sources || seen entry.key keys || seen entry.route routes)
      (index_duplicate entry.source_rel)

unfoldable pub validate_entries : List Str → List Str → List Str → List ArticleIndexEntry → Checked
validate_entries sources keys routes [] = ok tt
validate_entries sources keys routes (entry ∷ rest) = do
  validate_entry sources keys routes entry
  validate_entries (entry.source_rel ∷ sources) (entry.key ∷ keys) (entry.route ∷ routes) rest

unfoldable pub validate : ArticleIndex → Checked
validate index = do
  guard_not (not (index.version == 1)) (unsupported_version index.version)
  validate_entries [] [] [] index.articles
