-- ===== src/ContentModel/Article.antt =====
-- `ArticlePath`: a Markdown source and its projections.
pub mod Mapping
pub mod Exact
use termblog.Prelude.{
  Bool, false, ◌||◌, List, [], ◌∷◌, ◌++◌, Option, none, some, Result, ok, ◌>>=◌, ◌>>◌, guard_not,
  ok_or, is_empty,
}
use termblog.Prelude.Text.{Str, lit, ends_with, strip_suffix, split, rsplit_once}
use termblog.ContentModel.Validate.{
  PathModelError, not_utf8, bad_extension, file_name_empty, article_path, slash,
  validate_article_segment, validate_article_source_segment, validate_relative, each,
}

pub record ArticlePath : Type 0 where
  pub source_rel : Str
  pub key : Str
  pub route : Str
  pub directory_rel : Str

-- `map_or("", |(parent, _)| parent)`
abbrev pub parent_or_root : Option (Str × Str) → Str
parent_or_root none = []
parent_or_root (some (parent, name)) = parent

unfoldable pub parse : Str → Result PathModelError ArticlePath
parse source = do
  validate_relative source false validate_article_source_segment article_path
  key ← ok_or (strip_suffix (lit ".md") source) bad_extension
  guard_not (is_empty key || ends_with slash key) file_name_empty
  each validate_article_segment (split slash key)
  ok (record {
    source_rel = source;
    key = key;
    route = lit "/" ++ key ++ lit "/";
    directory_rel = parent_or_root (rsplit_once slash key);
  })

-- The argument is `path.to_str()`.
abbrev pub from_source_rel : Option Str → Result PathModelError ArticlePath
from_source_rel path = do source ← ok_or path not_utf8; parse source
