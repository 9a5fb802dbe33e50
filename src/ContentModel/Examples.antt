-- ===== src/ContentModel/Examples.antt =====
-- The theorems on the content model at concrete paths.
use termblog.Prelude.{◌≡◌, ◌≢◌, ◌↔◌, refl, true, false, List, [], ◌∷◌, ◌++◌, map, ok, All}
use mathlib.Core.List.{Perm}
use termblog.Prelude.Text.{
  Str, lit, eq, starts_with, ends_with, contains, split, split_once, rsplit_once, strip_suffix,
}
use termblog.Prelude.Text.Order.{lines, le}
use termblog.ContentModel.Validate.{
  slash, is_slug_char, strip_slashes, validate_target, validate_relative, validate_segment,
  validate_article_segment, validate_article_source_segment, has_hidden_component, each,
}
use termblog.ContentModel.Validate.Laws.{IsSlug}
use termblog.ContentModel.Article.{ArticlePath, parse}
use termblog.ContentModel.Article.Exact.{IsArticle, parse_exact, parse_confined}
use termblog.ContentModel.Attachment
use termblog.ContentModel.Attachment.{target_of}
use termblog.ContentModel.Scope.{
  ContentScope, from_directory_rel, from_target, contains_article, proc_of,
}
use termblog.ContentModel.Scope.Laws.{
  IsDirectory, scope_of, from_target_exact, from_directory_rel_exact,
}
use termblog.ContentModel.Scope.Articles.{contains_article_iff}
use termblog.ContentModel.Manifest.{parse_scope_manifest, parse_lines, parse_line, sort, insert}
use termblog.ContentModel.Manifest.Sound.{row, Distinct, IsSorted, parse_scope_manifest_sound}
use termblog.ContentModel.Index.{
  ArticleIndex, validate, validate_entries, validate_entry, is_date10,
}
use termblog.ContentModel.Index.Sound.{IsEntry, validate_sound}

abbrev source : Str
source = lit "notes/unix.md"

abbrev article : ArticlePath
article = record {
  source_rel = source;
  key = lit "notes/unix";
  route = lit "/notes/unix/";
  directory_rel = lit "notes";
}

abbrev notes : ContentScope
notes = record {
  directory_rel = lit "notes";
  target = lit "/notes/";
  comment_rel = lit "notes/comment";
  proc_rel = lit "proc/notes";
  stat_rel = lit "proc/notes/stat";
}

parse-source : parse source ≡ ok article
unfolding parse validate_relative each split validate_segment eq validate_article_source_segment
    strip_suffix validate_article_segment is_slug_char rsplit_once
parse-source = refl

from_target-notes : from_target (lit "/notes/") ≡ ok notes
unfolding from_target validate_target eq strip_slashes strip_suffix validate_relative each split
    validate_segment validate_article_segment is_slug_char from_directory_rel
    Attachment.from_directory_rel Attachment.target_of proc_of
from_target-notes = refl

parse_exact_example : (parse source ≡ ok article) ↔ IsArticle source article
parse_exact_example = parse_exact source article

parse_confined_example :
    (starts_with slash source ≡ false)
    × (ends_with slash source ≡ false)
    × (contains b'\\' source ≡ false)
    × (has_hidden_component source ≡ false)
    × All (λ s. s ≢ []) (split slash source)
parse_confined_example = parse_confined source article parse-source

from_target_exact_example :
    (from_target (lit "/notes/") ≡ ok notes)
    ↔ ((d : Str) × IsDirectory d × (lit "/notes/" ≡ target_of d) × (notes ≡ scope_of d))
from_target_exact_example = from_target_exact (lit "/notes/") notes

from_directory_rel_exact_example : (from_directory_rel (lit "notes") ≡ ok notes) ↔ (
    IsDirectory (lit "notes")
    × (notes ≡ scope_of (lit "notes"))
    × (from_target (lit "/notes/") ≡ ok notes))
from_directory_rel_exact_example = from_directory_rel_exact (lit "notes") notes

contains_article_iff_example :
    (contains_article notes article ≡ true)
    ↔ ((n : Str) × IsSlug n × (lit "/notes/unix/" ≡ lit "/notes/" ++ n ++ lit "/"))
contains_article_iff_example =
    contains_article_iff (lit "/notes/") source notes article from_target-notes parse-source

abbrev manifest : Str
manifest = lit "notes/comment\t/notes/\n"

manifest-accepted : parse_scope_manifest manifest ≡ ok (notes ∷ [])
unfolding parse_scope_manifest parse_lines lines parse_line split_once insert sort le from_target
    validate_target eq strip_slashes strip_suffix validate_relative each split validate_segment
    validate_article_segment is_slug_char from_directory_rel Attachment.from_directory_rel
    Attachment.target_of proc_of
manifest-accepted = refl

parse_scope_manifest_sound_example :
    (ss : List ContentScope) × (lines manifest ≡ map row ss)
    × All (λ s. from_target s.target ≡ ok s) ss
    × Distinct (map (λ s. s.comment_rel) ss)
    × Distinct (map (λ s. s.target) ss)
    × Perm (notes ∷ []) ss
    × IsSorted (notes ∷ [])
parse_scope_manifest_sound_example =
    parse_scope_manifest_sound manifest (notes ∷ []) manifest-accepted

abbrev index : ArticleIndex
index = record {
  version = 1;
  articles =
      record {
        date10 = lit "2024-05-06";
        source_rel = source;
        key = lit "notes/unix";
        route = lit "/notes/unix/";
        title = lit "Unix";
      }
      ∷ [];
}

index-accepted : validate index ≡ ok tt
unfolding validate validate_entries validate_entry parse validate_relative each split
    validate_segment eq validate_article_source_segment strip_suffix validate_article_segment
    is_slug_char is_date10
index-accepted = refl

validate_sound_example :
    (index.version ≡ 1)
    × All IsEntry index.articles
    × Distinct (map (λ e. e.source_rel) index.articles)
    × Distinct (map (λ e. e.key) index.articles)
    × Distinct (map (λ e. e.route) index.articles)
validate_sound_example = validate_sound index index-accepted
