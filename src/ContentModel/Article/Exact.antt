-- ===== src/ContentModel/Article/Exact.antt =====
-- `ArticlePath::parse` against an independent description of article paths.
use termblog.Prelude.{
  false, ◌≡◌, ◌≢◌, ◌↔◌, refl, ap, sym, ◌∙◌, List, [], ◌∷◌, ◌++◌, ok, All, any, arith,
}
use termblog.Prelude.Text.{Str, lit, split, starts_with, ends_with, contains, rsplit_once}
use termblog.Prelude.Text.Splitting.{join, split-join, rsplit_once_whole, rsplit_once_last}
use termblog.ContentModel.Validate.{slash, has_hidden_component}
use termblog.ContentModel.Validate.Laws.{IsPlain, IsSlug-IsPlain}
use termblog.ContentModel.Validate.Relative.{
  IsSlugPath, IsPlain-IsPiece, starts_with-join, ends_with-join, contains-join,
}
use termblog.ContentModel.Article.{ArticlePath, parent_or_root, parse}
use termblog.ContentModel.Article.Mapping.{
  InDirectory, at_root, below, article_of, parse_sound, parse_complete, article_of-InDirectory,
  join-with_md, with_md, with_md-IsPlain, with_md-ne-nil,
}

-- The fields of an article path, described with no reference to the parser.
pub record IsArticle (source : Str) (a : ArticlePath) : Type 0 where
  pub key_path : IsSlugPath a.key
  pub source_is : source ≡ a.key ++ lit ".md"
  pub kept : a.source_rel ≡ source
  pub route_is : a.route ≡ lit "/" ++ a.key ++ lit "/"
  pub directory : InDirectory a.directory_rel a.key

pub parent_of_key :
    (directory key : Str)
    → InDirectory directory key
    → parent_or_root (rsplit_once slash key) ≡ directory
parent_of_key d key (at_root e v) =
    rw (rsplit_once_whole slash key (IsSlug-IsPlain key v).no_slash) (sym e)
parent_of_key d key (below name v p e) =
    rw (e, rsplit_once_last slash d name (IsSlug-IsPlain name v).no_slash)

IsArticle-article_of : (source : Str) (a : ArticlePath) → IsArticle source a → article_of a.key ≡ a
IsArticle-article_of source a v =
    ground (arith, v.source_is, v.kept, v.route_is, parent_of_key a.directory_rel a.key v.directory)

-- A source parses to an article path exactly if it is a path of slugs with `.md` behind it; the
-- key is that path, the route has a slash on either side, and the directory is the key without
-- its last segment, empty at the root.
pub parse_exact : (source : Str) (a : ArticlePath) → (parse source ≡ ok a) ↔ IsArticle source a
parse_exact source a = (
  λ h.
      let (key, v, e, built) = parse_sound source a h in
      rw built (record {
        key_path = v;
        source_is = e;
        kept = sym e;
        route_is = refl;
        directory = article_of-InDirectory key v;
      }),
  λ v. rw v.source_is (parse_complete a.key v.key_path ∙ ap ok (IsArticle-article_of source a v)),
)

no_hidden : (ss : List Str) → All IsPlain ss → any (starts_with b'.') ss ≡ false
no_hidden [] h = refl
no_hidden (s ∷ ss) h = ground (arith, h.0.no_dot, no_hidden ss h.1)

no_empty : (ss : List Str) → All IsPlain ss → All (λ s. s ≢ []) ss
no_empty [] h = tt
no_empty (s ∷ ss) h = (h.0.ne_nil, no_empty ss h.1)

source_segments :
    (key : Str)
    → IsSlugPath key
    → (ss : List Str) × All IsPlain ss × (ss ≢ []) × (key ++ lit ".md" ≡ join slash ss)
source_segments key v = (
  with_md v.segments,
  with_md-IsPlain v.segments v.slugs,
  with_md-ne-nil v.segments v.ne_nil,
  ap (λ k. k ++ lit ".md") v.joined ∙ sym (join-with_md v.segments v.ne_nil),
)

-- An accepted source stays inside its tree: it has no leading or trailing slash, no backslash, and
-- no segment that is empty or begins with a dot (so neither `.` nor `..`).
pub parse_confined :
    (source : Str) (a : ArticlePath)
    → parse source ≡ ok a
    → (starts_with slash source ≡ false)
      × (ends_with slash source ≡ false)
      × (contains b'\\' source ≡ false)
      × (has_hidden_component source ≡ false)
      × All (λ s. s ≢ []) (split slash source)
unfolding has_hidden_component
parse_confined source a h =
    let v = (parse_exact source a).0 h in
    let (ss, plain, ne, e) = source_segments a.key v.key_path in
    let joined : source ≡ join slash ss = v.source_is ∙ e in
    let pieces : split slash source ≡ ss =
      ap (split slash) joined ∙ split-join slash ss (IsPlain-IsPiece ss plain) ne in
    (
      ap (starts_with slash) joined ∙ starts_with-join ss plain,
      ap (ends_with slash) joined ∙ ends_with-join ss plain,
      ap (contains b'\\') joined ∙ contains-join ss plain,
      ap (any (starts_with b'.')) pieces ∙ no_hidden ss plain,
      rw pieces (no_empty ss plain),
    )
