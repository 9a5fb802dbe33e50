-- ===== src/ContentModel/Article/Mapping.antt =====
-- Which sources are articles, and how they map to keys, routes and directories.
use mathlib.Core.List.{append_assoc}
use termblog.Prelude.{
  false, ◌≡◌, ◌≢◌, inl, inr, refl, ap, sym, ◌∙◌, subst, List, [], ◌∷◌, ◌++◌, none, some, ok, All,
  All-append_front, All-append_back, Option-cases, arith,
}
use termblog.Prelude.Text.{Str, lit, ends_with, contains, split, strip_suffix, rsplit_once}
use termblog.Prelude.Text.Splitting.{
  join, contains-append, contains_middle, split-append, split_whole, strip_suffix-append,
  strip_suffix_sound, rsplit_once_sound, rsplit_once-none,
}
use termblog.ContentModel.Validate.{
  article_path, slash, is_slug_char, validate_article_segment, validate_article_source_segment,
  validate_relative, each,
}
use termblog.ContentModel.Validate.Laws.{
  IsSlug, IsPlain, IsSlug-IsPlain, contains-IsSlug, each_sound, each_complete,
  validate_article_segment_complete,
}
use termblog.ContentModel.Validate.Relative.{
  IsSlugPath, IsSlugPath-of_split, split-IsSlugPath, checked_slugs, slugs_checked, slugs-IsPlain,
  validate_relative_complete, ends_with-join, join-ne-nil,
}
use termblog.ContentModel.Article.{ArticlePath, parent_or_root, parse}

-- the directory part of a key, told apart from its last segment
pub data InDirectory (directory key : Str) : Type 0 where
  at_root : directory ≡ [] → IsSlug key → InDirectory directory key
  below :
      (name : Str)
      → IsSlug name
      → IsSlugPath directory
      → key ≡ directory ++ (slash ∷ name)
      → InDirectory directory key

-- the source segments of a key: the last one carries the extension
pub with_md : List Str → List Str
with_md [] = []
with_md (s ∷ []) = (s ++ lit ".md") ∷ []
with_md (s ∷ t ∷ ss) = s ∷ with_md (t ∷ ss)

pub with_md-ne-nil : (ss : List Str) → ss ≢ [] → with_md ss ≢ []
unfolding with_md
with_md-ne-nil [] ne e = ne refl
with_md-ne-nil (s ∷ []) ne e = cc
with_md-ne-nil (s ∷ t ∷ ss) ne e = cc

pub join-with_md : (ss : List Str) → ss ≢ [] → join slash (with_md ss) ≡ join slash ss ++ lit ".md"
unfolding with_md
join-with_md [] ne = absurd (ne refl)
join-with_md (s ∷ []) ne = refl
join-with_md (s ∷ t ∷ []) ne = sym (append_assoc s (slash ∷ t) (lit ".md"))
join-with_md (s ∷ t ∷ u ∷ ss) ne =
    ap (λ r. s ++ (slash ∷ r)) (join-with_md (t ∷ u ∷ ss) (λ e. cc))
    ∙ sym (append_assoc s (slash ∷ join slash (t ∷ u ∷ ss)) (lit ".md"))

md-IsPlain : (s : Str) → IsSlug s → IsPlain (s ++ lit ".md")
md-IsPlain [] v = absurd (v.ne_nil refl)
md-IsPlain (c ∷ s) v =
    let p = IsSlug-IsPlain (c ∷ s) v in
    record {
      ne_nil = λ e. cc;
      no_dot = ground (arith, p.no_dot);
      no_slash = contains-append slash (c ∷ s) (lit ".md") p.no_slash refl;
      no_backslash = contains-append b'\\' (c ∷ s) (lit ".md") p.no_backslash refl;
    }

pub with_md-IsPlain : (ss : List Str) → All IsSlug ss → All IsPlain (with_md ss)
unfolding with_md
with_md-IsPlain [] h = tt
with_md-IsPlain (s ∷ []) h = (md-IsPlain s h.0, tt)
with_md-IsPlain (s ∷ t ∷ ss) h = (IsSlug-IsPlain s h.0, with_md-IsPlain (t ∷ ss) h.1)

dot_not_slug : is_slug_char b'.' ≡ false
unfolding is_slug_char
dot_not_slug = refl

-- No slug ends in the extension.
slug_no_md : (s : Str) → IsSlug s → strip_suffix (lit ".md") s ≡ none
slug_no_md s v = elim (Option-cases (strip_suffix (lit ".md") s)) [
  | inl n ↦ n
  | inr (stem, e) ↦ cc (
    contains-IsSlug b'.' s dot_not_slug v.chars,
    contains_middle b'.' stem (lit "md"),
    strip_suffix_sound (lit ".md") s e,
  )
]

source_segment_slug : (s : Str) → IsSlug s → validate_article_source_segment s ≡ ok tt
unfolding validate_article_source_segment
source_segment_slug s v = rw (slug_no_md s v) (validate_article_segment_complete s v)

source_segment_md : (s : Str) → IsSlug s → validate_article_source_segment (s ++ lit ".md") ≡ ok tt
unfolding validate_article_source_segment
source_segment_md s v =
    rw (strip_suffix-append s (lit ".md")) (validate_article_segment_complete s v)

source_segments :
    (ss : List Str)
    → All IsSlug ss
    → All (λ s. validate_article_source_segment s ≡ ok tt) (with_md ss)
unfolding with_md
source_segments [] h = tt
source_segments (s ∷ []) h = (source_segment_md s h.0, tt)
source_segments (s ∷ t ∷ ss) h = (source_segment_slug s h.0, source_segments (t ∷ ss) h.1)

source_accepted :
    (key : Str)
    → IsSlugPath key
    → validate_relative (key ++ lit ".md") false validate_article_source_segment article_path
      ≡ ok tt
source_accepted key v = rw v.joined (
    rw (← join-with_md v.segments v.ne_nil) (
      validate_relative_complete article_path validate_article_source_segment (with_md v.segments)
        (with_md-ne-nil v.segments v.ne_nil) (with_md-IsPlain v.segments v.slugs)
        (source_segments v.segments v.slugs)))

-- The article path of a key.
abbrev pub article_of : Str → ArticlePath
article_of key = record {
  source_rel = key ++ lit ".md";
  key = key;
  route = lit "/" ++ key ++ lit "/";
  directory_rel = parent_or_root (rsplit_once slash key);
}

key_ne_nil : (key : Str) → IsSlugPath key → key ≢ []
key_ne_nil key v e =
    join-ne-nil v.segments (slugs-IsPlain v.segments v.slugs) v.ne_nil (sym v.joined ∙ e)

key_ends_with : (key : Str) → IsSlugPath key → ends_with slash key ≡ false
key_ends_with key v = rw v.joined (ends_with-join v.segments (slugs-IsPlain v.segments v.slugs))

-- Every slug path names an article.
pub parse_complete : (key : Str) → IsSlugPath key → parse (key ++ lit ".md") ≡ ok (article_of key)
unfolding parse
parse_complete key v = ground (
  arith,
  source_accepted key v,
  strip_suffix-append key (lit ".md"),
  key_ne_nil key v,
  key_ends_with key v,
  each_complete validate_article_segment (split slash key)
      (slugs_checked (split slash key) (split-IsSlugPath key v)),
)

parse_parts :
    (source : Str) (a : ArticlePath)
    → parse source ≡ ok a
    → (key : Str) × (strip_suffix (lit ".md") source ≡ some key)
      × (each validate_article_segment (split slash key) ≡ ok tt)
      × (a ≡ record (article_of key) { source_rel = source })
unfolding parse
parse_parts source a h = elim (Option-cases (strip_suffix (lit ".md") source)) [
  | inl n ↦ ground arith
  | inr (key, e) ↦ (key, e, ground arith, ground arith)
]

pub parse_sound :
    (source : Str) (a : ArticlePath)
    → parse source ≡ ok a
    → (key : Str) × IsSlugPath key × (source ≡ key ++ lit ".md") × (a ≡ article_of key)
parse_sound source a h =
    let (key, stripped, checked, built) = parse_parts source a h in
    let source_is : source ≡ key ++ lit ".md" = strip_suffix_sound (lit ".md") source stripped in
    let slugs = checked_slugs _ (each_sound validate_article_segment (split slash key) checked) in
    (
      key,
      IsSlugPath-of_split key slugs,
      source_is,
      built ∙ ap (λ r. record (article_of key) { source_rel = r }) source_is,
    )

-- A slug path is one slug, or a slug path with a slug below it.
IsSlugPath-parts :
    (key a b : Str)
    → IsSlugPath key
    → key ≡ a ++ (slash ∷ b)
    → contains slash b ≡ false
    → IsSlug b × IsSlugPath a
IsSlugPath-parts key a b v e last =
    let all : All IsSlug (split slash a ++ split slash b) =
      subst (All IsSlug) (ap (split slash) e ∙ split-append slash a b) (split-IsSlugPath key v) in
    let back : All IsSlug (b ∷ []) =
      subst (All IsSlug) (split_whole slash b last)
        (All-append_back IsSlug (split slash a) (split slash b) all) in
    (back.0, IsSlugPath-of_split a (All-append_front IsSlug (split slash a) (split slash b) all))

IsSlug-path_whole : (key : Str) → IsSlugPath key → contains slash key ≡ false → IsSlug key
IsSlug-path_whole key v whole =
    let all : All IsSlug (key ∷ []) =
      subst (All IsSlug) (split_whole slash key whole) (split-IsSlugPath key v) in
    all.0

-- The directory of an article is the key without its last segment.
pub article_of-InDirectory :
    (key : Str) → IsSlugPath key → InDirectory (article_of key).directory_rel key
article_of-InDirectory key v = elim (Option-cases (rsplit_once slash key)) [
  | inl n ↦ at_root (rw n) (IsSlug-path_whole key v (rsplit_once-none slash key n))
  | inr ((a, b), e) ↦
      let (key_is, last) = rsplit_once_sound slash key e in
      let (name, directory) = IsSlugPath-parts key a b v key_is last in
      rw e (below b name directory key_is)
]
