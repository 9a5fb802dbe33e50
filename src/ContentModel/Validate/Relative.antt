-- ===== src/ContentModel/Validate/Relative.antt =====
-- `validate_relative` as a whole: the relative paths that it lets through.
use termblog.Prelude.{ℕ, false, ◌≡◌, ◌≢◌, refl, sym, ◌∙◌, List, [], ◌∷◌, ◌++◌, ok, All, arith}
use termblog.Prelude.Text.{Str, starts_with, ends_with, contains, split}
use termblog.Prelude.Text.Splitting.{
  join, split-join, split-ne-nil, join-split, contains-append, IsPiece,
}
use termblog.ContentModel.Validate.{
  Kind, Checked, slash, validate_article_segment, validate_segment, validate_relative,
}
use termblog.ContentModel.Validate.Laws.{
  IsSlug, IsPlain, IsSlug-IsPlain, each_sound, each_complete, validate_segment_sound,
  validate_segment_complete, validate_article_segment_sound, validate_article_segment_complete,
}

-- the path is `ss` with slashes between
pub record IsSlugPath (p : Str) : Type 0 where
  pub segments : List Str
  pub ne_nil : segments ≢ []
  pub slugs : All IsSlug segments
  pub joined : p ≡ join slash segments

ends_with-append : (c d : ℕ) (a s : Str) → ends_with c (a ++ (d ∷ s)) ≡ ends_with c (d ∷ s)
ends_with-append c d [] s = refl
ends_with-append c d (x ∷ []) s = refl
ends_with-append c d (x ∷ y ∷ a) s = ends_with-append c d (y ∷ a) s

ends_with-contains : (c : ℕ) (s : Str) → contains c s ≡ false → ends_with c s ≡ false
ends_with-contains c [] h = refl
ends_with-contains c (d ∷ []) h = ground arith
ends_with-contains c (d ∷ e ∷ s) h = ends_with-contains c (e ∷ s) (ground arith)

pub join-ne-nil : (ss : List Str) → All IsPlain ss → ss ≢ [] → join slash ss ≢ []
join-ne-nil [] h ne e = ne refl
join-ne-nil (s ∷ []) h ne e = h.0.ne_nil e
join-ne-nil ([] ∷ t ∷ ss) h ne e = h.0.ne_nil refl
join-ne-nil ((c ∷ s) ∷ t ∷ ss) h ne e = cc

pub starts_with-join : (ss : List Str) → All IsPlain ss → starts_with slash (join slash ss) ≡ false
starts_with-join [] h = refl
starts_with-join ([] ∷ ss) h = absurd (h.0.ne_nil refl)
starts_with-join ((c ∷ s) ∷ []) h = ground (arith, h.0.no_slash)
starts_with-join ((c ∷ s) ∷ t ∷ ss) h = ground (arith, h.0.no_slash)

ends_with-after : (c : ℕ) (s t : Str) → t ≢ [] → ends_with c (s ++ (c ∷ t)) ≡ ends_with c t
ends_with-after c s [] h = absurd (h refl)
ends_with-after c s (x ∷ t) h = ends_with-append c c s (x ∷ t)

pub ends_with-join : (ss : List Str) → All IsPlain ss → ends_with slash (join slash ss) ≡ false
ends_with-join [] h = refl
ends_with-join (s ∷ []) h = ends_with-contains slash s h.0.no_slash
ends_with-join (s ∷ t ∷ ss) h =
    ends_with-after slash s (join slash (t ∷ ss)) (join-ne-nil (t ∷ ss) h.1 (λ e. cc))
    ∙ ends_with-join (t ∷ ss) h.1

pub contains-join : (ss : List Str) → All IsPlain ss → contains b'\\' (join slash ss) ≡ false
contains-join [] h = refl
contains-join (s ∷ []) h = h.0.no_backslash
contains-join (s ∷ t ∷ ss) h =
    contains-append b'\\' s (slash ∷ join slash (t ∷ ss)) h.0.no_backslash
      (contains-join (t ∷ ss) h.1)

pub IsPlain-IsPiece : (ss : List Str) → All IsPlain ss → All (IsPiece slash) ss
IsPlain-IsPiece [] h = tt
IsPlain-IsPiece (s ∷ ss) h = (h.0.no_slash, IsPlain-IsPiece ss h.1)

module _ (kind : Kind) (check : Str → Checked) where
  checked_segments :
      (ss : List Str)
      → All IsPlain ss
      → All (λ s. check s ≡ ok tt) ss
      → All (λ s. validate_segment kind check s ≡ ok tt) ss
  checked_segments [] v h = tt
  checked_segments (s ∷ ss) v h =
      (validate_segment_complete kind check s v.0 h.0, checked_segments ss v.1 h.1)

  pub validate_relative_complete :
      (ss : List Str)
      → ss ≢ []
      → All IsPlain ss
      → All (λ s. check s ≡ ok tt) ss
      → validate_relative (join slash ss) false check kind ≡ ok tt
  unfolding validate_relative
  validate_relative_complete ss ne v h = ground (
    arith,
    join-ne-nil ss v ne,
    starts_with-join ss v,
    ends_with-join ss v,
    contains-join ss v,
    split-join slash ss (IsPlain-IsPiece ss v) ne,
    each_complete (validate_segment kind check) ss (checked_segments ss v h),
  )

  validators :
      (ss : List Str)
      → All (λ s. validate_segment kind check s ≡ ok tt) ss
      → All (λ s. check s ≡ ok tt) ss
  validators [] h = tt
  validators (s ∷ ss) h = ((validate_segment_sound kind check s h.0).2, validators ss h.1)

  pub validate_relative_sound :
      (p : Str)
      → validate_relative p false check kind ≡ ok tt
      → All (λ s. check s ≡ ok tt) (split slash p)
  unfolding validate_relative
  validate_relative_sound p h =
      validators (split slash p)
        (each_sound (validate_segment kind check) (split slash p) (ground arith))

pub slugs_checked :
    (ss : List Str) → All IsSlug ss → All (λ s. validate_article_segment s ≡ ok tt) ss
slugs_checked [] h = tt
slugs_checked (s ∷ ss) h = (validate_article_segment_complete s h.0, slugs_checked ss h.1)

pub checked_slugs :
    (ss : List Str) → All (λ s. validate_article_segment s ≡ ok tt) ss → All IsSlug ss
checked_slugs [] h = tt
checked_slugs (s ∷ ss) h = (validate_article_segment_sound s h.0, checked_slugs ss h.1)

pub slugs-IsPlain : (ss : List Str) → All IsSlug ss → All IsPlain ss
slugs-IsPlain [] h = tt
slugs-IsPlain (s ∷ ss) h = (IsSlug-IsPlain s h.0, slugs-IsPlain ss h.1)

pub slugs_IsPiece : (ss : List Str) → All IsSlug ss → All (IsPiece slash) ss
slugs_IsPiece ss h = IsPlain-IsPiece ss (slugs-IsPlain ss h)

pub IsSlugPath-of_split : (p : Str) → All IsSlug (split slash p) → IsSlugPath p
IsSlugPath-of_split p h = record {
  segments = split slash p;
  ne_nil = split-ne-nil slash p;
  slugs = h;
  joined = sym (join-split slash p);
}

pub split-IsSlugPath : (p : Str) → IsSlugPath p → All IsSlug (split slash p)
split-IsSlugPath p v =
    rw (v.joined, split-join slash v.segments (slugs_IsPiece v.segments v.slugs) v.ne_nil) v.slugs

-- With the validator of article segments, the accepted paths are exactly the slug paths.
pub validate_relative_slugs_sound :
    (kind : Kind) (p : Str)
    → validate_relative p false validate_article_segment kind ≡ ok tt
    → IsSlugPath p
validate_relative_slugs_sound kind p h =
    IsSlugPath-of_split p
      (checked_slugs _ (validate_relative_sound kind validate_article_segment p h))

pub validate_relative_slugs_complete :
    (kind : Kind) (p : Str)
    → IsSlugPath p
    → validate_relative p false validate_article_segment kind ≡ ok tt
validate_relative_slugs_complete kind p v = rw v.joined (
    validate_relative_complete kind validate_article_segment v.segments v.ne_nil
      (slugs-IsPlain v.segments v.slugs) (slugs_checked v.segments v.slugs))
