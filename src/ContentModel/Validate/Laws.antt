-- ===== src/ContentModel/Validate/Laws.antt =====
-- What the validators accept: exactly the paths that are made of slugs.
use termblog.Prelude.{
  ℕ, Bool, true, false, not, ◌≡◌, ◌≢◌, refl, List, [], ◌∷◌, none, ok, find, All, arith,
}
use termblog.Prelude.Text.{Str, eq, starts_with, contains}
use termblog.ContentModel.Validate.{
  Kind, Checked, slash, is_slug_char, validate_article_segment, validate_segment, each,
}

-- One or more characters of [a-z0-9-].
pub record IsSlug (s : Str) : Type 0 where
  pub ne_nil : s ≢ []
  pub chars : All (λ c. is_slug_char c ≡ true) s

find-none : (p : ℕ → Bool) (s : Str) → find (λ c. not (p c)) s ≡ none → All (λ c. p c ≡ true) s
find-none p [] h = tt
find-none p (c ∷ s) h = ground (arith, find-none p s)

find-All : (p : ℕ → Bool) (s : Str) → All (λ c. p c ≡ true) s → find (λ c. not (p c)) s ≡ none
find-All p [] h = refl
find-All p (c ∷ s) h = ground (arith, find-All p s h.1)

pub validate_article_segment_sound : (s : Str) → validate_article_segment s ≡ ok tt → IsSlug s
unfolding validate_article_segment
validate_article_segment_sound [] h = cc
validate_article_segment_sound (c ∷ s) h = record {
  ne_nil = λ e. cc;
  chars = find-none is_slug_char (c ∷ s) (ground arith);
}

pub validate_article_segment_complete : (s : Str) → IsSlug s → validate_article_segment s ≡ ok tt
unfolding validate_article_segment
validate_article_segment_complete [] v = absurd (v.ne_nil refl)
validate_article_segment_complete (c ∷ s) v = ground (arith, find-All is_slug_char (c ∷ s) v.chars)

pub each_sound :
    (check : Str → Checked) (ss : List Str) → each check ss ≡ ok tt → All (λ s. check s ≡ ok tt) ss
unfolding each
each_sound check [] h = tt
each_sound check (s ∷ ss) h = ground (arith, each_sound check ss)

pub each_complete :
    (check : Str → Checked) (ss : List Str) → All (λ s. check s ≡ ok tt) ss → each check ss ≡ ok tt
unfolding each
each_complete check [] h = refl
each_complete check (s ∷ ss) h = ground (arith, each_complete check ss h.1)

-- A slug holds no separator, no backslash and no leading dot.
pub contains-IsSlug :
    (c : ℕ) (s : Str)
    → is_slug_char c ≡ false
    → All (λ d. is_slug_char d ≡ true) s
    → contains c s ≡ false
contains-IsSlug c [] e h = refl
contains-IsSlug c (d ∷ s) e h = ground (arith, contains-IsSlug c s e h.1)

pub starts_with-IsSlug :
    (c : ℕ) (s : Str) → is_slug_char c ≡ false → IsSlug s → starts_with c s ≡ false
starts_with-IsSlug c [] e v = refl
starts_with-IsSlug c (d ∷ s) e v = ground (arith, v.chars)

dot_not_slug : is_slug_char b'.' ≡ false
unfolding is_slug_char
dot_not_slug = refl

pub slash_not_slug : is_slug_char slash ≡ false
unfolding is_slug_char
slash_not_slug = refl

backslash_not_slug : is_slug_char b'\\' ≡ false
unfolding is_slug_char
backslash_not_slug = refl

-- What a segment must satisfy beside its own validator.
pub record IsPlain (s : Str) : Type 0 where
  pub ne_nil : s ≢ []
  pub no_dot : starts_with b'.' s ≡ false
  pub no_slash : contains slash s ≡ false
  pub no_backslash : contains b'\\' s ≡ false

pub IsSlug-IsPlain : (s : Str) → IsSlug s → IsPlain s
IsSlug-IsPlain s v = record {
  ne_nil = v.ne_nil;
  no_dot = starts_with-IsSlug b'.' s dot_not_slug v;
  no_slash = contains-IsSlug slash s slash_not_slug v.chars;
  no_backslash = contains-IsSlug b'\\' s backslash_not_slug v.chars;
}

pub validate_segment_complete :
    (kind : Kind) (check : Str → Checked) (s : Str)
    → IsPlain s
    → check s ≡ ok tt
    → validate_segment kind check s ≡ ok tt
unfolding validate_segment eq
validate_segment_complete kind check [] v h = absurd (v.ne_nil refl)
validate_segment_complete kind check (c ∷ s) v h = ground (arith, v.no_dot)

pub validate_segment_sound :
    (kind : Kind) (check : Str → Checked) (s : Str)
    → validate_segment kind check s ≡ ok tt
    → (s ≢ []) × (starts_with b'.' s ≡ false) × (check s ≡ ok tt)
unfolding validate_segment
validate_segment_sound kind check [] h = ground arith
validate_segment_sound kind check (c ∷ s) h = ground arith
