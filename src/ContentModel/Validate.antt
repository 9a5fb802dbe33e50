-- ===== src/ContentModel/Validate.antt =====
-- The validators of relative paths and targets, with the errors of the crate.
pub mod Laws
pub mod Relative
use termblog.Prelude.{
  ℕ, Bool, false, not, ◌||◌, ltb, ◌==◌, within, if◌then◌else◌, List, [], ◌∷◌, Option, none, some,
  Result, ok, err, ◌>>=◌, ◌>>◌, guard_not, ok_or, find, any, is_empty,
}
use termblog.Prelude.Text.{
  Str, lit, len, eq, starts_with, ends_with, contains, strip_prefix, strip_suffix, split,
}

-- What a path is called in an error: the argument `kind`.
pub data Kind : Type 0 where
  article_path comment_directory comment_target resource_path : Kind

-- `PathModelError`, a constructor for each of the crate's messages.
pub data PathModelError : Type 0 where
  not_utf8 bad_extension file_name_empty target_too_long target_slashes segment_empty :
      PathModelError
  path_empty path_slashes path_backslash path_empty_segment : Kind → PathModelError
  path_dot_segment path_hidden_segment : Kind → Str → PathModelError
  invalid_character : ℕ → PathModelError
  missing_tab extra_fields mapping_inconsistent duplicate_line : ℕ → PathModelError
  unsupported_version : ℕ → PathModelError
  index_inconsistent index_date index_title index_duplicate : Str → PathModelError

abbrev pub Checked : Type 0
Checked = Result PathModelError (Unit {0})

abbrev pub slash : ℕ
slash = b'/'

abbrev pub max_target_len : ℕ
max_target_len = 200

-- `is_ascii_lowercase`
abbrev pub is_ascii_lowercase : ℕ → Bool
is_ascii_lowercase = within b'a' b'z'

-- `is_ascii_digit`
abbrev pub is_ascii_digit : ℕ → Bool
is_ascii_digit = within b'0' b'9'

-- the characters of `validate_article_segment`
unfoldable pub is_slug_char : ℕ → Bool
is_slug_char ch = is_ascii_lowercase ch || is_ascii_digit ch || ch == b'-'

-- the characters of `validate_resource_segment`
unfoldable pub is_resource_char : ℕ → Bool
is_resource_char ch =
    is_ascii_lowercase ch || is_ascii_digit ch || ch == b'.' || ch == b'_' || ch == b'-'

abbrev refuse_char : Option ℕ → Checked
refuse_char (some ch) = err (invalid_character ch)
refuse_char none = ok tt

unfoldable pub validate_article_segment : Str → Checked
validate_article_segment segment = do
  guard_not (is_empty segment) segment_empty
  refuse_char (find (λ ch. not (is_slug_char ch)) segment)

unfoldable pub validate_resource_segment : Str → Checked
validate_resource_segment segment = refuse_char (find (λ ch. not (is_resource_char ch)) segment)

abbrev or_segment : Str → Option Str → Checked
or_segment segment (some stem) = validate_article_segment stem
or_segment segment none = validate_article_segment segment

unfoldable pub validate_article_source_segment : Str → Checked
validate_article_source_segment segment = or_segment segment (strip_suffix (lit ".md") segment)

-- one round of the loop of `validate_relative`
unfoldable pub validate_segment : Kind → (Str → Checked) → Str → Checked
validate_segment kind segment_validator segment = do
  guard_not (is_empty segment) (path_empty_segment kind)
  guard_not (eq segment (lit ".") || eq segment (lit "..")) (path_dot_segment kind segment)
  guard_not (starts_with b'.' segment) (path_hidden_segment kind segment)
  segment_validator segment

-- `for segment in path.split('/') { … }`
unfoldable pub each : (Str → Checked) → List Str → Checked
each check [] = ok tt
each check (s ∷ ss) = do check s; each check ss

unfoldable pub validate_relative : Str → Bool → (Str → Checked) → Kind → Checked
validate_relative path allow_empty segment_validator kind =
    if is_empty path then (if allow_empty then ok tt else err (path_empty kind)) else do
      guard_not (starts_with slash path || ends_with slash path) (path_slashes kind)
      guard_not (contains b'\\' path) (path_backslash kind)
      each (validate_segment kind segment_validator) (split slash path)

-- `s.strip_prefix('/').and_then(|s| s.strip_suffix('/'))`
unfoldable pub strip_slashes : Str → Option Str
strip_slashes s = elim (strip_prefix slash s) [ none ↦ none | some t ↦ strip_suffix (lit "/") t ]

-- A public comment target: `/` or `/a/b/`.
unfoldable pub validate_target : Str → Checked
validate_target target = if eq target (lit "/") then ok tt else do
  guard_not (ltb max_target_len (len target)) target_too_long
  inner ← ok_or (strip_slashes target) target_slashes
  validate_relative inner false validate_article_segment comment_target

unfoldable pub validate_resource_rel : Str → Checked
validate_resource_rel path = validate_relative path false validate_resource_segment resource_path

unfoldable pub has_hidden_component : Str → Bool
has_hidden_component path = any (starts_with b'.') (split slash path)
