-- ===== src/ContentModel/Manifest.antt =====
-- `parse_scope_manifest`: the scope manifest that content-build generates.
pub mod Sound
use termblog.Prelude.{
  ℕ, ◌+◌, Bool, not, ◌||◌, List, [], ◌∷◌, ◌++◌, Result, ok, ◌>>=◌, ◌>>◌, guard_not, ok_or, any,
  if◌then◌else◌,
}
use termblog.Prelude.Text.{Str, lit, eq, contains, split_once}
use termblog.Prelude.Text.Order.{le, lines}
use termblog.ContentModel.Validate.{
  PathModelError, missing_tab, extra_fields, mapping_inconsistent, duplicate_line,
}
use termblog.ContentModel.Scope.{ContentScope, from_target}

-- `BTreeSet::insert` answers whether the text is new; the sets are lists here.
abbrev pub seen : Str → List Str → Bool
seen s = any (eq s)

-- one round of the loop; the sets hold the earlier paths and targets
unfoldable pub parse_line : ℕ → List Str → List Str → Str → Result PathModelError ContentScope
parse_line index paths targets line = do
  (comment_rel, target) ← ok_or (split_once b'\t' line) (missing_tab (index + 1))
  guard_not (contains b'\t' target) (extra_fields (index + 1))
  scope ← from_target target
  guard_not (not (eq scope.comment_rel comment_rel)) (mapping_inconsistent (index + 1))
  guard_not (seen comment_rel paths || seen target targets) (duplicate_line (index + 1))
  ok scope

unfoldable pub parse_lines :
    ℕ → List Str → List Str → List Str → Result PathModelError (List ContentScope)
parse_lines index paths targets [] = ok []
parse_lines index paths targets (line ∷ rest) = do
  scope ← parse_line index paths targets line
  scopes ← parse_lines (index + 1) (scope.comment_rel ∷ paths) (scope.target ∷ targets) rest
  ok (scope ∷ scopes)

-- `sort_by` on `comment_rel`, as a stable insertion
unfoldable pub insert : ContentScope → List ContentScope → List ContentScope
insert s [] = s ∷ []
insert s (t ∷ ts) =
    let rest = insert s ts in if le s.comment_rel t.comment_rel then s ∷ t ∷ ts else t ∷ rest

unfoldable pub sort : List ContentScope → List ContentScope
sort [] = []
sort (s ∷ ss) = insert s (sort ss)

unfoldable pub parse_scope_manifest : Str → Result PathModelError (List ContentScope)
parse_scope_manifest text = do scopes ← parse_lines 0 [] [] (lines text); ok (sort scopes)
