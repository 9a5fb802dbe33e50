-- ===== src/ContentModel/Manifest/Sound.antt =====
-- What an accepted manifest says.
use mathlib.Core.List.{Perm}
use mathlib.Core.List.Perm
use mathlib.Core.Path.{ap₂}
use termblog.Prelude.{
  ℕ, ◌+◌, true, false, ◌≡◌, refl, ap, sym, ◌∙◌, subst, inl, inr, List, [], ◌∷◌, ◌++◌, map, some, ok,
  >>=-eq-ok, All, arith, Bool-cases, Option-cases, Result-cases,
}
use termblog.Prelude.Text.{Str, eq, split_once}
use termblog.Prelude.Text.Order.{le, le_total, lines}
use termblog.Prelude.Text.Splitting.{eq_iff, split_once_sound}
use termblog.ContentModel.Scope.{ContentScope, from_target}
use termblog.ContentModel.Scope.Laws.{from_target_exact, target-scope_of}
use termblog.ContentModel.Manifest.{
  seen, parse_line, parse_lines, insert, sort, parse_scope_manifest,
}

-- The line of a scope.
abbrev pub row : ContentScope → Str
row s = s.comment_rel ++ (b'\t' ∷ s.target)

-- Every path, from the head on, comes no later than the next one.
abbrev pub IsSorted : List ContentScope → Type 0
IsSorted [] = Unit
IsSorted (s ∷ []) = Unit
IsSorted (s ∷ t ∷ ts) = (le s.comment_rel t.comment_rel ≡ true) × IsSorted (t ∷ ts)

insert-IsSorted : (s : ContentScope) (ts : List ContentScope) → IsSorted ts → IsSorted (insert s ts)
unfolding insert
insert-IsSorted s [] h = tt
insert-IsSorted s (t ∷ []) h = ground (arith, le_total s.comment_rel t.comment_rel)
insert-IsSorted s (t ∷ u ∷ us) h =
    ground (arith, le_total s.comment_rel t.comment_rel, insert-IsSorted s (u ∷ us) h.1)

sort-IsSorted : (ss : List ContentScope) → IsSorted (sort ss)
unfolding sort
sort-IsSorted [] = tt
sort-IsSorted (s ∷ ss) = insert-IsSorted s (sort ss) (sort-IsSorted ss)

insert-perm : (s : ContentScope) (ts : List ContentScope) → Perm (insert s ts) (s ∷ ts)
unfolding insert
insert-perm s [] = Perm.refl (s ∷ [])
insert-perm s (t ∷ ts) = elim (Bool-cases (le s.comment_rel t.comment_rel)) [
  | inl e ↦ rw (e, insert) (Perm.refl (s ∷ t ∷ ts))
  | inr e ↦ rw (e, insert) (Perm.trans (Perm.cons t (insert-perm s ts)) (Perm.swap s t ts))
]

sort-perm : (ss : List ContentScope) → Perm (sort ss) ss
unfolding sort
sort-perm [] = Perm.refl []
sort-perm (s ∷ ss) = Perm.trans (insert-perm s (sort ss)) (Perm.cons s (sort-perm ss))

-- No text stands twice.
abbrev pub Distinct : List Str → Type 0
Distinct [] = Unit
Distinct (x ∷ xs) = (seen x xs ≡ false) × Distinct xs

-- What one accepted line says.
record IsRow (paths targets : List Str) (line : Str) (s : ContentScope) : Type 0 where
  line_is : line ≡ row s
  scope_is : from_target s.target ≡ ok s
  new_path : seen s.comment_rel paths ≡ false
  new_target : seen s.target targets ≡ false

target_of_scope : (t : Str) (s : ContentScope) → from_target t ≡ ok s → s.target ≡ t
target_of_scope t s h =
    let (d, v, e, k) = (from_target_exact t s).0 h in
    ap (λ (r : ContentScope). r.target) k ∙ target-scope_of d ∙ sym e

line_parts :
    (index : ℕ) (paths targets : List Str) (line a b : Str) (s : ContentScope)
    → split_once b'\t' line ≡ some (a, b)
    → parse_line index paths targets line ≡ ok s
    → (from_target b ≡ ok s)
      × (eq s.comment_rel a ≡ true)
      × (seen a paths ≡ false)
      × (seen b targets ≡ false)
unfolding parse_line
line_parts index paths targets line a b s k h = elim (Result-cases (from_target b)) [
  | inl (t, e) ↦ ground arith
  | inr (x, e) ↦ ground arith
]

parse_line-IsRow :
    (index : ℕ) (paths targets : List Str) (line : Str) (s : ContentScope)
    → parse_line index paths targets line ≡ ok s
    → IsRow paths targets line s
parse_line-IsRow index paths targets line s h = elim (Option-cases (split_once b'\t' line)) [
  | inl n ↦ absurd (unfold parse_line in ground arith)
  | inr ((a, b), k) ↦
      let (from, same, new_path, new_target) = line_parts index paths targets line a b s k h in
      let path_is : s.comment_rel ≡ a = (eq_iff s.comment_rel a).0 same in
      let target_is : s.target ≡ b = target_of_scope b s from in
      record {
        line_is = split_once_sound b'\t' line k ∙ rw (path_is, target_is);
        scope_is = ap from_target target_is ∙ from;
        new_path = rw path_is new_path;
        new_target = rw target_is new_target;
      }
]

abbrev paths_of : List ContentScope → List Str
paths_of = map (λ s. s.comment_rel)

abbrev targets_of : List ContentScope → List Str
targets_of = map (λ s. s.target)

-- The scopes that the loop returns, given what it has seen.
record IsManifest (paths targets ls : List Str) (ss : List ContentScope) : Type 0 where
  lines_are : ls ≡ map row ss
  scopes_are : All (λ s. from_target s.target ≡ ok s) ss
  new_paths : All (λ p. seen p paths ≡ false) (paths_of ss)
  new_targets : All (λ t. seen t targets ≡ false) (targets_of ss)
  distinct_paths : Distinct (paths_of ss)
  distinct_targets : Distinct (targets_of ss)

-- Texts that are new behind `x` are new, and differ from `x`.
pub new_behind :
    (x : Str) (xs ys : List Str)
    → All (λ y. seen y (x ∷ xs) ≡ false) ys
    → All (λ y. seen y xs ≡ false) ys × (seen x ys ≡ false)
new_behind x xs [] h = (tt, refl)
new_behind x xs (y ∷ ys) h = ground (arith, new_behind x xs ys h.1, eq_iff x y, eq_iff y x)

parse_lines-IsManifest :
    (index : ℕ) (paths targets ls : List Str) (ss : List ContentScope)
    → parse_lines index paths targets ls ≡ ok ss
    → IsManifest paths targets ls ss
unfolding parse_lines
parse_lines-IsManifest index paths targets [] ss h =
    let e : [] ≡ ss = cc h in
    subst (IsManifest paths targets []) e (record {
      lines_are = refl;
      scopes_are = tt;
      new_paths = tt;
      new_targets = tt;
      distinct_paths = tt;
      distinct_targets = tt;
    })
parse_lines-IsManifest index paths targets (line ∷ ls) ss h =
    let (s, first, later) = >>=-eq-ok (parse_line index paths targets line) _ h in
    let (rest, parsed, e) =
      >>=-eq-ok (parse_lines (index + 1) (s.comment_rel ∷ paths) (s.target ∷ targets) ls) _ later in
    let v = parse_line-IsRow index paths targets line s first in
    let w =
      parse_lines-IsManifest (index + 1) (s.comment_rel ∷ paths) (s.target ∷ targets) ls rest
        parsed in
    let (new_paths, path) = new_behind s.comment_rel paths (paths_of rest) w.new_paths in
    let (new_targets, target) = new_behind s.target targets (targets_of rest) w.new_targets in
    let is : s ∷ rest ≡ ss = cc e in
    subst (IsManifest paths targets (line ∷ ls)) is (record {
      lines_are = ap₂ ◌∷◌ v.line_is w.lines_are;
      scopes_are = (v.scope_is, w.scopes_are);
      new_paths = (v.new_path, new_paths);
      new_targets = (v.new_target, new_targets);
      distinct_paths = (path, w.distinct_paths);
      distinct_targets = (target, w.distinct_targets);
    })

-- An accepted manifest is, line for line, a list of scopes with distinct paths and distinct targets,
-- each the scope of its target; the result holds exactly these, sorted by path.
pub parse_scope_manifest_sound :
    (text : Str) (scopes : List ContentScope)
    → parse_scope_manifest text ≡ ok scopes
    → (ss : List ContentScope) × (lines text ≡ map row ss)
      × All (λ s. from_target s.target ≡ ok s) ss
      × Distinct (map (λ s. s.comment_rel) ss)
      × Distinct (map (λ s. s.target) ss)
      × Perm scopes ss
      × IsSorted scopes
unfolding parse_scope_manifest
parse_scope_manifest_sound text scopes h =
    let (ss, parsed, e) = >>=-eq-ok (parse_lines 0 [] [] (lines text)) _ h in
    let v = parse_lines-IsManifest 0 [] [] (lines text) ss parsed in
    let is : sort ss ≡ scopes = cc e in
    (
      ss,
      v.lines_are,
      v.scopes_are,
      v.distinct_paths,
      v.distinct_targets,
      subst (λ l. Perm l ss) is (sort-perm ss),
      subst IsSorted is (sort-IsSorted ss),
    )

All-insert :
    (P : ContentScope → Type 0) (s : ContentScope) (ts : List ContentScope)
    → P s
    → All P ts
    → All P (insert s ts)
unfolding insert
All-insert P s [] p h = (p, tt)
All-insert P s (t ∷ ts) p h = elim (Bool-cases (le s.comment_rel t.comment_rel)) [
  | inl e ↦ rw e (p, h)
  | inr e ↦ rw e (h.0, All-insert P s ts p h.1)
]

All-sort : (P : ContentScope → Type 0) (ss : List ContentScope) → All P ss → All P (sort ss)
unfolding sort
All-sort P [] h = tt
All-sort P (s ∷ ss) h = All-insert P s (sort ss) h.0 (All-sort P ss h.1)

-- Each accepted scope is the scope of its target.
pub parse_scope_manifest-scopes :
    (text : Str) (scopes : List ContentScope)
    → parse_scope_manifest text ≡ ok scopes
    → All (λ (s : ContentScope). from_target s.target ≡ ok s) scopes
unfolding parse_scope_manifest
parse_scope_manifest-scopes text scopes h =
    let (ss, parsed, e) = >>=-eq-ok (parse_lines 0 [] [] (lines text)) _ h in
    let v = parse_lines-IsManifest 0 [] [] (lines text) ss parsed in
    let is : sort ss ≡ scopes = cc e in
    subst (All (λ (s : ContentScope). from_target s.target ≡ ok s)) is
      (All-sort (λ (s : ContentScope). from_target s.target ≡ ok s) ss v.scopes_are)
