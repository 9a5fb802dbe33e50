-- ===== src/ContentModel/Scope/Laws.antt =====
-- A scope is determined by its directory, and by its target.
use termblog.Prelude.{
  ℕ, true, false, ◌≡◌, ◌↔◌, ◌⊎◌, inl, inr, refl, ap, sym, [], ◌∷◌, ◌++◌, some, ok, arith, ◌==◌, ◌≤◌,
  if◌then◌else◌, is_empty, Option-cases, Bool-cases, subst,
}
use termblog.Prelude.Text.{Str, lit, eq, len}
use termblog.Prelude.Text.Splitting.{eq_iff, strip_suffix-append, strip_suffix_sound}
use termblog.ContentModel.Validate.{
  slash, max_target_len, comment_target, comment_directory, strip_slashes, validate_article_segment,
  validate_relative, validate_target,
}
use termblog.ContentModel.Validate.Relative.{
  IsSlugPath, validate_relative_slugs_sound, validate_relative_slugs_complete,
}
use termblog.ContentModel.Attachment
use termblog.ContentModel.Attachment.{target_of}
use termblog.ContentModel.Scope.{ContentScope, from_directory_rel, from_target, proc_of}

-- the root, or a slug path whose target is short enough
pub record IsDirectory (d : Str) : Type 0 where
  pub path : (d ≡ []) ⊎ IsSlugPath d
  pub short : len (target_of d) ≤ max_target_len

pub strip_slashes-wrap : (d : Str) → strip_slashes (lit "/" ++ d ++ lit "/") ≡ some d
unfolding strip_slashes
strip_slashes-wrap d = strip_suffix-append d (lit "/")

strip_slashes_sound : (t d : Str) → strip_slashes t ≡ some d → t ≡ lit "/" ++ d ++ lit "/"
unfolding strip_slashes
strip_slashes_sound [] d h = cc
strip_slashes_sound (c ∷ t) d h = elim (Bool-cases (c == slash)) [
  | inl e ↦ ground (arith, strip_suffix_sound (lit "/") t {p = d})
  | inr e ↦ ground arith
]

IsSlugPath-ne_nil : (c : ℕ) (d : Str) → IsDirectory (c ∷ d) → IsSlugPath (c ∷ d)
IsSlugPath-ne_nil c d v = elim v.path [ inl e ↦ absurd (cc e) | inr p ↦ p ]

pub validate_target_complete : (d : Str) → IsDirectory d → validate_target (target_of d) ≡ ok tt
unfolding validate_target target_of eq
validate_target_complete [] v = refl
validate_target_complete (c ∷ d) v = ground (
  arith,
  strip_slashes-wrap (c ∷ d),
  validate_relative_slugs_complete comment_target (c ∷ d) (IsSlugPath-ne_nil c d v),
  v.short,
)

target_parts :
    (t d : Str)
    → validate_target t ≡ ok tt
    → eq t (lit "/") ≡ false
    → strip_slashes t ≡ some d
    → (len t ≤ max_target_len)
      × (validate_relative d false validate_article_segment comment_target ≡ ok tt)
unfolding validate_target
target_parts t d h e k = ground arith

IsDirectory-of_inner :
    (t d : Str)
    → len t ≤ max_target_len
    → validate_relative d false validate_article_segment comment_target ≡ ok tt
    → t ≡ lit "/" ++ d ++ lit "/"
    → IsDirectory d × (t ≡ target_of d)
unfolding target_of
IsDirectory-of_inner t [] short h e = absurd (unfold validate_relative in cc h)
IsDirectory-of_inner t (c ∷ d) short h e = (
  record {
    path = inr (validate_relative_slugs_sound comment_target (c ∷ d) h);
    short = subst (λ s. len s ≤ max_target_len) e short;
  },
  e,
)

-- A target is accepted only if it is the target of a directory.
pub validate_target_sound :
    (t : Str) → validate_target t ≡ ok tt → (d : Str) × IsDirectory d × (t ≡ target_of d)
validate_target_sound t h = elim (Bool-cases (eq t (lit "/"))) [
  | inl e ↦ (
    [],
    unfold target_of in record { path = inl refl; short = omega arith },
    unfold target_of in (eq_iff t (lit "/")).0 e,
  )
  | inr e ↦ elim (Option-cases (strip_slashes t)) [
    | inl n ↦ absurd (unfold validate_target in ground arith)
    | inr (d, k) ↦
        let (short, inner) = target_parts t d h e k in
        let (v, is) = IsDirectory-of_inner t d short inner (strip_slashes_sound t d k) in (d, v, is)
  ]
]

-- The scope of a directory, written out.
unfoldable pub scope_of : Str → ContentScope
scope_of d = record {
  directory_rel = d;
  target = target_of d;
  comment_rel = if is_empty d then lit "comment" else d ++ lit "/comment";
  proc_rel = proc_of d;
  stat_rel = proc_of d ++ lit "/stat";
}

pub from_directory_rel_complete : (d : Str) → IsDirectory d → from_directory_rel d ≡ ok (scope_of d)
unfolding from_directory_rel Attachment.from_directory_rel scope_of
from_directory_rel_complete [] v = ground (arith, validate_target_complete [] v)
from_directory_rel_complete (c ∷ d) v = ground (
  arith,
  validate_target_complete (c ∷ d) v,
  validate_relative_slugs_complete comment_directory (c ∷ d) (IsSlugPath-ne_nil c d v),
)

target_of-injective : (d e : Str) → target_of d ≡ target_of e → d ≡ e
unfolding target_of
target_of-injective [] [] h = refl
target_of-injective [] (c ∷ e) h = ground arith
target_of-injective (c ∷ d) [] h = ground arith
target_of-injective (c ∷ d) (b ∷ e) h =
    cc (strip_slashes-wrap (c ∷ d), ap strip_slashes h, strip_slashes-wrap (b ∷ e))

root_target : eq (target_of []) (lit "/") ≡ true
unfolding target_of eq
root_target = refl

nested_target : (c : ℕ) (d : Str) → eq (target_of (c ∷ d)) (lit "/") ≡ false
unfolding target_of eq
nested_target c d = refl

pub nested_target_is : (c : ℕ) (d : Str) → target_of (c ∷ d) ≡ lit "/" ++ (c ∷ d) ++ lit "/"
unfolding target_of
nested_target_is c d = refl

from_target_complete : (d : Str) → IsDirectory d → from_target (target_of d) ≡ ok (scope_of d)
unfolding from_target
from_target_complete [] v =
    ground (arith, validate_target_complete [] v, from_directory_rel_complete [] v, root_target)
from_target_complete (c ∷ d) v = ground (
  arith,
  validate_target_complete (c ∷ d) v,
  from_directory_rel_complete (c ∷ d) v,
  nested_target c d,
  ap strip_slashes (nested_target_is c d),
  strip_slashes-wrap (c ∷ d),
)

from_target-checked :
    (t : Str) (s : ContentScope) → from_target t ≡ ok s → validate_target t ≡ ok tt
unfolding from_target
from_target-checked t s h = ground arith

-- A target yields a scope exactly if it is the target of a directory (the root, or a path of slugs,
-- with at most 200 bytes of target), and then it yields the scope of that directory.
pub from_target_exact :
    (t : Str) (s : ContentScope)
    → (from_target t ≡ ok s) ↔ ((d : Str) × IsDirectory d × (t ≡ target_of d) × (s ≡ scope_of d))
from_target_exact t s = (
  λ h.
      let (d, v, e) = validate_target_sound t (from_target-checked t s h) in
      (d, v, e, cc (ap from_target e, from_target_complete d v)),
  λ w. let (d, v, e, k) = w in rw (e, k) (from_target_complete d v),
)

from_directory_rel-checked :
    (d : Str) (s : ContentScope)
    → from_directory_rel d ≡ ok s
    → ((d ≡ []) ⊎ (validate_relative d false validate_article_segment comment_directory ≡ ok tt))
      × (validate_target (target_of d) ≡ ok tt)
unfolding from_directory_rel Attachment.from_directory_rel
from_directory_rel-checked [] s h = (inl refl, ground arith)
from_directory_rel-checked (c ∷ d) s h = (inr (ground arith), ground arith)

target_short :
    (d : Str) → validate_target (target_of d) ≡ ok tt → len (target_of d) ≤ max_target_len
target_short d h =
    let (e, v, k) = validate_target_sound (target_of d) h in
    subst (λ s. len s ≤ max_target_len) (sym k) v.short

-- A configured directory yields a scope exactly if it is the root or a path of slugs whose target
-- has at most 200 bytes; then `from_target` gives the same scope back from its target.
pub from_directory_rel_exact :
    (d : Str) (s : ContentScope)
    → (from_directory_rel d ≡ ok s)
      ↔ (IsDirectory d × (s ≡ scope_of d) × (from_target s.target ≡ ok s))
from_directory_rel_exact d s = (
  λ h.
      let is : s ≡ scope_of d = cc (h, from_directory_rel_complete d (valid h)) in
      (
        valid h,
        is,
        subst (λ r. from_target r.target ≡ ok r) (sym is)
            (unfold scope_of in from_target_complete d (valid h)),
      ),
  λ w. rw w.1 (from_directory_rel_complete d w.0),
)
  where
    valid : from_directory_rel d ≡ ok s → IsDirectory d
    valid h =
        let (path, target) = from_directory_rel-checked d s h in
        record {
          path = elim path [
            | inl e ↦ inl e
            | inr p ↦ inr (validate_relative_slugs_sound comment_directory d p)
          ];
          short = target_short d target;
        }

pub target-scope_of : (d : Str) → (scope_of d).target ≡ target_of d
unfolding scope_of
target-scope_of d = refl
