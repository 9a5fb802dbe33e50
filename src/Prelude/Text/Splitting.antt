-- ===== src/Prelude/Text/Splitting.antt =====
-- Cutting a text at a character, and putting the pieces together again.
use termblog.Prelude.Tests.{◌==◌, Bool-cases, Option-cases, ==_iff}
use termblog.Prelude.Lists.{All, length, length-append}
use Prim.Native.Nat.{ℕ}
use mathlib.Core.Path.{◌≡◌, refl, ap, sym, ◌∙◌}
use mathlib.Core.Logic.{◌≢◌, ◌↔◌, inl, inr}
use mathlib.Core.Bool.{true, false}
use mathlib.Core.List.{List, [], ◌∷◌, ◌++◌}
use mathlib.Core.Option.{none, some}
use native.Mathlib.Omega.{arith}
use termblog.Prelude.Text.{
  Str, eq, split, push_front, strip_suffix, rsplit_once, split_once, contains,
}

pub eq_refl : (s : Str) → eq s s ≡ true
unfolding eq
eq_refl [] = refl
eq_refl (c ∷ s) = ground (arith, eq_refl s)

pub eq→≡ : (s t : Str) → eq s t ≡ true → s ≡ t
unfolding eq
eq→≡ [] [] h = refl
eq→≡ [] (d ∷ t) h = cc
eq→≡ (c ∷ s) [] h = cc
eq→≡ (c ∷ s) (d ∷ t) h = ground (arith, eq→≡ s t)

pub eq_iff : (s t : Str) → (eq s t ≡ true) ↔ (s ≡ t)
eq_iff s t = (eq→≡ s t, λ e. rw e (eq_refl t))

-- The pieces with the separator between them.
abbrev pub join : ℕ → List Str → Str
join c [] = []
join c (s ∷ []) = s
join c (s ∷ t ∷ ss) = s ++ (c ∷ join c (t ∷ ss))

join-push_front : (c d : ℕ) (ss : List Str) → join c (push_front d ss) ≡ d ∷ join c ss
join-push_front c d [] = refl
join-push_front c d (s ∷ []) = refl
join-push_front c d (s ∷ t ∷ ss) = refl

pub split-ne-nil : (c : ℕ) (s : Str) → split c s ≢ []
unfolding split
split-ne-nil c [] h = cc
split-ne-nil c (d ∷ s) h = push (split c s) (ground arith)
  where
    push : (ss : List Str) → push_front d ss ≢ []
    push [] e = cc
    push (t ∷ ss) e = cc

join-nil_cons : (c : ℕ) (ss : List Str) → ss ≢ [] → join c ([] ∷ ss) ≡ c ∷ join c ss
join-nil_cons c [] h = absurd (h refl)
join-nil_cons c (s ∷ ss) h = refl

pub join-split : (c : ℕ) (s : Str) → join c (split c s) ≡ s
unfolding split
join-split c [] = refl
join-split c (d ∷ s) = elim (Bool-cases (d == c)) [
  | inl e ↦
      rw (e, split)
        (join-nil_cons c (split c s) (split-ne-nil c s)
          ∙ ap (◌∷◌ c) (join-split c s)
          ∙ ap (λ x. x ∷ s) (sym ((==_iff d c).0 e)))
  | inr e ↦ rw (e, split) (join-push_front c d (split c s) ∙ ap (◌∷◌ d) (join-split c s))
]

-- A text with no separator is its only piece.
pub split_whole : (c : ℕ) (s : Str) → contains c s ≡ false → split c s ≡ s ∷ []
unfolding split
split_whole c [] h = refl
split_whole c (d ∷ s) h = ground (arith, split_whole c s)

-- The first piece ends at the first separator.
pub split_first :
    (c : ℕ) (s t : Str) → contains c s ≡ false → split c (s ++ (c ∷ t)) ≡ s ∷ split c t
unfolding split
split_first c [] t h = ground arith
split_first c (d ∷ s) t h = ground (arith, split_first c s t)

abbrev pub IsPiece : ℕ → Str → Type 0
IsPiece c s = contains c s ≡ false

pub split-join : (c : ℕ) (ss : List Str) → All (IsPiece c) ss → ss ≢ [] → split c (join c ss) ≡ ss
split-join c [] h ne = absurd (ne refl)
split-join c (s ∷ []) h ne = split_whole c s h.0
split-join c (s ∷ t ∷ ss) h ne =
    split_first c s (join c (t ∷ ss)) h.0 ∙ ap (◌∷◌ s) (split-join c (t ∷ ss) h.1 (λ e. cc))

All-push_front :
    (c d : ℕ) (ss : List Str)
    → (d == c) ≡ false
    → All (IsPiece c) ss
    → All (IsPiece c) (push_front d ss)
All-push_front c d [] e h = (rw e, tt)
All-push_front c d (s ∷ ss) e h = (rw e h.0, h.1)

pub split-All-IsPiece : (c : ℕ) (s : Str) → All (IsPiece c) (split c s)
unfolding split
split-All-IsPiece c [] = (refl, tt)
split-All-IsPiece c (d ∷ s) = elim (Bool-cases (d == c)) [
  | inl e ↦ rw (e, split) (refl, split-All-IsPiece c s)
  | inr e ↦ rw (e, split) (All-push_front c d (split c s) e (split-All-IsPiece c s))
]

pub contains-append :
    (c : ℕ) (s t : Str) → contains c s ≡ false → contains c t ≡ false → contains c (s ++ t) ≡ false
contains-append c [] t h k = k
contains-append c (d ∷ s) t h k = ground (arith, contains-append c s t)

-- `strip_suffix` answers exactly the front of a text that ends in the suffix.
pub strip_suffix_sound :
    (suffix s : Str) {p : Str} → strip_suffix suffix s ≡ some p → s ≡ p ++ suffix
unfolding strip_suffix
strip_suffix_sound suffix [] h = ground (arith, eq_iff [] suffix)
strip_suffix_sound suffix (c ∷ s) {p} h = elim (Bool-cases (eq (c ∷ s) suffix)) [
  | inl e ↦ ground (arith, eq→≡ (c ∷ s) suffix e)
  | inr e ↦ elim (Option-cases (strip_suffix suffix s)) [
    | inl n ↦ ground arith
    | inr (q, k) ↦ ground (arith, strip_suffix_sound suffix s k)
  ]
]

eq-longer : (p s : Str) (c : ℕ) → eq (c ∷ (p ++ s)) s ≡ false
eq-longer p s c = elim (Bool-cases (eq (c ∷ (p ++ s)) s)) [
  | inl e ↦ absurd (omega (arith, ap length (eq→≡ (c ∷ (p ++ s)) s e), length-append p s))
  | inr e ↦ e
]

pub strip_suffix-append : (p suffix : Str) → strip_suffix suffix (p ++ suffix) ≡ some p
unfolding strip_suffix
strip_suffix-append [] [] = refl
strip_suffix-append [] (c ∷ s) = rw (eq_refl (c ∷ s))
strip_suffix-append (c ∷ p) suffix = rw (eq-longer p suffix c, strip_suffix-append p suffix)

pub rsplit_once-none : (c : ℕ) (s : Str) → rsplit_once c s ≡ none → contains c s ≡ false
unfolding rsplit_once
rsplit_once-none c [] h = refl
rsplit_once-none c (d ∷ s) h = elim (Option-cases (rsplit_once c s)) [
  | inl n ↦ ground (arith, rsplit_once-none c s n)
  | inr ((a, b), k) ↦ ground arith
]

pub rsplit_once_whole : (c : ℕ) (s : Str) → contains c s ≡ false → rsplit_once c s ≡ none
unfolding rsplit_once
rsplit_once_whole c [] h = refl
rsplit_once_whole c (d ∷ s) h = ground (arith, rsplit_once_whole c s)

-- `rsplit_once` cuts at the last separator.
pub rsplit_once_sound :
    (c : ℕ) (s : Str) {a b : Str}
    → rsplit_once c s ≡ some (a, b)
    → (s ≡ a ++ (c ∷ b)) × (contains c b ≡ false)
unfolding rsplit_once
rsplit_once_sound c [] h = cc
rsplit_once_sound c (d ∷ s) h = elim (Option-cases (rsplit_once c s)) [
  | inl n ↦ ground (arith, rsplit_once-none c s n)
  | inr ((a, b), k) ↦ ground (arith, rsplit_once_sound c s k)
]

pub rsplit_once_last :
    (c : ℕ) (a b : Str) → contains c b ≡ false → rsplit_once c (a ++ (c ∷ b)) ≡ some (a, b)
unfolding rsplit_once
rsplit_once_last c [] b h = ground (arith, rsplit_once_whole c b h)
rsplit_once_last c (d ∷ a) b h = rw (rsplit_once_last c a b h, rsplit_once)

pub contains_middle : (c : ℕ) (a b : Str) → contains c (a ++ (c ∷ b)) ≡ true
contains_middle c [] b = ground arith
contains_middle c (d ∷ a) b = ground (arith, contains_middle c a b)

push_front-append :
    (d : ℕ) (xs ys : List Str) → xs ≢ [] → push_front d (xs ++ ys) ≡ push_front d xs ++ ys
push_front-append d [] ys h = absurd (h refl)
push_front-append d (x ∷ xs) ys h = refl

pub split-append : (c : ℕ) (a b : Str) → split c (a ++ (c ∷ b)) ≡ split c a ++ split c b
unfolding split
split-append c [] b = ground arith
split-append c (d ∷ a) b =
    ground
      (arith, split-append c a b, push_front-append d (split c a) (split c b) (split-ne-nil c a))

-- `split_once` cuts at a separator.
pub split_once_sound :
    (c : ℕ) (s : Str) {a b : Str} → split_once c s ≡ some (a, b) → s ≡ a ++ (c ∷ b)
unfolding split_once
split_once_sound c [] h = cc
split_once_sound c (d ∷ s) h = elim (Option-cases (split_once c s)) [
  | inl n ↦ ground arith
  | inr ((x, y), k) ↦ ground (arith, split_once_sound c s k)
]

pub split_once-none : (c : ℕ) (s : Str) → split_once c s ≡ none → contains c s ≡ false
unfolding split_once
split_once-none c [] h = refl
split_once-none c (d ∷ s) h = elim (Option-cases (split_once c s)) [
  | inl n ↦ ground (arith, split_once-none c s n)
  | inr ((x, y), k) ↦ ground arith
]

-- and at the first one
pub split_once-front :
    (c : ℕ) (s : Str) {a b : Str} → split_once c s ≡ some (a, b) → contains c a ≡ false
unfolding split_once
split_once-front c [] h = cc
split_once-front c (d ∷ s) h = elim (Option-cases (split_once c s)) [
  | inl n ↦ ground arith
  | inr ((x, y), k) ↦ ground (arith, split_once-front c s k)
]
