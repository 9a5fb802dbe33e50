-- ===== src/Statd/Validate/Sorting.antt =====
-- Sorted texts and targets have the elements of the unsorted ones
-- (crates/servers/statd/src/store.rs).
use termblog.Prelude.{
  suc, ◌≡◌, refl, ap, sym, ◌∙◌, inl, inr, Bool, false, ◌&&◌, ◌||◌, List, [], ◌∷◌, map, all, length,
  All, arith, Bool-cases,
}
use termblog.Prelude.Text.{Str, eq}
use termblog.Prelude.Text.Splitting.{eq→≡, eq_refl}
use termblog.Prelude.Text.Order.{le}
use termblog.ContentModel.Manifest.{seen}
use termblog.ContentModel.Manifest.Sound.{Distinct}
use termblog.Statd.Protocol.{SnapshotTargetRequest}
use termblog.Statd.Validate.{insert_key, sort_keys, insert_target, sort_targets}

seen-insert_key : (y x : Str) (xs : List Str) → seen y (insert_key x xs) ≡ (eq y x || seen y xs)
unfolding insert_key
seen-insert_key y x [] = ground arith
seen-insert_key y x (z ∷ xs) = ground (arith, seen-insert_key y x xs)

pub seen-sort_keys : (y : Str) (xs : List Str) → seen y (sort_keys xs) ≡ seen y xs
unfolding sort_keys
seen-sort_keys y [] = refl
seen-sort_keys y (x ∷ xs) = seen-insert_key y x (sort_keys xs) ∙ ground (arith, seen-sort_keys y xs)

all-insert_key :
    (p : Str → Bool) (x : Str) (xs : List Str) → all p (insert_key x xs) ≡ (p x && all p xs)
unfolding insert_key
all-insert_key p x [] = ground arith
all-insert_key p x (z ∷ xs) = ground (arith, all-insert_key p x xs)

pub all-sort_keys : (p : Str → Bool) (xs : List Str) → all p (sort_keys xs) ≡ all p xs
unfolding sort_keys
all-sort_keys p [] = refl
all-sort_keys p (x ∷ xs) = all-insert_key p x (sort_keys xs) ∙ ground (arith, all-sort_keys p xs)

pub eq_sym : (s t : Str) → eq s t ≡ eq t s
eq_sym s t = elim (Bool-cases (eq s t)) [
  | inl e ↦ e ∙ sym (ap (eq t) (eq→≡ s t e) ∙ eq_refl t)
  | inr e ↦ elim (Bool-cases (eq t s)) [
    | inl f ↦ absurd (cc (e, eq→≡ t s f, eq_refl s))
    | inr f ↦ e ∙ sym f
  ]
]

Distinct-insert_key :
    (x : Str) (xs : List Str) → seen x xs ≡ false → Distinct xs → Distinct (insert_key x xs)
unfolding insert_key
Distinct-insert_key x [] h d = (refl, tt)
Distinct-insert_key x (z ∷ xs) h d =
    let front = eq_sym x z in
    let z_new = seen-insert_key z x xs in
    elim (Bool-cases (le x z)) [
      | inl e ↦ rw e (h, d)
      | inr e ↦
          rw e
            (ground (arith, h, d.0, front, z_new), Distinct-insert_key x xs (ground (arith, h)) d.1)
    ]

pub Distinct-sort_keys : (xs : List Str) → Distinct xs → Distinct (sort_keys xs)
unfolding sort_keys
Distinct-sort_keys [] d = tt
Distinct-sort_keys (x ∷ xs) d =
    Distinct-insert_key x (sort_keys xs) (seen-sort_keys x xs ∙ d.0) (Distinct-sort_keys xs d.1)

abbrev pub names : List SnapshotTargetRequest → List Str
names rs = map (λ (r : SnapshotTargetRequest). r.target) rs

seen-insert_target :
    (y : Str) (x : SnapshotTargetRequest) (xs : List SnapshotTargetRequest)
    → seen y (names (insert_target x xs)) ≡ (eq y x.target || seen y (names xs))
unfolding insert_target
seen-insert_target y x [] = ground arith
seen-insert_target y x (z ∷ xs) = ground (arith, seen-insert_target y x xs)

pub seen-sort_targets :
    (y : Str) (xs : List SnapshotTargetRequest)
    → seen y (names (sort_targets xs)) ≡ seen y (names xs)
unfolding sort_targets
seen-sort_targets y [] = refl
seen-sort_targets y (x ∷ xs) =
    seen-insert_target y x (sort_targets xs) ∙ ground (arith, seen-sort_targets y xs)

Distinct-insert_target :
    (x : SnapshotTargetRequest) (xs : List SnapshotTargetRequest)
    → seen x.target (names xs) ≡ false
    → Distinct (names xs)
    → Distinct (names (insert_target x xs))
unfolding insert_target
Distinct-insert_target x [] h d = (refl, tt)
Distinct-insert_target x (z ∷ xs) h d =
    let front = eq_sym x.target z.target in
    let z_new = seen-insert_target z.target x xs in
    elim (Bool-cases (le x.target z.target)) [
      | inl e ↦ rw e (h, d)
      | inr e ↦ rw e (
        ground (arith, h, d.0, front, z_new),
        Distinct-insert_target x xs (ground (arith, h)) d.1,
      )
    ]

pub Distinct-sort_targets :
    (xs : List SnapshotTargetRequest) → Distinct (names xs) → Distinct (names (sort_targets xs))
unfolding sort_targets
Distinct-sort_targets [] d = tt
Distinct-sort_targets (x ∷ xs) d =
    Distinct-insert_target x (sort_targets xs) (seen-sort_targets x.target xs ∙ d.0)
      (Distinct-sort_targets xs d.1)

length-insert_target :
    (x : SnapshotTargetRequest) (xs : List SnapshotTargetRequest)
    → length (insert_target x xs) ≡ suc (length xs)
unfolding insert_target
length-insert_target x [] = refl
length-insert_target x (z ∷ xs) = ground (arith, length-insert_target x xs)

pub length-sort_targets : (xs : List SnapshotTargetRequest) → length (sort_targets xs) ≡ length xs
unfolding sort_targets
length-sort_targets [] = refl
length-sort_targets (x ∷ xs) =
    length-insert_target x (sort_targets xs) ∙ ap suc (length-sort_targets xs)

module _ (P : SnapshotTargetRequest → Type 0) where
  All-insert_target :
      (x : SnapshotTargetRequest) (xs : List SnapshotTargetRequest)
      → P x
      → All P xs
      → All P (insert_target x xs)
  unfolding insert_target
  All-insert_target x [] p h = (p, tt)
  All-insert_target x (z ∷ xs) p h = elim (Bool-cases (le x.target z.target)) [
    | inl e ↦ rw e (p, h)
    | inr e ↦ rw e (h.0, All-insert_target x xs p h.1)
  ]

  pub All-sort_targets : (xs : List SnapshotTargetRequest) → All P xs → All P (sort_targets xs)
  unfolding sort_targets
  All-sort_targets [] h = tt
  All-sort_targets (x ∷ xs) h = All-insert_target x (sort_targets xs) h.0 (All-sort_targets xs h.1)
