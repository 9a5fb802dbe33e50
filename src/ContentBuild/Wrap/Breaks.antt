-- ===== src/ContentBuild/Wrap/Breaks.antt =====
-- Where `wrap_segments` of crates/tools/content-build/src/ansi.rs may break a line.
use termblog.Prelude.{
  ℕ, zero, suc, ◌+◌, ◌≤◌, ◌<◌, ◌≡◌, refl, ap, sym, ◌∙◌, subst, ◌⊎◌, inl, inr, true, false, ◌||◌,
  ◌==◌, if◌then◌else◌, List, [], ◌∷◌, ◌++◌, Option, none, some, take, length, length-append, arith,
  Bool-cases, ==_iff,
}
use mathlib.Core.List.{append_assoc, append-nil}
use termblog.ContentBuild.Wrap.{Atom, is_wide, total, next_is_wide, recompute_from, last_is_wide}

pub take-append-le : (n : ℕ) (xs ys : List Atom) → n ≤ length xs → take n (xs ++ ys) ≡ take n xs
take-append-le zero xs ys h = refl
take-append-le (suc n) [] ys h = absurd (omega (arith, h))
take-append-le (suc n) (x ∷ xs) ys h = ap (◌∷◌ x) (take-append-le n xs ys (omega (arith, h)))

pub take-length : (xs : List Atom) → take (length xs) xs ≡ xs
take-length [] = refl
take-length (x ∷ xs) = ap (◌∷◌ x) (take-length xs)

module _ (width_of : ℕ → ℕ) where
  pub total-append :
      (xs ys : List Atom) → total width_of (xs ++ ys) ≡ total width_of xs + total width_of ys
  unfolding total
  total-append [] ys = omega arith
  total-append (x ∷ xs) ys = omega (arith, total-append xs ys)

  pub last_is_wide-append :
      (xs : List Atom) (a : Atom) → last_is_wide width_of (xs ++ (a ∷ [])) ≡ is_wide width_of a
  last_is_wide-append [] a = refl
  last_is_wide-append (x ∷ []) a = refl
  last_is_wide-append (x ∷ y ∷ xs) a = last_is_wide-append (y ∷ xs) a

  -- A break is within the line, and has some width before it unless a wide atom ends the line.
  abbrev pub GoodBreak : List Atom → Option ℕ → Type 0
  GoodBreak cur none = Unit
  GoodBreak cur (some b) =
      (b < length cur)
      × ((last_is_wide width_of cur ≡ true) ⊎ (1 ≤ total width_of (take (suc b) cur)))

  -- the same in the middle of `recompute_break`
  abbrev pub SoFar : List Atom → List Atom → Option ℕ → Type 0
  SoFar pre rest none = Unit
  SoFar pre rest (some b) =
      (b < length pre)
      × ((next_is_wide width_of rest ≡ true) ⊎ (1 ≤ total width_of (take (suc b) pre)))

  -- a break right behind an atom that has some width
  pub here :
      (pre : List Atom) (a : Atom)
      → 1 ≤ width_of a.c
      → (length pre < length (pre ++ (a ∷ [])))
        × (1 ≤ total width_of (take (suc (length pre)) (pre ++ (a ∷ []))))
  unfolding total
  here pre a h =
      let size = length-append pre (a ∷ []) in
      let whole : take (suc (length pre)) (pre ++ (a ∷ [])) ≡ pre ++ (a ∷ []) =
        ap (λ n. take n (pre ++ (a ∷ []))) {x = suc (length pre)} {y = length (pre ++ (a ∷ []))}
          (omega (arith, size))
        ∙ take-length (pre ++ (a ∷ [])) in
      (omega (arith, size), omega (arith, ap (total width_of) whole, total-append pre (a ∷ []), h))

  pub before :
      (pre : List Atom) (a : Atom) (b : ℕ)
      → b < length pre
      → 1 ≤ total width_of (take (suc b) pre)
      → (b < length (pre ++ (a ∷ []))) × (1 ≤ total width_of (take (suc b) (pre ++ (a ∷ []))))
  before pre a b h k = (
    omega (arith, h, length-append pre (a ∷ [])),
    omega (arith, k, ap (total width_of) (take-append-le (suc b) pre (a ∷ []) (omega (arith, h)))),
  )

  module _ (space : width_of b' ' ≡ 1) where
    pub space_width : (a : Atom) → (a.c == b' ') ≡ true → 1 ≤ width_of a.c
    space_width a e = omega (arith, space, ap width_of ((==_iff a.c b' ').0 e))

    pub wide_width : (a : Atom) → is_wide width_of a ≡ true → 1 ≤ width_of a.c
    wide_width a e = omega (arith, (==_iff (width_of a.c) 2).0 e)

    -- one atom at the end of the line
    end_of_line :
        (pre : List Atom) (a : Atom) (o : Option ℕ)
        → SoFar pre (a ∷ []) o
        → GoodBreak (pre ++ (a ∷ [])) (recompute_from width_of (length pre) (a ∷ []) o)
    unfolding recompute_from
    end_of_line pre a o h = elim (Bool-cases (a.c == b' ')) [
      | inl e ↦ let (p, q) = here pre a (space_width a e) in rw e (p, inr q)
      | inr e ↦ rw e (kept o h)
    ]
      where
        kept : (o : Option ℕ) → SoFar pre (a ∷ []) o → GoodBreak (pre ++ (a ∷ [])) o
        kept none h = tt
        kept (some b) (h, inl w) =
            (omega (arith, h, length-append pre (a ∷ [])), inl (last_is_wide-append pre a ∙ w))
        kept (some b) (h, inr t) = let (p, q) = before pre a b h t in (p, inr q)

    -- one atom with another behind it
    SoFar-next :
        (pre : List Atom) (a d : Atom) (l : List Atom) (o : Option ℕ)
        → SoFar pre (a ∷ d ∷ l) o
        → SoFar (pre ++ (a ∷ [])) (d ∷ l) (
            if a.c == b' ' || (is_wide width_of a || is_wide width_of d)
            then some (length pre)
            else o)
    SoFar-next pre a d l o h = elim (Bool-cases (a.c == b' ')) [
      | inl e ↦ let (p, q) = here pre a (space_width a e) in rw e (p, inr q)
      | inr e ↦ elim (Bool-cases (is_wide width_of a)) [
        | inl w ↦ let (p, q) = here pre a (wide_width a w) in rw (e, w) (p, inr q)
        | inr w ↦ elim (Bool-cases (is_wide width_of d)) [
          | inl v ↦ rw (e, w, v) (omega (arith, length-append pre (a ∷ [])), inl v)
          | inr v ↦ rw (e, w, v) (kept w o h)
        ]
      ]
    ]
      where
        kept :
            is_wide width_of a ≡ false
            → (o : Option ℕ) → SoFar pre (a ∷ d ∷ l) o
            → SoFar (pre ++ (a ∷ [])) (d ∷ l) o
        kept w none h = tt
        kept w (some b) (h, inl u) = absurd (cc (w, u))
        kept w (some b) (h, inr t) = let (p, q) = before pre a b h t in (p, inr q)

    nothing_left : (pre : List Atom) (o : Option ℕ) → SoFar pre [] o → GoodBreak pre o
    nothing_left pre none h = tt
    nothing_left pre (some b) (h, inl w) = absurd (cc w)
    nothing_left pre (some b) (h, inr t) = (h, inr t)

    move_on :
        (pre : List Atom) (a d : Atom) (l : List Atom) (o : Option ℕ)
        → GoodBreak ((pre ++ (a ∷ [])) ++ (d ∷ l)) (
            recompute_from width_of (length (pre ++ (a ∷ []))) (d ∷ l) (
              if a.c == b' ' || (is_wide width_of a || is_wide width_of d)
              then some (length pre)
              else o))
        → GoodBreak (pre ++ (a ∷ d ∷ l)) (recompute_from width_of (length pre) (a ∷ d ∷ l) o)
    unfolding recompute_from
    move_on pre a d l o h =
        let size : length (pre ++ (a ∷ [])) ≡ length pre + 1 = length-append pre (a ∷ []) in
        let one =
          subst
            (λ n. GoodBreak ((pre ++ (a ∷ [])) ++ (d ∷ l)) (
              recompute_from width_of n (d ∷ l) (
                if a.c == b' ' || (is_wide width_of a || is_wide width_of d)
                then some (length pre)
                else o)))
            size h in
        subst (λ x. GoodBreak x (recompute_from width_of (length pre) (a ∷ d ∷ l) o))
          (append_assoc pre (a ∷ []) (d ∷ l)) one

    pub recompute_from-GoodBreak :
        (pre rest : List Atom) (o : Option ℕ)
        → SoFar pre rest o
        → GoodBreak (pre ++ rest) (recompute_from width_of (length pre) rest o)
    unfolding recompute_from
    recompute_from-GoodBreak pre [] o h =
        subst (λ l. GoodBreak l o) (sym (append-nil pre)) (nothing_left pre o h)
    recompute_from-GoodBreak pre (a ∷ []) o h = end_of_line pre a o h
    recompute_from-GoodBreak pre (a ∷ d ∷ l) o h = move_on pre a d l o (
        recompute_from-GoodBreak (pre ++ (a ∷ [])) (d ∷ l)
          (if a.c == b' ' || (is_wide width_of a || is_wide width_of d)
            then some (length pre)
            else o)
          (SoFar-next pre a d l o h))
