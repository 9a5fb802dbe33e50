-- ===== src/ContentBuild/Wrap/Bounds.antt =====
-- The lines of `wrap_segments` of crates/tools/content-build/src/ansi.rs fit into the width.
use termblog.Prelude.{
  ℕ, suc, ◌+◌, ◌-◌, ◌≤◌, ◌≡◌, ◌≢◌, refl, ap, sym, ◌∙◌, subst, inl, inr, false, not, ◌&&◌, ◌||◌,
  List, [], ◌∷◌, ◌++◌, none, some, take, drop, length, is_empty, take-append-drop, All, All-append,
  arith, Bool-cases, Option-cases, ==_iff,
}
use termblog.ContentBuild.Wrap.{
  Atom, Wrap, is_wide, total, last_is_wide, hard_cut, cut_at, break_line,
}
use termblog.ContentBuild.Wrap.Breaks.{GoodBreak, recompute_from-GoodBreak, total-append}

drop-length : (xs : List Atom) → drop (length xs) xs ≡ []
drop-length [] = refl
drop-length (x ∷ xs) = drop-length xs

pub not_empty : (xs : List Atom) → is_empty xs ≡ false → length xs - 1 + 1 ≡ length xs
not_empty [] h = absurd (cc h)
not_empty (x ∷ xs) h = omega arith

module _ (width_of : ℕ → ℕ) (width : ℕ) where
  -- a state within the width
  pub record IsFilled (st : Wrap) : Type 0 where
    pub width_is : st.curw ≡ total width_of st.cur
    pub fits : total width_of st.cur ≤ width
    pub break : GoodBreak width_of st.cur st.break_at
    pub lines : All (λ l. total width_of l ≤ width) st.raw_lines

  -- one that has room for an atom
  pub record HasRoom (a : Atom) (st : Wrap) : Type 0 where
    pub filled : IsFilled st
    pub room : total width_of st.cur + width_of a.c ≤ width

  pub total_nil : total width_of [] ≡ 0
  unfolding total
  total_nil = refl

  split_total :
      (n : ℕ) (xs : List Atom)
      → total width_of (take n xs) + total width_of (drop n xs) ≡ total width_of xs
  split_total n xs =
      sym (total-append width_of (take n xs) (drop n xs))
      ∙ ap (total width_of) (take-append-drop n xs)

  pub add_line :
      (lines : List (List Atom)) (l : List Atom)
      → All (λ l. total width_of l ≤ width) lines
      → total width_of l ≤ width
      → All (λ l. total width_of l ≤ width) (lines ++ (l ∷ []))
  add_line lines l h k = All-append (λ l. total width_of l ≤ width) lines (l ∷ []) h (k, tt)

  pub hard_cut-IsFilled : (st : Wrap) → IsFilled st → IsFilled (hard_cut width_of st)
  hard_cut-IsFilled st v = record {
    width_is = unfold total in refl;
    fits = unfold total in omega arith;
    break = tt;
    lines = add_line st.raw_lines st.cur v.lines v.fits;
  }

  module _ (space : width_of b' ' ≡ 1) (narrow : (c : ℕ) → width_of c ≤ 2)
      (enough : 2 ≤ width) where
    cut_at-IsFilled : (n : ℕ) (st : Wrap) → IsFilled st → IsFilled (cut_at width_of n st)
    cut_at-IsFilled n st v =
        let parts = split_total (n + 1) st.cur in
        record {
          width_is = refl;
          fits = omega (arith, parts, v.fits);
          break = recompute_from-GoodBreak width_of space [] (drop (n + 1) st.cur) none tt;
          lines =
              add_line st.raw_lines (take (n + 1) st.cur) v.lines (omega (arith, parts, v.fits));
        }

    hard_cut-HasRoom : (a : Atom) (st : Wrap) → IsFilled st → HasRoom a (hard_cut width_of st)
    hard_cut-HasRoom a st v = record {
      filled = hard_cut-IsFilled st v;
      room = unfold total in omega (arith, narrow a.c, enough);
    }

    at_boundary-HasRoom :
        (a : Atom) (st : Wrap)
        → IsFilled st
        → is_empty st.cur ≡ false
        → HasRoom a (cut_at width_of (length st.cur - 1) st)
    at_boundary-HasRoom a st v ne = record {
      filled = cut_at-IsFilled (length st.cur - 1) st v;
      room =
          let nothing =
            ap (λ n. total width_of (drop n st.cur)) (not_empty st.cur ne)
            ∙ ap (total width_of) (drop-length st.cur) in
          let zero_ : total width_of [] ≡ 0 = total_nil in
          omega (arith, nothing, zero_, narrow a.c, enough);
    }

    some_kept :
        (cur : List Atom) (bp : ℕ)
        → last_is_wide width_of cur ≡ false
        → GoodBreak width_of cur (some bp)
        → 1 ≤ total width_of (take (bp + 1) cur)
    some_kept cur bp nl (h, inl w) = absurd (cc (nl, w))
    some_kept cur bp nl (h, inr t) =
        omega
          (arith, t, ap (λ n. total width_of (take n cur)) {x = suc bp} {y = bp + 1} (omega arith))

    not_two : (a : Atom) → is_wide width_of a ≡ false → width_of a.c ≢ 2
    not_two a na e = cc (na, (==_iff (width_of a.c) 2).1 e)

    at_break-HasRoom :
        (a : Atom) (st : Wrap) (bp : ℕ)
        → IsFilled st
        → st.break_at ≡ some bp
        → last_is_wide width_of st.cur ≡ false
        → is_wide width_of a ≡ false
        → HasRoom a (cut_at width_of bp st)
    at_break-HasRoom a st bp v e nl na = record {
      filled = cut_at-IsFilled bp st v;
      room =
          let good : GoodBreak width_of st.cur (some bp) =
            subst (GoodBreak width_of st.cur) e v.break in
          let kept = some_kept st.cur bp nl good in
          let parts = split_total (bp + 1) st.cur in
          omega (arith, kept, parts, v.fits, narrow a.c, not_two a na);
    }

    pub break_line-HasRoom :
        (a : Atom) (st : Wrap)
        → IsFilled st
        → is_empty st.cur ≡ false
        → HasRoom a (break_line width_of a st)
    unfolding break_line
    break_line-HasRoom a st v ne =
        elim (Bool-cases
          (last_is_wide width_of st.cur || is_wide width_of a && not (is_empty st.cur))) [
            | inl b ↦ rw b (at_boundary-HasRoom a st v ne)
            | inr b ↦ elim (Option-cases st.break_at) [
              | inl n ↦ subst (HasRoom a) (ground (arith, b, n)) (hard_cut-HasRoom a st v)
              | inr (bp, n) ↦
                  subst (HasRoom a) (ground (arith, b, n))
                    (at_break-HasRoom a st bp v n (ground (arith, b)) (ground (arith, b, ne)))
            ]
          ]
