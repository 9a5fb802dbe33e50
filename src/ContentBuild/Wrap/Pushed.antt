-- ===== src/ContentBuild/Wrap/Pushed.antt =====
-- The breaks that `wrap_segments` of crates/tools/content-build/src/ansi.rs records stay within the line.
use termblog.Prelude.{
  ℕ, suc, ◌-◌, ◌≤◌, ◌≡◌, ap, ◌∙◌, ◌⊎◌, inl, inr, true, false, ◌==◌, List, [], ◌∷◌, ◌++◌, Option,
  none, some, take, length, is_empty, length-append, arith, Bool-cases,
}
use termblog.ContentBuild.Wrap.{Atom, Wrap, is_wide, total, last_is_wide, push_atom}
use termblog.ContentBuild.Wrap.Breaks.{
  GoodBreak, take-append-le, take-length, last_is_wide-append, here, before, space_width,
  wide_width,
}
use termblog.ContentBuild.Wrap.Bounds.{not_empty}

module _ (width_of : ℕ → ℕ) (space : width_of b' ' ≡ 1) where
  pub total_one : (a : Atom) → total width_of (a ∷ []) ≡ width_of a.c
  unfolding total
  total_one a = omega arith

  -- a line that a wide atom ends has some width
  wide_last : (cur : List Atom) → last_is_wide width_of cur ≡ true → 1 ≤ total width_of cur
  unfolding total
  wide_last [] w = absurd (cc w)
  wide_last (x ∷ []) w = omega (arith, wide_width width_of space x w)
  wide_last (x ∷ y ∷ cur) w = omega (arith, wide_last (y ∷ cur) w)

  pub push_atom-GoodBreak :
      (a : Atom) (st : Wrap)
      → GoodBreak width_of st.cur st.break_at
      → GoodBreak width_of (st.cur ++ (a ∷ [])) (push_atom width_of a st).break_at
  unfolding push_atom
  push_atom-GoodBreak a st g = elim (Bool-cases (a.c == b' ')) [
    | inl e ↦
        let (p, q) = here width_of st.cur a (space_width width_of space a e) in rw e (p, inr q)
    | inr e ↦ elim (Bool-cases (is_empty st.cur)) [
      | inl n ↦ rw (e, n) (first st.cur st.break_at n g)
      | inr n ↦ elim (Bool-cases (last_is_wide width_of st.cur)) [
        | inl w ↦ rw (e, n, w) (in_front n (inr (wide_last st.cur w)))
        | inr w ↦ elim (Bool-cases (is_wide width_of a)) [
          | inl u ↦ rw (e, n, w, u) (in_front n (inl (last_is_wide-append width_of st.cur a ∙ u)))
          | inr u ↦ rw (e, n, w, u) (kept w st.break_at g)
        ]
      ]
    ]
  ]
    where
      kept :
          last_is_wide width_of st.cur ≡ false
          → (o : Option ℕ) → GoodBreak width_of st.cur o
          → GoodBreak width_of (st.cur ++ (a ∷ [])) o
      kept w none h = tt
      kept w (some b) (h, inl u) = absurd (cc (w, u))
      kept w (some b) (h, inr t) = let (p, q) = before width_of st.cur a b h t in (p, inr q)

      first :
          (cur : List Atom) (o : Option ℕ)
          → is_empty cur ≡ true
          → GoodBreak width_of cur o
          → GoodBreak width_of (cur ++ (a ∷ [])) o
      first cur none n h = tt
      first [] (some b) n h = absurd (omega (arith, h.0))
      first (x ∷ cur) (some b) n h = absurd (cc n)

      in_front :
          is_empty st.cur ≡ false
          → (last_is_wide width_of (st.cur ++ (a ∷ [])) ≡ true) ⊎ (1 ≤ total width_of st.cur)
          → GoodBreak width_of (st.cur ++ (a ∷ [])) (some (length st.cur - 1))
      in_front n (inl w) = (omega (arith, not_empty st.cur n, length-append st.cur (a ∷ [])), inl w)
      in_front n (inr t) = (
        omega (arith, not_empty st.cur n, length-append st.cur (a ∷ [])),
        inr (
            omega (
              arith,
              t,
              ap (total width_of) (
                  ap (λ n. take n (st.cur ++ (a ∷ []))) {x = suc (length st.cur - 1)}
                    {y = length st.cur} (omega (arith, not_empty st.cur n))
                  ∙ take-append-le (length st.cur) st.cur (a ∷ []) (omega arith)
                  ∙ take-length st.cur),
            )),
      )
