-- ===== src/ContentBuild/Wrap/Folded.antt =====
-- What `wrap_segments` of crates/tools/content-build/src/ansi.rs makes of a text: lines within the
-- width that have all its characters.
use termblog.Prelude.{
  ℕ, ◌+◌, ◌-◌, ◌≤◌, ◌≡◌, refl, ap, sym, ◌∙◌, inl, inr, Bool, true, false, not, ◌&&◌, ◌||◌, ltb,
  ◌==◌, List, [], ◌∷◌, ◌++◌, map, take, drop, concat, filter, length, is_empty, take-append-drop,
  All, arith, Bool-cases, Option-cases, ltb_false→le,
}
use mathlib.Core.List.{append_assoc, append-nil}
use termblog.ContentBuild.Wrap.{
  Seg, Atom, atoms, Wrap, is_wide, total, last_is_wide, hard_cut, cut_at, break_line, push_atom,
  fold_atom, fold_atoms, empty_wrap, finish_lines, wrap_atoms, wrap_segments,
}
use termblog.ContentBuild.Wrap.Pushed.{push_atom-GoodBreak, total_one}
use termblog.ContentBuild.Wrap.Merged.{lines_of-atoms, lines_of-fit}
use termblog.ContentBuild.Wrap.Breaks.{total-append}
use termblog.ContentBuild.Wrap.Bounds.{
  IsFilled, HasRoom, hard_cut-IsFilled, break_line-HasRoom, total_nil, add_line,
}

module _ (width_of : ℕ → ℕ) (width : ℕ) (space : width_of b' ' ≡ 1)
    (narrow : (c : ℕ) → width_of c ≤ 2) (enough : 2 ≤ width) where
  push_atom-IsFilled :
      (a : Atom) (st : Wrap)
      → HasRoom width_of width a st
      → IsFilled width_of width (push_atom width_of a st)
  unfolding push_atom
  push_atom-IsFilled a st h =
      let v = h.filled in
      let sum =
        total-append width_of st.cur (a ∷ [])
        ∙ ap (λ n. total width_of st.cur + n) (total_one width_of space a) in
      record {
        width_is = omega (arith, v.width_is, sum);
        fits = omega (arith, h.room, sum);
        break = push_atom-GoodBreak width_of space a st v.break;
        lines = v.lines;
      }

  no_break :
      (cur : List Atom) (curw : ℕ) (a : Atom)
      → curw ≡ total width_of cur
      → (not (is_empty cur) && ltb width (curw + width_of a.c)) ≡ false
      → total width_of cur + width_of a.c ≤ width
  no_break [] curw a w f = omega (arith, total_nil width_of width, narrow a.c, enough)
  no_break (x ∷ cur) curw a w f = omega (arith, w, ltb_false→le width (curw + width_of a.c) f)

  fold_atom-IsFilled :
      (st : Wrap) (a : Atom)
      → IsFilled width_of width st
      → IsFilled width_of width (fold_atom width_of width st a)
  unfolding fold_atom
  fold_atom-IsFilled st a v = elim (Bool-cases (a.c == b'\n')) [
    | inl e ↦ rw e (hard_cut-IsFilled width_of width st v)
    | inr e ↦ elim (Bool-cases (not (is_empty st.cur) && ltb width (st.curw + width_of a.c))) [
      | inl f ↦
          rw (e, f)
            (push_atom-IsFilled a (break_line width_of a st)
              (break_line-HasRoom width_of width space narrow enough a st v (ground (arith, f))))
      | inr f ↦
          rw (e, f)
            (push_atom-IsFilled a st
              (record { filled = v; room = no_break st.cur st.curw a v.width_is f }))
    ]
  ]

  fold_atoms-IsFilled :
      (l : List Atom) (st : Wrap)
      → IsFilled width_of width st
      → IsFilled width_of width (fold_atoms width_of width st l)
  unfolding fold_atoms
  fold_atoms-IsFilled [] st v = v
  fold_atoms-IsFilled (a ∷ l) st v =
      fold_atoms-IsFilled l (fold_atom width_of width st a) (fold_atom-IsFilled st a v)

concat-last : (ls : List (List Atom)) (l : List Atom) → concat (ls ++ (l ∷ [])) ≡ concat ls ++ l
concat-last [] l = append-nil l
concat-last (k ∷ ls) l = ap (◌++◌ k) (concat-last ls l) ∙ sym (append_assoc k (concat ls) l)

-- the atoms that a state holds
abbrev held : Wrap → List Atom
held st = concat st.raw_lines ++ st.cur

-- a character that is no line feed
abbrev pub is_shown : Atom → Bool
is_shown a = not (a.c == b'\n')

filter_front :
    (a : Atom) (l : List Atom)
    → filter is_shown (a ∷ []) ++ filter is_shown l ≡ filter is_shown (a ∷ l)
filter_front a l = ground arith

nothing : (l : List Atom) → is_empty l ≡ true → l ≡ []
nothing [] e = refl
nothing (x ∷ l) e = cc e

module _ (width_of : ℕ → ℕ) (width : ℕ) where
  hard_cut-held : (st : Wrap) → held (hard_cut width_of st) ≡ held st
  hard_cut-held st =
      append-nil (concat (st.raw_lines ++ (st.cur ∷ []))) ∙ concat-last st.raw_lines st.cur

  cut_at-held : (n : ℕ) (st : Wrap) → held (cut_at width_of n st) ≡ held st
  cut_at-held n st =
      ap (λ l. l ++ drop (n + 1) st.cur) (concat-last st.raw_lines (take (n + 1) st.cur))
      ∙ append_assoc (concat st.raw_lines) (take (n + 1) st.cur) (drop (n + 1) st.cur)
      ∙ ap (◌++◌ (concat st.raw_lines)) (take-append-drop (n + 1) st.cur)

  break_line-held : (a : Atom) (st : Wrap) → held (break_line width_of a st) ≡ held st
  unfolding break_line
  break_line-held a st =
      elim (Bool-cases
        (last_is_wide width_of st.cur || is_wide width_of a && not (is_empty st.cur))) [
          | inl b ↦ rw b (cut_at-held (length st.cur - 1) st)
          | inr b ↦ elim (Option-cases st.break_at) [
            | inl n ↦
                ap held {x = break_line width_of a st} {y = hard_cut width_of st}
                  (ground (arith, b, n))
                ∙ hard_cut-held st
            | inr (bp, n) ↦
                ap held {x = break_line width_of a st} {y = cut_at width_of bp st}
                  (ground (arith, b, n))
                ∙ cut_at-held bp st
          ]
        ]

  push_atom-held : (a : Atom) (st : Wrap) → held (push_atom width_of a st) ≡ held st ++ (a ∷ [])
  unfolding push_atom
  push_atom-held a st = sym (append_assoc (concat st.raw_lines) st.cur (a ∷ []))

  fold_atom-held :
      (st : Wrap) (a : Atom)
      → held (fold_atom width_of width st a) ≡ held st ++ filter is_shown (a ∷ [])
  unfolding fold_atom
  fold_atom-held st a = elim (Bool-cases (a.c == b'\n')) [
    | inl e ↦ rw e (hard_cut-held st ∙ sym (append-nil (held st)))
    | inr e ↦ elim (Bool-cases (not (is_empty st.cur) && ltb width (st.curw + width_of a.c))) [
      | inl f ↦
          rw (e, f)
            (push_atom-held a (break_line width_of a st)
              ∙ ap (λ l. l ++ (a ∷ [])) (break_line-held a st))
      | inr f ↦ rw (e, f) (push_atom-held a st)
    ]
  ]

  fold_atoms-held :
      (l : List Atom) (st : Wrap)
      → held (fold_atoms width_of width st l) ≡ held st ++ filter is_shown l
  unfolding fold_atoms
  fold_atoms-held [] st = sym (append-nil (held st))
  fold_atoms-held (a ∷ l) st =
      fold_atoms-held l (fold_atom width_of width st a)
      ∙ ap (λ k. k ++ filter is_shown l) (fold_atom-held st a)
      ∙ append_assoc (held st) (filter is_shown (a ∷ [])) (filter is_shown l)
      ∙ ap (◌++◌ (held st)) (filter_front a l)

  finish_lines-held : (st : Wrap) → concat (finish_lines width_of st) ≡ held st
  finish_lines-held st = elim (Bool-cases (is_empty st.cur)) [
    | inl e ↦ rw e (
        sym (ap (◌++◌ (concat st.raw_lines)) (nothing st.cur e) ∙ append-nil (concat st.raw_lines)))
    | inr e ↦ rw e (concat-last st.raw_lines st.cur)
  ]

empty-IsFilled : (width_of : ℕ → ℕ) (width : ℕ) → IsFilled width_of width (empty_wrap width_of)
unfolding total
empty-IsFilled width_of width = record {
  width_is = refl;
  fits = omega arith;
  break = tt;
  lines = tt;
}

finish_lines-fits :
    (width_of : ℕ → ℕ) (width : ℕ) (st : Wrap)
    → IsFilled width_of width st
    → All (λ l. total width_of l ≤ width) (finish_lines width_of st)
finish_lines-fits width_of width st v = elim (Bool-cases (is_empty st.cur)) [
  | inl e ↦ rw e v.lines
  | inr e ↦ rw e (add_line width_of width st.raw_lines st.cur v.lines v.fits)
]

-- Where a space has width 1, no character more than 2, and the width is at least 2: every line fits
-- into the width, and the characters of the lines, with their styles and links, are those of the
-- segments, in order, without the line feeds.
pub wrap_segments_sound :
    (width_of : ℕ → ℕ) (width : ℕ) (segs : List Seg)
    → width_of b' ' ≡ 1
    → ((c : ℕ) → width_of c ≤ 2)
    → 2 ≤ width
    → All (λ line. total width_of (atoms line) ≤ width) (wrap_segments width_of segs width)
      × (concat (map atoms (wrap_segments width_of segs width)) ≡ filter is_shown (atoms segs))
unfolding wrap_segments wrap_atoms
wrap_segments_sound width_of width segs space narrow enough =
    let st = fold_atoms width_of width (empty_wrap width_of) (atoms segs) in
    let v =
      fold_atoms-IsFilled width_of width space narrow enough (atoms segs) (empty_wrap width_of)
        (empty-IsFilled width_of width) in
    (
      lines_of-fit width_of width (finish_lines width_of st)
          (finish_lines-fits width_of width st v),
      lines_of-atoms (finish_lines width_of st)
          ∙ finish_lines-held width_of width st
          ∙ fold_atoms-held width_of width (atoms segs) (empty_wrap width_of),
    )
