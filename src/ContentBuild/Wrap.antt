-- ===== src/ContentBuild/Wrap.antt =====
-- `wrap_segments` of crates/tools/content-build/src/ansi.rs: styled text folded to a width. The width of
-- a character (`UnicodeWidthChar::width`, 0 for none) is an argument.
pub mod Breaks
pub mod Bounds
pub mod Pushed
pub mod Merged
pub mod Folded
mod Examples
use termblog.Prelude.{
  ℕ, ◌+◌, ◌-◌, Bool, true, false, not, ◌&&◌, ◌||◌, ltb, ◌==◌, if◌then◌else◌, List, [], ◌∷◌, ◌++◌,
  map, Option, none, some, concat, take, drop, last, length, is_empty,
}
use termblog.Prelude.Text.{Str, eq}

pub record Seg : Type 0 where
  pub s : ℕ
  pub t : Str
  pub link : Option Str

-- a character with the style and the link of its segment
pub record Atom : Type 0 where
  pub s : ℕ
  pub link : Option Str
  pub c : ℕ

pub record Wrap : Type 0 where
  pub raw_lines : List (List Atom)
  pub cur : List Atom
  pub curw : ℕ
  pub break_at : Option ℕ

abbrev pub atom : Seg → ℕ → Atom
atom seg c = record { s = seg.s; link = seg.link; c = c }

-- the characters of the segments, in order
unfoldable pub atoms : List Seg → List Atom
atoms [] = []
atoms (seg ∷ segs) = map (atom seg) seg.t ++ atoms segs

module _ (width_of : ℕ → ℕ) where
  abbrev pub is_wide : Atom → Bool
  is_wide a = width_of a.c == 2

  -- the sum of the widths
  unfoldable pub total : List Atom → ℕ
  total [] = 0
  total (a ∷ l) = width_of a.c + total l

  abbrev pub next_is_wide : List Atom → Bool
  next_is_wide [] = false
  next_is_wide (a ∷ l) = is_wide a

  -- the loop of `recompute_break`, from index `idx` on
  unfoldable pub recompute_from : ℕ → List Atom → Option ℕ → Option ℕ
  recompute_from idx [] bp = bp
  recompute_from idx (a ∷ l) bp =
      recompute_from (idx + 1) l
        (if a.c == b' ' || not (is_empty l) && (is_wide a || next_is_wide l) then some idx else bp)

  abbrev pub recompute_break : List Atom → Option ℕ
  recompute_break cur = recompute_from 0 cur none

  abbrev pub last_is_wide : List Atom → Bool
  last_is_wide l = elim (last l) [ none ↦ false | some a ↦ is_wide a ]

  abbrev pub hard_cut : Wrap → Wrap
  hard_cut st = record {
    raw_lines = st.raw_lines ++ (st.cur ∷ []);
    cur = [];
    curw = 0;
    break_at = none;
  }

  abbrev pub cut_at : ℕ → Wrap → Wrap
  cut_at bp st =
      let rest = drop (bp + 1) st.cur in
      record {
        raw_lines = st.raw_lines ++ (take (bp + 1) st.cur ∷ []);
        cur = rest;
        curw = total rest;
        break_at = recompute_break rest;
      }

  -- the line is broken before an atom that does not fit
  unfoldable pub break_line : Atom → Wrap → Wrap
  break_line a st =
      if last_is_wide st.cur || is_wide a && not (is_empty st.cur)
      then cut_at (length st.cur - 1) st
      else elim st.break_at [ some bp ↦ cut_at bp st | none ↦ hard_cut st ]

  unfoldable pub push_atom : Atom → Wrap → Wrap
  push_atom a st = record st {
    cur = st.cur ++ (a ∷ []);
    curw = st.curw + width_of a.c;
    break_at =
        if a.c == b' '
        then some (length st.cur)
        else if not (is_empty st.cur) && (last_is_wide st.cur || is_wide a)
        then some (length st.cur - 1)
        else st.break_at;
  }

  -- the loop body, for one character
  unfoldable pub fold_atom : ℕ → Wrap → Atom → Wrap
  fold_atom width st a =
      if a.c == b'\n'
      then hard_cut st
      else push_atom a (
          if not (is_empty st.cur) && ltb width (st.curw + width_of a.c)
          then break_line a st
          else st)

  unfoldable pub fold_atoms : ℕ → Wrap → List Atom → Wrap
  fold_atoms width st [] = st
  fold_atoms width st (a ∷ l) = fold_atoms width (fold_atom width st a) l

  abbrev pub empty_wrap : Wrap
  empty_wrap = record { raw_lines = []; cur = []; curw = 0; break_at = none }

  abbrev pub finish_lines : Wrap → List (List Atom)
  finish_lines st = if is_empty st.cur then st.raw_lines else st.raw_lines ++ (st.cur ∷ [])

  -- the lines of `wrap_segments`, before equal neighbours are put together
  unfoldable pub wrap_atoms : List Seg → ℕ → List (List Atom)
  wrap_atoms segs width = finish_lines (fold_atoms width empty_wrap (atoms segs))

abbrev pub same_link : Option Str → Option Str → Bool
same_link none none = true
same_link none (some u) = false
same_link (some t) none = false
same_link (some t) (some u) = eq t u

unfoldable pub push_seg_link : List Seg → ℕ → Str → Option Str → List Seg
push_seg_link [] s t link = if is_empty t then [] else record { s = s; t = t; link = link } ∷ []
push_seg_link (x ∷ []) s t link =
    if is_empty t
    then x ∷ []
    else if x.s == s && same_link x.link link
    then record x { t = x.t ++ t } ∷ []
    else x ∷ record { s = s; t = t; link = link } ∷ []
push_seg_link (x ∷ y ∷ segs) s t link = x ∷ push_seg_link (y ∷ segs) s t link

-- a line with its atoms put back into segments
unfoldable pub push_atoms : List Seg → List Atom → List Seg
push_atoms line [] = line
push_atoms line (a ∷ l) = push_atoms (push_seg_link line a.s (a.c ∷ []) a.link) l

abbrev pub line_of : List Atom → List Seg
line_of = push_atoms []

unfoldable pub wrap_segments : (ℕ → ℕ) → List Seg → ℕ → List (List Seg)
wrap_segments width_of segs width = map line_of (wrap_atoms width_of segs width)
