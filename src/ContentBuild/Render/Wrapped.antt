-- ===== src/ContentBuild/Render/Wrapped.antt =====
-- The lines of `wrap_segments` as `render_line` writes them.
use termblog.Prelude.{
  ℕ, ◌≤◌, ◌≡◌, sym, ◌∙◌, Bool, true, false, ◌==◌, not, ◌&&◌, List, [], ◌∷◌, ◌++◌, map, inl, inr,
  concat, All, All-append, All-append_front, All-append_back, All-filter, arith, Bool-cases,
}
use termblog.Prelude.Text.{Str}
use termblog.ContentBuild.Wrap.{
  Seg, Atom, atom, atoms, same_link, push_seg_link, push_atoms, line_of, total, wrap_atoms,
  wrap_segments,
}
use termblog.ContentBuild.Wrap.Merged.{lines_of-atoms}
use termblog.ContentBuild.Wrap.Folded.{is_shown, wrap_segments_sound}
use termblog.ContentBuild.Render.{esc, render_line, visible_width}
use termblog.ContentBuild.Render.Width.{
  is_plain, is_target, is_printable, visible_width-render_line,
}

unfoldable IsPrintable : Seg → Type 0
IsPrintable seg = is_printable seg ≡ true

abbrev is_clean : Atom → Bool
is_clean a = not (a.c == esc) && is_target a.link

unfoldable IsClean : Atom → Type 0
IsClean a = is_clean a ≡ true

plain-append :
    (s : Str) (c : ℕ) → is_plain s ≡ true → (c == esc) ≡ false → is_plain (s ++ (c ∷ [])) ≡ true
plain-append [] c h e = ground (arith, e)
plain-append (d ∷ s) c h e = ground (arith, plain-append s c (ground (arith, h)) e)

text-IsClean :
    (seg : Seg) (t : Str)
    → is_plain t ≡ true
    → is_target seg.link ≡ true
    → All IsClean (map (atom seg) t)
unfolding IsClean
text-IsClean seg [] h k = tt
text-IsClean seg (c ∷ t) h k = (ground (arith, h, k), text-IsClean seg t (ground (arith, h)) k)

atoms-IsClean : (segs : List Seg) → All IsPrintable segs → All IsClean (atoms segs)
unfolding atoms IsPrintable
atoms-IsClean [] h = tt
atoms-IsClean (seg ∷ segs) h =
    All-append IsClean (map (atom seg) seg.t) (atoms segs)
      (text-IsClean seg seg.t (ground (arith, h.0)) (ground (arith, h.0))) (atoms-IsClean segs h.1)

push_seg_link-IsPrintable :
    (line : List Seg) (a : Atom)
    → All IsPrintable line
    → IsClean a
    → All IsPrintable (push_seg_link line a.s (a.c ∷ []) a.link)
unfolding push_seg_link IsPrintable IsClean
push_seg_link-IsPrintable [] a h k = (ground (arith, k), tt)
push_seg_link-IsPrintable (x ∷ []) a h k =
    elim (Bool-cases (x.s == a.s && same_link x.link a.link)) [
      | inl e ↦
          rw e (
            ground (arith, h.0, plain-append x.t a.c (ground (arith, h.0)) (ground (arith, k))),
            tt,
          )
      | inr e ↦ rw e (h.0, (ground (arith, k), tt))
    ]
push_seg_link-IsPrintable (x ∷ y ∷ line) a h k = (h.0, push_seg_link-IsPrintable (y ∷ line) a h.1 k)

push_atoms-IsPrintable :
    (line : List Seg) (l : List Atom)
    → All IsPrintable line
    → All IsClean l
    → All IsPrintable (push_atoms line l)
unfolding push_atoms
push_atoms-IsPrintable line [] h k = h
push_atoms-IsPrintable line (a ∷ l) h k =
    push_atoms-IsPrintable (push_seg_link line a.s (a.c ∷ []) a.link) l
      (push_seg_link-IsPrintable line a h k.0) k.1

-- lines of clean atoms have the columns of their atoms
lines-fit :
    (width_of : ℕ → ℕ) (width : ℕ) (ls : List (List Atom))
    → All IsClean (concat ls)
    → All (λ line. total width_of (atoms line) ≤ width) (map line_of ls)
    → All
        (λ line.
          (visible_width width_of (render_line line) ≡ total width_of (atoms line))
          × (visible_width width_of (render_line line) ≤ width))
        (map line_of ls)
unfolding IsPrintable
lines-fit width_of width [] k h = tt
lines-fit width_of width (l ∷ ls) k h =
    let e =
      visible_width-render_line width_of (line_of l)
        (push_atoms-IsPrintable [] l tt (All-append_front IsClean l (concat ls) k)) in
    (
      (e, omega (arith, h.0, e)),
      lines-fit width_of width ls (All-append_back IsClean l (concat ls) k) h.1,
    )

-- Where a space has width 1, no character more than 2, and the width is at least 2: if no text has an
-- ESC and no link an ESC or a BEL, then every line that is folded and rendered has, as
-- `visible_width` counts it, the width of its characters, which is at most the width.
pub rendered_lines-fit :
    (width_of : ℕ → ℕ) (width : ℕ) (segs : List Seg)
    → width_of b' ' ≡ 1
    → ((c : ℕ) → width_of c ≤ 2)
    → 2 ≤ width
    → All (λ seg. is_printable seg ≡ true) segs
    → All
        (λ line.
          (visible_width width_of (render_line line) ≡ total width_of (atoms line))
          × (visible_width width_of (render_line line) ≤ width))
        (wrap_segments width_of segs width)
unfolding wrap_segments IsPrintable
rendered_lines-fit width_of width segs space narrow enough printable =
    let sound = wrap_segments_sound width_of width segs space narrow enough in
    let ls = wrap_atoms width_of segs width in
    lines-fit width_of width ls
      (rw (sym (lines_of-atoms ls) ∙ sound.1)
        (All-filter IsClean is_shown (atoms segs) (atoms-IsClean segs printable)))
      sound.0
