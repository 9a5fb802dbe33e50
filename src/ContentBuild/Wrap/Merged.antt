-- ===== src/ContentBuild/Wrap/Merged.antt =====
-- Characters put back into segments: `push_seg_link` of crates/tools/content-build/src/ansi.rs.
use termblog.Prelude.{
  ℕ, ◌≤◌, ◌≡◌, refl, ap, sym, ◌∙◌, inl, inr, true, ◌&&◌, ◌==◌, List, [], ◌∷◌, ◌++◌, map, Option,
  none, some, concat, All, arith, Bool-cases,
}
use mathlib.Core.List.{append_assoc, append-nil}
use termblog.Prelude.Text.{Str}
use termblog.Prelude.Text.Splitting.{eq→≡}
use termblog.ContentBuild.Wrap.{
  Seg, Atom, atom, atoms, total, same_link, push_seg_link, push_atoms, line_of,
}

same_link→≡ : (u v : Option Str) → same_link u v ≡ true → u ≡ v
same_link→≡ none none h = refl
same_link→≡ none (some v) h = cc h
same_link→≡ (some u) none h = cc h
same_link→≡ (some u) (some v) h = ap some (eq→≡ u v h)

atoms_more :
    (x : Seg) (t : Str) (a : Atom)
    → x.s ≡ a.s
    → x.link ≡ a.link
    → map (atom x) (t ++ (a.c ∷ [])) ≡ map (atom x) t ++ (a ∷ [])
atoms_more x [] a e f = ap (λ b. b ∷ []) (λ i. record { s = e i; link = f i; c = a.c })
atoms_more x (c ∷ t) a e f = ap (◌∷◌ (atom x c)) (atoms_more x t a e f)

push_seg_link-atoms :
    (line : List Seg) (a : Atom)
    → atoms (push_seg_link line a.s (a.c ∷ []) a.link) ≡ atoms line ++ (a ∷ [])
unfolding push_seg_link atoms
push_seg_link-atoms [] a = refl
push_seg_link-atoms (x ∷ []) a = elim (Bool-cases (x.s == a.s && same_link x.link a.link)) [
  | inl e ↦ rw e (
      ap (λ l. l ++ [])
        (atoms_more x x.t a (ground (arith, e)) (same_link→≡ x.link a.link (ground (arith, e))))
      ∙ append-nil (map (atom x) x.t ++ (a ∷ []))
      ∙ ap (λ l. l ++ (a ∷ [])) (sym (append-nil (map (atom x) x.t))))
  | inr e ↦ rw e (sym (append_assoc (map (atom x) x.t) [] (a ∷ [])))
]
push_seg_link-atoms (x ∷ y ∷ line) a =
    ap (◌++◌ (map (atom x) x.t)) (push_seg_link-atoms (y ∷ line) a)
    ∙ sym (append_assoc (map (atom x) x.t) (atoms (y ∷ line)) (a ∷ []))

push_atoms-atoms : (line : List Seg) (l : List Atom) → atoms (push_atoms line l) ≡ atoms line ++ l
unfolding push_atoms
push_atoms-atoms line [] = sym (append-nil (atoms line))
push_atoms-atoms line (a ∷ l) =
    push_atoms-atoms (push_seg_link line a.s (a.c ∷ []) a.link) l
    ∙ ap (λ k. k ++ l) (push_seg_link-atoms line a)
    ∙ append_assoc (atoms line) (a ∷ []) l

line_of-atoms : (l : List Atom) → atoms (line_of l) ≡ l
line_of-atoms l = push_atoms-atoms [] l ∙ unfold atoms in refl

pub lines_of-atoms : (ls : List (List Atom)) → concat (map atoms (map line_of ls)) ≡ concat ls
lines_of-atoms [] = refl
lines_of-atoms (l ∷ ls) = cc (line_of-atoms l, lines_of-atoms ls)

pub lines_of-fit :
    (width_of : ℕ → ℕ) (width : ℕ) (ls : List (List Atom))
    → All (λ l. total width_of l ≤ width) ls
    → All (λ line. total width_of (atoms line) ≤ width) (map line_of ls)
lines_of-fit width_of width [] h = tt
lines_of-fit width_of width (l ∷ ls) h =
    (omega (arith, h.0, ap (total width_of) (line_of-atoms l)), lines_of-fit width_of width ls h.1)
