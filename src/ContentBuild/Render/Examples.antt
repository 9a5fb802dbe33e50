-- ===== src/ContentBuild/Render/Examples.antt =====
-- A bold word with a link, a space and a wide character, folded and rendered.
use termblog.Prelude.{
  ℕ, ◌≤◌, ◌≡◌, refl, ltb, if◌then◌else◌, List, [], ◌∷◌, ◌++◌, none, some, All, arith,
}
use termblog.Prelude.Text.{lit, eq}
use termblog.ContentBuild.Wrap.{Seg, atoms, total, wrap_segments}
use termblog.ContentBuild.Render.{
  esc, only_if, intensity, change_style, before_text, render_from, render_line, next_place, columns,
  visible_at, visible_width,
}
use termblog.ContentBuild.Render.Wrapped.{rendered_lines-fit}

-- the characters from U+1100 on are wide
abbrev width_of : ℕ → ℕ
width_of c = if ltb c 0x1100 then 1 else 2

width_of-bound : (c : ℕ) → width_of c ≤ 2
width_of-bound c = ground arith

abbrev segments : List Seg
segments =
    record { s = 1; t = lit "bold "; link = some (lit "/post/a") }
    ∷ record { s = 0; t = 0x4e2d ∷ lit "a\nb"; link = none }
    ∷ []

abbrev one_line : List Seg
one_line =
    record { s = 5; t = lit "a"; link = none }
    ∷ record { s = 4; t = lit "b"; link = some (lit "/x") }
    ∷ []

rendered :
    render_line one_line
    ≡ (esc ∷ lit "[1m")
      ++ ((esc ∷ lit "[2ma")
          ++ ((esc ∷ lit "[22m")
              ++ ((esc ∷ lit "[2m")
                  ++ ((esc ∷ lit "]8;;/x")
                      ++ ((esc ∷ lit "\\b")
                          ++ ((esc ∷ lit "]8;;") ++ ((esc ∷ lit "\\") ++ (esc ∷ lit "[0m"))))))))
unfolding render_from before_text change_style intensity only_if eq
rendered = refl

counted : visible_width width_of (render_line one_line) ≡ 2
unfolding render_from before_text change_style intensity only_if eq visible_at next_place columns
counted = refl

rendered_lines-fit_example :
    All
      (λ line.
        (visible_width width_of (render_line line) ≡ total width_of (atoms line))
        × (visible_width width_of (render_line line) ≤ 4))
      (wrap_segments width_of segments 4)
rendered_lines-fit_example =
    rendered_lines-fit width_of 4 segments refl width_of-bound (omega arith) (refl, (refl, tt))
