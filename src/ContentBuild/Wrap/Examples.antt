-- ===== src/ContentBuild/Wrap/Examples.antt =====
-- The theorem on the folding at a bold word, a space and a wide character.
use termblog.Prelude.{
  ℕ, ◌≤◌, ◌≡◌, refl, ltb, if◌then◌else◌, List, [], ◌∷◌, map, none, concat, filter, All, arith,
}
use termblog.Prelude.Text.{lit}
use termblog.ContentBuild.Wrap.{Seg, atoms, total, wrap_segments}
use termblog.ContentBuild.Wrap.Folded.{is_shown, wrap_segments_sound}

-- the characters from U+1100 on are wide
abbrev width_of : ℕ → ℕ
width_of c = if ltb c 0x1100 then 1 else 2

width_of-bound : (c : ℕ) → width_of c ≤ 2
width_of-bound c = ground arith

abbrev segments : List Seg
segments =
    record { s = 1; t = lit "bold "; link = none }
    ∷ record { s = 0; t = 0x4e2d ∷ lit "a\nb"; link = none }
    ∷ []

wrap_segments_sound_example :
    All (λ line. total width_of (atoms line) ≤ 4) (wrap_segments width_of segments 4)
    × (concat (map atoms (wrap_segments width_of segments 4)) ≡ filter is_shown (atoms segments))
wrap_segments_sound_example =
    wrap_segments_sound width_of 4 segments refl width_of-bound (omega arith)
