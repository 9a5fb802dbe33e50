-- ===== src/Prelude/Text/Objects.antt =====
-- Lines of text that end in a brace, as JSON objects do.
use mathlib.Core.Path.{◌≡◌, refl, ap, ◌∙◌}
use mathlib.Core.Logic.{◌≢◌}
use mathlib.Core.Bool.{false}
use mathlib.Core.List.{List, [], ◌∷◌, ◌++◌}
use mathlib.Core.Option.{none}
use native.Mathlib.Omega.{arith}
use termblog.Prelude.Lists.{is_empty}
use termblog.Prelude.Text.{Str, lit, eq, contains, split, strip_suffix}
use termblog.Prelude.Text.Order.{lines, line_list}
use termblog.Prelude.Text.Splitting.{split_first, split-ne-nil}

eq_longer_return : (p : Str) → eq (p ++ lit "}") [] ≡ false
unfolding eq
eq_longer_return [] = refl
eq_longer_return (c ∷ p) = refl

strip_return : (p : Str) → strip_suffix (lit "\r") (p ++ lit "}") ≡ none
unfolding strip_suffix eq
strip_return [] = refl
strip_return (c ∷ p) = ground (arith, strip_return p, eq_longer_return p)

pub object-not_empty : (p : Str) → is_empty (p ++ lit "}") ≡ false
object-not_empty [] = refl
object-not_empty (c ∷ p) = refl

line_list-cons :
    (s : Str) (ss : List Str)
    → ss ≢ []
    → strip_suffix (lit "\r") s ≡ none
    → line_list (s ∷ ss) ≡ s ∷ line_list ss
line_list-cons s [] h k = absurd (h refl)
line_list-cons s (t ∷ ss) h k = ground (arith, k)

pub lines-cons :
    (p rest : Str)
    → contains b'\n' (p ++ lit "}") ≡ false
    → lines ((p ++ lit "}") ++ (b'\n' ∷ rest)) ≡ (p ++ lit "}") ∷ lines rest
unfolding lines
lines-cons p rest h =
    ap line_list (split_first b'\n' (p ++ lit "}") rest h)
    ∙ line_list-cons (p ++ lit "}") (split b'\n' rest) (split-ne-nil b'\n' rest) (strip_return p)
