-- ===== src/Prelude/Text/Order.antt =====
-- `str::cmp` and `str::lines`.
use Prim.Native.Nat.{compare, Ordering}
use mathlib.Core.Path.{◌≡◌, refl}
use mathlib.Core.Logic.{◌⊎◌, inl, inr}
use mathlib.Core.Bool.{Bool, true, false}
use mathlib.Core.List.{List, [], ◌∷◌}
use mathlib.Core.Option.{Option, none, some}
use native.Mathlib.Omega.{arith}
use termblog.Prelude.Lists.{is_empty}
use termblog.Prelude.Tests.{if◌then◌else◌}
use termblog.Prelude.Text.{Str, lit, strip_suffix, split}

-- `a <= b`. Scalar values and the bytes of UTF-8 are in the same order.
unfoldable pub le : Str → Str → Bool
le [] t = true
le (c ∷ s) [] = false
le (c ∷ s) (d ∷ t) =
    let rest = le s t in
    elim (compare c d) [ Ordering.lt ↦ true | Ordering.eq ↦ rest | Ordering.gt ↦ false ]

pub le_total : (s t : Str) → (le s t ≡ true) ⊎ (le t s ≡ true)
unfolding le
le_total [] t = inl refl
le_total (c ∷ s) [] = inr refl
le_total (c ∷ s) (d ∷ t) = ground (arith, le_total s t)

pub le_trans : (s t u : Str) → le s t ≡ true → le t u ≡ true → le s u ≡ true
unfolding le
le_trans [] t u h k = refl
le_trans (c ∷ s) [] u h k = cc
le_trans (c ∷ s) (d ∷ t) [] h k = cc
le_trans (c ∷ s) (d ∷ t) (e ∷ u) h k = ground (arith, le_trans s t u)

abbrev pub or_same : Str → Option Str → Str
or_same s none = s
or_same s (some t) = t

-- the pieces between line feeds: each loses one carriage return at its end, but for the last, which
-- no line feed ends, and which is left out if it is empty
abbrev pub line_list : List Str → List Str
line_list [] = []
line_list (s ∷ []) = if is_empty s then [] else s ∷ []
line_list (s ∷ t ∷ ss) = or_same s (strip_suffix (lit "\r") s) ∷ line_list (t ∷ ss)

-- `str::lines`
unfoldable pub lines : Str → List Str
lines s = line_list (split b'\n' s)
