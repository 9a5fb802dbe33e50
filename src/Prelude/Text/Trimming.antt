-- ===== src/Prelude/Text/Trimming.antt =====
-- What holds of every character of a text holds of its trimmed parts.
use Prim.Native.Nat.{ℕ, zero, suc}
use mathlib.Core.List.{[], ◌∷◌}
use mathlib.Core.Logic.{inl, inr}
use termblog.Prelude.Tests.{Bool-cases, if◌then◌else◌}
use termblog.Prelude.Lists.{All, drop}
use termblog.Prelude.Text.{Str, is_whitespace, trim_start, trim_end, trim}

module _ {κ} (P : ℕ → Type κ) where
  All-trim_start : (s : Str) → All P s → All P (trim_start s)
  unfolding trim_start
  All-trim_start [] h = tt
  All-trim_start (c ∷ s) h = elim (Bool-cases (is_whitespace c)) [
    | inl e ↦ rw (e, trim_start) (All-trim_start s h.1)
    | inr e ↦ rw (e, trim_start) h
  ]

  All-trim_end : (s : Str) → All P s → All P (trim_end s)
  unfolding trim_end
  All-trim_end [] h = tt
  All-trim_end (c ∷ s) h = cons (trim_end s) (All-trim_end s h.1) h.0
    where
      cons :
          (t : Str)
          → All P t
          → P c
          → All P (elim t [ [] ↦ if is_whitespace c then [] else c ∷ [] | d ∷ u ↦ c ∷ d ∷ u ])
      cons [] k p = elim (Bool-cases (is_whitespace c)) [ inl e ↦ rw e tt | inr e ↦ rw e (p, tt) ]
      cons (d ∷ u) k p = (p, k)

  pub All-trim : (s : Str) → All P s → All P (trim s)
  unfolding trim
  All-trim s h = All-trim_end (trim_start s) (All-trim_start s h)

  pub All-drop : (n : ℕ) (s : Str) → All P s → All P (drop n s)
  All-drop zero s h = h
  All-drop (suc n) [] h = tt
  All-drop (suc n) (c ∷ s) h = All-drop n s h.1
