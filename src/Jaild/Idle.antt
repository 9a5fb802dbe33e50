-- ===== src/Jaild/Idle.antt =====
-- `IdleDeadline` of crates/servers/jaild/src/session.rs. Instants and durations are numbers.
use termblog.Prelude.{
  ℕ, ◌+◌, ◌≡◌, refl, inl, inr, not, if◌then◌else◌, List, [], ◌∷◌, is_empty, Bool-cases,
}

pub record IdleDeadline : Type 0 where
  pub timeout : ℕ
  pub deadline : ℕ

-- `IdleDeadline::new`
unfoldable pub new_deadline : ℕ → ℕ → IdleDeadline
new_deadline timeout now = record { timeout = timeout; deadline = now + timeout }

unfoldable pub refresh_on_input : List ℕ → ℕ → IdleDeadline → IdleDeadline
refresh_on_input bytes now idle =
    if not (is_empty bytes) then record idle { deadline = now + idle.timeout } else idle

-- the inputs of a session, each with its time
unfoldable pub after_inputs : List (List ℕ × ℕ) → IdleDeadline → IdleDeadline
unfolding refresh_on_input
after_inputs [] idle = idle
after_inputs ((bytes, now) ∷ inputs) idle = after_inputs inputs (refresh_on_input bytes now idle)

-- the time of the last input that is not empty, or else `since`
abbrev pub last_active : ℕ → List (List ℕ × ℕ) → ℕ
last_active since [] = since
last_active since ((bytes, now) ∷ inputs) =
    last_active (if is_empty bytes then since else now) inputs

-- The deadline is always the timeout past the last input that was not empty, or past the start.
pub after_inputs-deadline :
    (timeout start : ℕ) (inputs : List (List ℕ × ℕ))
    → (after_inputs inputs (new_deadline timeout start)).deadline
      ≡ last_active start inputs + timeout
unfolding after_inputs new_deadline refresh_on_input
after_inputs-deadline timeout start [] = refl
after_inputs-deadline timeout start ((bytes, now) ∷ inputs) = elim (Bool-cases (is_empty bytes)) [
  | inl e ↦ rw (e, after_inputs) (after_inputs-deadline timeout start inputs)
  | inr e ↦ rw (e, after_inputs) (after_inputs-deadline timeout now inputs)
]
