-- ===== src/Jaild/Examples.antt =====
-- The theorems on the sessions of the jails at concrete inputs.
use termblog.Prelude.{
  ℕ, ◌≤◌, ◌≡◌, List, [], ◌∷◌, Option, some, none, all, if◌then◌else◌, ltb, concat,
}
use termblog.Prelude.Text.{Str}
use Prim.Native.Nat.{◌+◌}
use termblog.Jaild.Idle.{new_deadline, after_inputs, last_active, after_inputs-deadline}
use termblog.Jaild.Quota.{v4, Quota, Sessions, reserve, release, start, reserved, released}
use termblog.Jaild.Quota.Bounds.{IsBounded, Reachable-IsBounded}
use termblog.Jaild.Fifo.{max_session_comments}
use termblog.Jaild.Fifo.Writes.{
  clean, written, outcome_of, session_writes, submissions, written-outcome_of,
  session_writes-submissions,
}

abbrev quota : Quota
quota = record { max_total = 2; max_per_ip = 1 }

-- two addresses, the second one twice, and the end of the first session
abbrev sessions : Sessions
sessions =
    release 1
      (reserve quota (v4 7)
        (reserve quota (v4 7) (reserve quota (v4 6) (record { next_sid = 1; table = [] })).1).1).1

Reachable-IsBounded_example : IsBounded quota sessions
Reachable-IsBounded_example =
    Reachable-IsBounded quota sessions
      (released 1 (reserved (v4 7) (reserved (v4 7) (reserved (v4 6) start))))

-- the decoder of ASCII
abbrev ascii : List ℕ → Option Str
ascii raw = if all (λ b. ltb b 128) raw then some raw else none

-- a line in two reads, with a line feed at its end
abbrev reads : List (List ℕ)
reads = (104 ∷ []) ∷ (105 ∷ 10 ∷ []) ∷ []

written-outcome_of_example :
    written ascii reads (clean 3)
    ≡ ((outcome_of ascii (concat reads) 3).0, clean (outcome_of ascii (concat reads) 3).1)
written-outcome_of_example = written-outcome_of ascii reads 3

session_writes-submissions_example :
    submissions ascii (session_writes ascii (reads ∷ reads ∷ []) (clean 0)) ≤ max_session_comments
session_writes-submissions_example = session_writes-submissions ascii (reads ∷ reads ∷ [])

-- a key, an empty input later, and a paste before both times out
abbrev inputs : List (List ℕ × ℕ)
inputs = (97 ∷ [], 100) ∷ ([], 500) ∷ (98 ∷ 99 ∷ [], 700) ∷ []

after_inputs-deadline_example :
    (after_inputs inputs (new_deadline 900 5)).deadline ≡ last_active 5 inputs + 900
after_inputs-deadline_example = after_inputs-deadline 900 5 inputs
