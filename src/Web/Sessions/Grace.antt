-- ===== src/Web/Sessions/Grace.antt =====
-- The grace period of a held session (crates/servers/web/src/sessions.rs).
use termblog.Prelude.{
  ℕ, ◌≤◌, ◌<◌, ◌≡◌, ◌≢◌, refl, ap, ◌∙◌, ◌⊎◌, inl, inr, Bool, true, false, if◌then◌else◌, List, [],
  ◌∷◌, none, some, All, arith,
}
use termblog.Web.Sessions.{
  Subscriber, WebSession, Held, replay, chunks, fresh, owned_by, attach_command, forward, output,
  close_old, lookup, reset, remove_entry, finish, detach, wake, expire, Event, looks_up, attaches,
  outputs, resets, detaches, wakes, expires, takes, drops_receiver, ends, step, run,
}

-- The connection owns the session, and no timer runs.
abbrev pub Owned : ℕ → Held → Type 0
Owned id h = h.entry ≡ some (record { owner = some id; idle_timer = false })

-- Any event but another connection's arrival, the connection's own departure and the end of the
-- terminal.
abbrev pub IsOther : ℕ → Event → Type 0
IsOther id (attaches j fails_at) = ⊥
IsOther id (detaches j) = j ≢ id
IsOther id ends = ⊥
IsOther id _ = Unit

ne-owned_by : (id j : ℕ) → j ≢ id → owned_by j (some id) ≡ false
ne-owned_by id j n = ground arith

-- The connection owns the session, and at most `n` timers can still fire; or one of these has fired.
abbrev HeldOrRemoved : ℕ → ℕ → Held → Type 0
HeldOrRemoved id n h = (Owned id h × (h.unstoppable ≤ n)) ⊎ ((h.entry ≡ none) × (0 < n))

step-HeldOrRemoved :
    (id n : ℕ) (e : Event) (h : Held)
    → IsOther id e
    → HeldOrRemoved id n h
    → HeldOrRemoved id n (step e h)
unfolding step lookup attach_command output forward reset detach wake expire remove_entry
step-HeldOrRemoved id n looks_up h o r = ground arith
step-HeldOrRemoved id n (attaches j fails_at) h o r = absurd o
step-HeldOrRemoved id n (outputs b) h o r = ground arith
step-HeldOrRemoved id n resets h o r = ground arith
step-HeldOrRemoved id n (detaches j) h o r = ground (arith, ne-owned_by id j o)
step-HeldOrRemoved id n wakes h o r = ground arith
step-HeldOrRemoved id n expires h o r = ground arith
step-HeldOrRemoved id n takes h o r = ground arith
step-HeldOrRemoved id n drops_receiver h o r = ground arith
step-HeldOrRemoved id n ends h o r = absurd o

run-HeldOrRemoved :
    (id n : ℕ) (es : List Event) (h : Held)
    → All (IsOther id) es
    → HeldOrRemoved id n h
    → HeldOrRemoved id n (run es h)
unfolding run
run-HeldOrRemoved id n [] h o r = r
run-HeldOrRemoved id n (e ∷ es) h o r =
    run-HeldOrRemoved id n es (step e h) o.1 (step-HeldOrRemoved id n e h o.0 r)

replay-id : (cs : List (List ℕ)) (s : Subscriber) → (replay none cs s).1.1.id ≡ s.id
unfolding replay
replay-id [] s = refl
replay-id (c ∷ cs) s = replay-id cs _

replay-true : (cs : List (List ℕ)) (s : Subscriber) → (replay none cs s).0 ≡ true
unfolding replay
replay-true [] s = refl
replay-true (c ∷ cs) s = replay-true cs _

replay-left : (cs : List (List ℕ)) (s : Subscriber) → (replay none cs s).1.0 ≡ none
unfolding replay
replay-left [] s = refl
replay-left (c ∷ cs) s = replay-left cs _

attach_command-Owned :
    (id : ℕ) (h : Held) (e : WebSession)
    → h.entry ≡ some e
    → Owned id (attach_command id none h)
      × ((attach_command id none h).unstoppable ≡ h.unstoppable)
      × ((attach_command id none h).closed ≡ close_old h.active h.closed)
unfolding attach_command
attach_command-Owned id h e n = ground (
  arith,
  replay-id (chunks h.scrollback) (fresh id),
  replay-true (chunks h.scrollback) (fresh id),
  replay-left (chunks h.scrollback) (fresh id),
)

if-true : (b : Bool) (h k : Held) → b ≡ true → (if b then k else h) ≡ k
if-true true h k e = refl
if-true false h k e = cc

step-attaches :
    (id : ℕ) (h : Held) → h.running ≡ true → step (attaches id none) h ≡ attach_command id none h
unfolding step
step-attaches id h r = if-true h.running h _ r

-- A connection that comes to a session that is still held takes it over: the connection before it
-- is closed, and until a further connection comes, it leaves itself or the terminal ends, neither the
-- late departure of another connection nor a reset takes the session away from it; it owns it, or the
-- session is gone and, when it came, there was a timer that could not be stopped any more.
pub run-takeover :
    (id : ℕ) (es : List Event) (h : Held) (e : WebSession)
    → h.running ≡ true
    → h.entry ≡ some e
    → All (IsOther id) es
    → (Owned id (run (attaches id none ∷ es) h)
        ⊎ (((run (attaches id none ∷ es) h).entry ≡ none) × (0 < h.unstoppable)))
      × ((step (attaches id none) h).closed ≡ close_old h.active h.closed)
unfolding run
run-takeover id es h e r n o =
    let (owned, kept, closed) = attach_command-Owned id h e n in
    let s = step-attaches id h r in
    let start : HeldOrRemoved id h.unstoppable (step (attaches id none) h) =
      rw s (inl (owned, omega (arith, kept))) in
    (
      elim (run-HeldOrRemoved id h.unstoppable es (step (attaches id none) h) o start) [
        | inl k ↦ inl k.0
        | inr k ↦ inr k
      ],
      ap (λ (k : Held). k.closed) s ∙ closed,
    )

-- Nobody comes back: no event looks the session up.
abbrev pub IsAway : Event → Type 0
IsAway looks_up = ⊥
IsAway (attaches j fails_at) = ⊥
IsAway _ = Unit

-- the session waits for its timer, which sleeps or waits for the lock, or is gone
abbrev Leaving : Held → Type 0
Leaving h =
    (h.entry ≡ none)
    ⊎ (h.entry ≡ some (record { owner = none; idle_timer = true }))
    ⊎ ((h.entry ≡ some (record { owner = none; idle_timer = false })) × (0 < h.unstoppable))

step-Leaving : (e : Event) (h : Held) → IsAway e → Leaving h → Leaving (step e h)
unfolding step lookup attach_command output forward reset detach wake expire remove_entry finish
step-Leaving looks_up h o r = absurd o
step-Leaving (attaches j fails_at) h o r = absurd o
step-Leaving (outputs b) h o r = ground arith
step-Leaving resets h o r = ground arith
step-Leaving (detaches j) h o r = ground arith
step-Leaving wakes h o r = ground arith
step-Leaving expires h o r = ground arith
step-Leaving takes h o r = ground arith
step-Leaving drops_receiver h o r = ground arith
step-Leaving ends h o r = inl refl

run-Leaving : (es : List Event) (h : Held) → All IsAway es → Leaving h → Leaving (run es h)
unfolding run
run-Leaving [] h o r = r
run-Leaving (e ∷ es) h o r = run-Leaving es (step e h) o.1 (step-Leaving e h o.0 r)

fire-Leaving : (h : Held) → Leaving h → (step expires (step wakes h)).entry ≡ none
unfolding step wake expire remove_entry
fire-Leaving h r = ground arith

detach-Leaving : (id : ℕ) (h : Held) → Owned id h → Leaving (step (detaches id) h)
unfolding step detach
detach-Leaving id h o = inr (inl (ground arith))

-- A session whose connection owns it and leaves, and that nobody looks up or comes to, is gone once
-- the time of its timer has passed and the timer has the lock of the table.
pub run-abandoned :
    (id : ℕ) (es : List Event) (h : Held)
    → Owned id h
    → All IsAway es
    → (step expires (step wakes (run (detaches id ∷ es) h))).entry ≡ none
unfolding run
run-abandoned id es h o a =
    fire-Leaving _ (run-Leaving es (step (detaches id) h) a (detach-Leaving id h o))
