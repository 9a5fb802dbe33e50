-- ===== src/Web/Sessions/Sending.antt =====
-- What one command and one piece of output send to a connection
-- (crates/servers/web/src/sessions.rs).
use termblog.Prelude.{
  ℕ, zero, suc, ◌-◌, ◌≡◌, refl, ap, sym, ◌∙◌, subst, ◌⊎◌, inl, inr, true, leb, if◌then◌else◌, List,
  [], ◌∷◌, ◌++◌, map, Option, none, some, length, concat, arith, Bool-cases, Option-cases,
}
use mathlib.Core.List
use termblog.Web.Sessions.{
  data_chunk, replay_end, Subscriber, Held, put, fresh, chunks, replay, send_replay_end,
  output_chunks, attach_command, push_scrollback, forward, output, Event, outputs, step,
}
use termblog.Web.Sessions.Scrollback.{IsRecent, push_scrollback-IsRecent}

-- The terminal's bytes that an event brings.
unfoldable pub emitted : Event → Held → List ℕ
emitted (outputs b) h = if h.running then b else []
emitted _ h = []

unfoldable pub terminal_output : List Event → Held → List ℕ
terminal_output [] h = []
terminal_output (e ∷ es) h = emitted e h ++ terminal_output es (step e h)

-- A connection was sent the recent output at the time it came, then the end of the replay, then
-- every piece of output since.
pub record Streams (history : List ℕ) (s : Subscriber) : Type 0 where
  pub before : List ℕ
  pub replayed : List ℕ
  pub live : List (List ℕ)
  pub recent : IsRecent before replayed
  pub sent_is : s.sent ≡ map data_chunk (chunks replayed) ++ (replay_end ∷ map data_chunk live)
  pub history_is : history ≡ before ++ concat live

pub record IsSound (history scrollback : List ℕ) (active : Option Subscriber) : Type 0 where
  pub recent : IsRecent history scrollback
  pub streams : (s : Subscriber) → active ≡ some s → s.receiving ≡ true → Streams history s

abbrev pub Sound : List ℕ → Held → Type 0
Sound history h = IsSound history h.scrollback h.active

-- A replay that succeeds has sent every piece.
replay-sent :
    (fails_at : Option ℕ) (cs : List (List ℕ)) (s t : Subscriber) (left : Option ℕ)
    → replay fails_at cs s ≡ (true, (left, t))
    → t.sent ≡ s.sent ++ map data_chunk cs
unfolding replay
replay-sent fails_at [] s t left h = ground (arith, List.append-nil s.sent)
replay-sent none (c ∷ cs) s t left h =
    replay-sent none cs (put (data_chunk c) s) t left h
    ∙ List.append_assoc s.sent (data_chunk c ∷ []) (map data_chunk cs)
replay-sent (some zero) (c ∷ cs) s t left h = cc
replay-sent (some (suc n)) (c ∷ cs) s t left h =
    replay-sent (some n) cs (put (data_chunk c) s) t left h
    ∙ List.append_assoc s.sent (data_chunk c ∷ []) (map data_chunk cs)

send_replay_end-sent :
    (left : Option ℕ) (t : Subscriber)
    → (send_replay_end left t).receiving ≡ true
    → (send_replay_end left t).sent ≡ t.sent ++ (replay_end ∷ [])
send_replay_end-sent none t h = refl
send_replay_end-sent (some zero) t h = cc
send_replay_end-sent (some (suc n)) t h = refl

map-append_chunk :
    (cs : List (List ℕ)) (b : List ℕ)
    → map data_chunk (cs ++ (b ∷ [])) ≡ map data_chunk cs ++ (data_chunk b ∷ [])
map-append_chunk [] b = refl
map-append_chunk (c ∷ cs) b = ap (◌∷◌ (data_chunk c)) (map-append_chunk cs b)

concat-append_chunk : (cs : List (List ℕ)) (b : List ℕ) → concat (cs ++ (b ∷ [])) ≡ concat cs ++ b
concat-append_chunk [] b = List.append-nil b
concat-append_chunk (c ∷ cs) b =
    ap (◌++◌ c) (concat-append_chunk cs b) ∙ sym (List.append_assoc c (concat cs) b)

attached-Streams :
    (history scrollback : List ℕ) (t : Subscriber) (left : Option ℕ)
    → IsRecent history scrollback
    → t.sent ≡ map data_chunk (chunks scrollback)
    → (send_replay_end left t).receiving ≡ true
    → Streams history (send_replay_end left t)
attached-Streams history scrollback t left r e h = record {
  before = history;
  replayed = scrollback;
  live = [];
  recent = r;
  sent_is = send_replay_end-sent left t h ∙ ap (λ l. l ++ (replay_end ∷ [])) e;
  history_is = sym (List.append-nil history);
}

forward-Streams :
    (history b : List ℕ) (s : Subscriber)
    → Streams history s
    → Streams (history ++ b) (put (data_chunk b) s)
forward-Streams history b s r = record {
  before = r.before;
  replayed = r.replayed;
  live = r.live ++ (b ∷ []);
  recent = r.recent;
  sent_is =
      ap (λ l. l ++ (data_chunk b ∷ [])) r.sent_is
      ∙ List.append_assoc (map data_chunk (chunks r.replayed)) (replay_end ∷ map data_chunk r.live)
          (data_chunk b ∷ [])
      ∙ ap (λ l. map data_chunk (chunks r.replayed) ++ (replay_end ∷ l))
          (sym (map-append_chunk r.live b));
  history_is =
      ap (λ l. l ++ b) r.history_is
      ∙ List.append_assoc r.before (concat r.live) b
      ∙ ap (◌++◌ r.before) (sym (concat-append_chunk r.live b));
}

forward-scrollback : (b : List ℕ) (h : Held) → (forward b h).scrollback ≡ h.scrollback
unfolding forward
forward-scrollback b h = ground arith

forward-active :
    (b : List ℕ) (h : Held)
    → ((forward b h).active ≡ none)
      ⊎ ((s : Subscriber) × (h.active ≡ some s)
          × (s.receiving ≡ true)
          × ((forward b h).active ≡ some (put (data_chunk b) s)))
unfolding forward
forward-active b h = elim (Option-cases h.active) [
  | inl n ↦ inl (ground arith)
  | inr (s, a) ↦ elim (Bool-cases s.receiving) [
    | inr o ↦ inl (ground arith)
    | inl o ↦ elim (Bool-cases (leb output_chunks (length s.sent - s.taken))) [
      | inl q ↦ inl (ground (arith, q))
      | inr q ↦ inr (s, a, o, ground (arith, q))
    ]
  ]
]

pub output-Sound :
    (history b : List ℕ) (h : Held) → Sound history h → Sound (history ++ b) (output b h)
unfolding output
output-Sound history b h r =
    let k = record h { scrollback = push_scrollback h.scrollback b } in
    record {
      recent =
          subst (IsRecent (history ++ b)) (sym (forward-scrollback b k))
            (push_scrollback-IsRecent history h.scrollback b r.recent);
      streams = λ s e o. elim (forward-active b k) [
        | inl n ↦ absurd (ground arith)
        | inr (t, a, q, f) ↦
            subst (Streams (history ++ b)) (ground arith)
              (forward-Streams history b t (r.streams t a q))
      ];
    }

attach_command-scrollback :
    (id : ℕ) (fails_at : Option ℕ) (h : Held)
    → (attach_command id fails_at h).scrollback ≡ h.scrollback
unfolding attach_command
attach_command-scrollback id fails_at h = elim (Option-cases h.entry) [
  | inl n ↦ ground arith
  | inr (e, n) ↦ ground arith
]

attach_command-active :
    (id : ℕ) (fails_at : Option ℕ) (h : Held)
    → ((attach_command id fails_at h).active ≡ h.active)
      ⊎ ((left : Option ℕ) × (t : Subscriber) × (replay fails_at (chunks h.scrollback) (fresh id)
            ≡ (true, (left, t)))
          × ((attach_command id fails_at h).active ≡ some (send_replay_end left t)))
unfolding attach_command
attach_command-active id fails_at h = ground arith

pub attach_command-Sound :
    (history : List ℕ) (id : ℕ) (fails_at : Option ℕ) (h : Held)
    → Sound history h
    → Sound history (attach_command id fails_at h)
attach_command-Sound history id fails_at h r = record {
  recent = subst (IsRecent history) (sym (attach_command-scrollback id fails_at h)) r.recent;
  streams = λ s e o. elim (attach_command-active id fails_at h) [
    | inl n ↦ r.streams s (sym n ∙ e) o
    | inr (left, t, p, a) ↦
        let q : send_replay_end left t ≡ s = ground arith in
        subst (Streams history) q (
          attached-Streams history h.scrollback t left r.recent
            (replay-sent fails_at (chunks h.scrollback) (fresh id) t left p)
            (ap (λ (x : Subscriber). x.receiving) q ∙ o))
  ];
}
