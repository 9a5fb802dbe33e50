-- ===== src/Web/Sessions/Stream.antt =====
-- What the connections of a held session are sent (crates/servers/web/src/sessions.rs).
use termblog.Prelude.{
  ℕ, suc, ◌+◌, ◌≤◌, ◌≡◌, refl, ap, sym, ◌∙◌, subst, ◌⊎◌, inl, inr, Bool, true, false, ltb,
  if◌then◌else◌, List, [], ◌∷◌, ◌++◌, some, length, arith, Bool-cases, Option-cases,
}
use mathlib.Core.List
use termblog.Web.Sessions.{
  replay_end, Subscriber, Held, put, fresh, chunks, chunks_from, output_chunks, lookup, reset,
  detach, wake, expire, finish, remove_entry, take_item, drop_receiver, created, Event, looks_up,
  attaches, outputs, resets, detaches, wakes, expires, takes, drops_receiver, ends, step, run,
}
use termblog.Web.Sessions.Scrollback.{IsRecent, length-chunks}
use termblog.Web.Sessions.Sending.{
  emitted, terminal_output, Streams, Sound, output-Sound, attach_command-Sound,
}

kept-Sound :
    (history : List ℕ) (h k : Held)
    → k.scrollback ≡ h.scrollback
    → k.active ≡ h.active
    → Sound history h
    → Sound history k
kept-Sound history h k e f r = record {
  recent = subst (IsRecent history) (sym e) r.recent;
  streams = λ s a. r.streams s (sym f ∙ a);
}

taken-Streams :
    (history : List ℕ) (s : Subscriber)
    → Streams history s
    → Streams history (record s { taken = suc s.taken })
taken-Streams history s r = record {
  before = r.before;
  replayed = r.replayed;
  live = r.live;
  recent = r.recent;
  sent_is = r.sent_is;
  history_is = r.history_is;
}

take_item-active :
    (h : Held)
    → ((take_item h).active ≡ h.active)
      ⊎ ((s : Subscriber) × (h.active ≡ some s)
          × ((take_item h).active ≡ some (record s { taken = suc s.taken })))
take_item-active h = elim (Option-cases h.active) [
  | inl n ↦ inl (ground arith)
  | inr (s, a) ↦ elim (Bool-cases (ltb s.taken (length s.sent))) [
    | inl l ↦ inr (s, a, ground (arith, l))
    | inr l ↦ inl (ground (arith, l))
  ]
]

take_item-scrollback : (h : Held) → (take_item h).scrollback ≡ h.scrollback
take_item-scrollback h = ground arith

take_item-Sound : (history : List ℕ) (h : Held) → Sound history h → Sound history (take_item h)
take_item-Sound history h r = record {
  recent = subst (IsRecent history) (sym (take_item-scrollback h)) r.recent;
  streams = λ s e o. elim (take_item-active h) [
    | inl n ↦ r.streams s (sym n ∙ e) o
    | inr (t, a, f) ↦
        let q : record t { taken = suc t.taken } ≡ s = ground arith in
        subst (Streams history) q
          (taken-Streams history t (r.streams t a (ap (λ (x : Subscriber). x.receiving) q ∙ o)))
  ];
}

drop_receiver-Sound :
    (history : List ℕ) (h : Held) → Sound history h → Sound history (drop_receiver h)
drop_receiver-Sound history h r = record {
  recent = subst (IsRecent history) (ground arith) r.recent;
  streams = λ s e o. elim (Option-cases h.active) [
    | inl n ↦ absurd (ground arith)
    | inr (t, a) ↦ absurd (ground arith)
  ];
}

if-Sound :
    (history : List ℕ) (b : Bool) (h k : Held)
    → Sound history h
    → Sound history k
    → Sound history (if b then k else h)
if-Sound history true h k r t = t
if-Sound history false h k r t = r

if-Sound_output :
    (history out : List ℕ) (b : Bool) (h k : Held)
    → Sound history h
    → Sound (history ++ out) k
    → Sound (history ++ (if b then out else [])) (if b then k else h)
if-Sound_output history out true h k r t = t
if-Sound_output history out false h k r t = rw (List.append-nil history) r

step-Sound :
    (history : List ℕ) (e : Event) (h : Held)
    → Sound history h
    → Sound (history ++ emitted e h) (step e h)
unfolding step emitted lookup reset detach wake expire finish remove_entry
step-Sound history looks_up h r =
    rw (List.append-nil history) (kept-Sound history h (lookup h) (ground arith) (ground arith) r)
step-Sound history (attaches id fails_at) h r =
    rw (List.append-nil history)
      (if-Sound history h.running h _ r (attach_command-Sound history id fails_at h r))
step-Sound history (outputs b) h r =
    if-Sound_output history b h.running h _ r (output-Sound history b h r)
step-Sound history resets h r =
    rw (List.append-nil history) (kept-Sound history h (reset h) (ground arith) (ground arith) r)
step-Sound history (detaches id) h r =
    rw (List.append-nil history)
      (kept-Sound history h (detach id h) (ground arith) (ground arith) r)
step-Sound history wakes h r =
    rw (List.append-nil history) (kept-Sound history h (wake h) (ground arith) (ground arith) r)
step-Sound history expires h r =
    rw (List.append-nil history) (kept-Sound history h (expire h) (ground arith) (ground arith) r)
step-Sound history takes h r = rw (List.append-nil history) (take_item-Sound history h r)
step-Sound history drops_receiver h r =
    rw (List.append-nil history) (drop_receiver-Sound history h r)
step-Sound history ends h r =
    rw (List.append-nil history) (record { recent = r.recent; streams = λ s e o. absurd (cc e) })

run-Sound :
    (history : List ℕ) (es : List Event) (h : Held)
    → Sound history h
    → Sound (history ++ terminal_output es h) (run es h)
unfolding run terminal_output
run-Sound history [] h r = rw (List.append-nil history) r
run-Sound history (e ∷ es) h r =
    rw⁻¹ (List.append_assoc history (emitted e h) (terminal_output es (step e h)))
      (run-Sound (history ++ emitted e h) es (step e h) (step-Sound history e h r))

created-Sound : (id : ℕ) → Sound [] (created id)
unfolding chunks chunks_from
created-Sound id = record {
  recent = record { front = []; whole = refl; bounded = omega arith; full = inl refl };
  streams = λ s e o.
      let q : put replay_end (fresh id) ≡ s = ground arith in
      subst (Streams []) q (record {
        before = [];
        replayed = [];
        live = [];
        recent = record { front = []; whole = refl; bounded = omega arith; full = inl refl };
        sent_is = refl;
        history_is = refl;
      });
}

-- Whatever happens to a session since it was created, its current connection, while it receives,
-- was sent the recent output at the time it came, the end of the replay, and all output since: no
-- byte twice, none lost and none out of order.
pub run-Streams :
    (id : ℕ) (es : List Event) (s : Subscriber)
    → (run es (created id)).active ≡ some s
    → s.receiving ≡ true
    → Streams (terminal_output es (created id)) s
run-Streams id es s a o = (run-Sound [] es (created id) (created-Sound id)).streams s a o

-- Whatever happens to a session since it was created, a replay of its scrollback and the end of the
-- replay fit in the queue of a new connection, so that the forward task does not wait for it.
pub run-replay_fits :
    (id : ℕ) (es : List Event)
    → length (chunks (run es (created id)).scrollback) + 1 ≤ output_chunks
run-replay_fits id es =
    omega (arith, length-chunks _ (run-Sound [] es (created id) (created-Sound id)).recent.bounded)
