-- ===== src/Web/Sessions.antt =====
-- crates/servers/web/src/sessions.rs: the session that the gateway holds for one token, while its
-- connections come and go. The table has at most one entry for a token, and every operation reads
-- and writes the entry of its token only; `entry` is that entry.
pub mod Scrollback
pub mod Sending
pub mod Stream
pub mod Grace
use termblog.Prelude.{
  ℕ, zero, suc, ◌+◌, ◌-◌, ◌*◌, Bool, true, false, not, ◌&&◌, ltb, leb, ◌==◌, if◌then◌else◌, List,
  [], ◌∷◌, ◌++◌, Option, none, some, length, take, drop,
}
use termblog.Prelude.Text.{Str, lit}

abbrev pub output_chunks : ℕ
output_chunks = 128

abbrev pub scrollback_bytes : ℕ
scrollback_bytes = 128 * 1024

abbrev pub replay_chunk : ℕ
replay_chunk = 4096

pub data CloseReason : Type 0 where
  replaced slow_consumer : CloseReason

-- `CloseReason::message`
abbrev pub message : CloseReason → Str
message replaced = lit "replaced by reconnect"
message slow_consumer = lit "slow consumer"

pub data OutItem : Type 0 where
  data_chunk : List ℕ → OutItem
  replay_end : OutItem

-- A connection, as the forward task sees it: what was put in its queue so far, how many of these
-- items its receiver has taken out, whether the receiver is still there, and why it was closed.
pub record Subscriber : Type 0 where
  pub id : ℕ
  pub sent : List OutItem
  pub taken : ℕ
  pub receiving : Bool

pub record WebSession : Type 0 where
  pub owner : Option ℕ
  pub idle_timer : Bool

-- The entry of the token, and the state of its forward task. `idle_timer` of the entry says whether it
-- has a timer that still sleeps; `unstoppable` counts the timers that no `abort` stops any more, as
-- they are past their sleep or their handle was dropped. `closed` is what was sent to the connections'
-- `close` channels, the latest first.
pub record Held : Type 0 where
  pub entry : Option WebSession
  pub active : Option Subscriber
  pub scrollback : List ℕ
  pub running : Bool
  pub unstoppable : ℕ
  pub closed : List (ℕ × CloseReason)

abbrev pub put : OutItem → Subscriber → Subscriber
put item s = record s { sent = s.sent ++ (item ∷ []) }

-- `chunks(size + 1)`, on fuel: the length of the list is enough
unfoldable pub chunks_from : ℕ → ℕ → List ℕ → List (List ℕ)
chunks_from size zero xs = []
chunks_from size (suc fuel) [] = []
chunks_from size (suc fuel) (x ∷ xs) = (x ∷ take size xs) ∷ chunks_from size fuel (drop size xs)

unfoldable pub chunks : List ℕ → List (List ℕ)
chunks xs = chunks_from (replay_chunk - 1) (length xs) xs

-- The loop that replays the chunks, with what remains of `fails_at`: the number of items after
-- which the receiver turns out to be gone, if it does.
unfoldable pub replay : Option ℕ → List (List ℕ) → Subscriber → Bool × (Option ℕ × Subscriber)
replay fails_at [] s = (true, (fails_at, s))
replay none (c ∷ cs) s = replay none cs (put (data_chunk c) s)
replay (some zero) (c ∷ cs) s = (false, (some zero, record s { receiving = false }))
replay (some (suc n)) (c ∷ cs) s = replay (some n) cs (put (data_chunk c) s)

-- `send(OutItem::ReplayEnd)`, whose failure is ignored
abbrev pub send_replay_end : Option ℕ → Subscriber → Subscriber
send_replay_end none s = put replay_end s
send_replay_end (some zero) s = record s { receiving = false }
send_replay_end (some (suc n)) s = put replay_end s

abbrev pub fresh : ℕ → Subscriber
fresh id = record { id = id; sent = []; taken = 0; receiving = true }

abbrev pub close_old : Option Subscriber → List (ℕ × CloseReason) → List (ℕ × CloseReason)
close_old none closed = closed
close_old (some old) closed = (old.id, replaced) ∷ closed

-- `active.replace(subscriber)` and the new owner, if the token still has its entry
abbrev pub install : Subscriber → Held → Held
install subscriber h = elim h.entry [
  | none ↦ h
  | some e ↦ record h {
    entry = some (record { owner = some subscriber.id; idle_timer = false });
    active = some subscriber;
    closed = close_old h.active h.closed;
  }
]

-- the command `Attach` in `forward_output`
unfoldable pub attach_command : ℕ → Option ℕ → Held → Held
unfolding replay
attach_command id fails_at h =
    let (replayed, (left, s)) = replay fails_at (chunks h.scrollback) (fresh id) in
    if replayed then install (send_replay_end left s) h else h

-- what is left of the scrollback
unfoldable pub push_scrollback : List ℕ → List ℕ → List ℕ
push_scrollback scrollback b =
    let all = scrollback ++ b in
    if ltb scrollback_bytes (length all) then drop (length all - scrollback_bytes) all else all

-- `try_send` to the current connection, and what becomes of the connection
unfoldable pub forward : List ℕ → Held → Held
forward b h = elim h.active [
  | none ↦ h
  | some s ↦
      if not s.receiving
      then record h { active = none }
      else if leb output_chunks (length s.sent - s.taken)
      then record h { active = none; closed = (s.id, slow_consumer) ∷ h.closed }
      else record h { active = some (put (data_chunk b) s) }
]

-- a message of the terminal in `forward_output`
unfoldable pub output : List ℕ → Held → Held
unfolding forward
output b h = forward b (record h { scrollback = push_scrollback h.scrollback b })

-- the timers that `abort` does not stop, once the entry's handle is dropped or its timer wakes
abbrev pub without_handle : Option WebSession → ℕ → ℕ
without_handle none n = n
without_handle (some e) n = if e.idle_timer then suc n else n

-- `remove` of the token's entry, which drops the handle of its timer
unfoldable pub remove_entry : Held → Held
remove_entry h = record h { entry = none; unstoppable = without_handle h.entry h.unstoppable }

-- the end of `forward_output`
unfoldable pub finish : Held → Held
unfolding remove_entry
finish h = record (remove_entry h) { active = none; running = false }

-- the first part of `attach`: the entry's timer is aborted
unfoldable pub lookup : Held → Held
lookup h = elim h.entry [
  | none ↦ h
  | some e ↦ record h { entry = some (record e { idle_timer = false }) }
]

-- `==` on the owners
abbrev pub owned_by : ℕ → Option ℕ → Bool
owned_by id none = false
owned_by id (some i) = i == id

abbrev pub has_owner : Option ℕ → Bool
has_owner none = false
has_owner (some i) = true

unfoldable pub reset : Held → Held
unfolding remove_entry
reset h = elim h.entry [ none ↦ h | some e ↦ if has_owner e.owner then h else remove_entry h ]

unfoldable pub detach : ℕ → Held → Held
detach id h = elim h.entry [
  | none ↦ h
  | some e ↦
      if owned_by id e.owner
      then record h {
        entry = some (record { owner = none; idle_timer = true });
        unstoppable = without_handle h.entry h.unstoppable;
      }
      else h
]

-- `IDLE_GRACE` has passed for the entry's timer, which waits for the lock of the table
unfoldable pub wake : Held → Held
wake h = elim h.entry [
  | none ↦ h
  | some e ↦ record h {
    entry = some (record e { idle_timer = false });
    unstoppable = without_handle h.entry h.unstoppable;
  }
]

-- a timer that no `abort` has stopped removes the entry, whoever owns it by now
unfoldable pub expire : Held → Held
unfolding remove_entry
expire h =
    let removed = remove_entry h in
    if ltb 0 h.unstoppable then record removed { unstoppable = removed.unstoppable - 1 } else h

-- the receiver of the current connection takes an item out of its queue
abbrev pub take_item : Held → Held
take_item h = elim h.active [
  | none ↦ h
  | some s ↦
      if ltb s.taken (length s.sent)
      then record h { active = some (record s { taken = suc s.taken }) }
      else h
]

abbrev pub drop_receiver : Held → Held
drop_receiver h = elim h.active [
  | none ↦ h
  | some s ↦ record h { active = some (record s { receiving = false }) }
]

-- `create`, up to the loop of `forward_output`
abbrev pub created : ℕ → Held
created id = record {
  entry = some (record { owner = some id; idle_timer = false });
  active = some (put replay_end (fresh id));
  scrollback = [];
  running = true;
  unstoppable = 0;
  closed = [];
}

pub data Event : Type 0 where
  looks_up : Event
  attaches : ℕ → Option ℕ → Event
  outputs : List ℕ → Event
  resets : Event
  detaches : ℕ → Event
  wakes : Event
  expires : Event
  takes : Event
  drops_receiver : Event
  ends : Event

-- One event. The forward task takes commands and output only while it runs.
unfoldable pub step : Event → Held → Held
unfolding attach_command output lookup reset detach wake expire finish
step looks_up h = lookup h
step (attaches id fails_at) h = if h.running then attach_command id fails_at h else h
step (outputs b) h = if h.running then output b h else h
step resets h = reset h
step (detaches id) h = detach id h
step wakes h = wake h
step expires h = expire h
step takes h = take_item h
step drops_receiver h = drop_receiver h
step ends h = finish h

unfoldable pub run : List Event → Held → Held
unfolding step
run [] h = h
run (e ∷ es) h = run es (step e h)
