-- ===== src/Web/Examples.antt =====
-- The theorems on held sessions at concrete events.
use termblog.Prelude.{
  ◌+◌, ◌≤◌, ◌<◌, ◌≡◌, ◌⊎◌, refl, true, false, List, [], ◌∷◌, none, some, length, arith,
}
use termblog.Web.Sessions.{
  data_chunk, replay_end, Subscriber, Held, replay, remove_entry, chunks, chunks_from,
  output_chunks, push_scrollback, close_old, created, Event, looks_up, attaches, outputs, resets,
  detaches, wakes, expires, takes, step, run,
}
use termblog.Web.Sessions.Sending.{terminal_output, Streams}
use termblog.Web.Sessions.Stream.{run-Streams, run-replay_fits}
use termblog.Web.Sessions.Grace.{Owned, run-takeover, run-abandoned}

-- The first connection leaves, output goes on, a second one comes back, and there is more output.
abbrev events : List Event
events =
    outputs (1 ∷ 2 ∷ [])
    ∷ takes
    ∷ detaches 1
    ∷ outputs (3 ∷ [])
    ∷ looks_up
    ∷ attaches 2 none
    ∷ outputs (4 ∷ [])
    ∷ []

-- the second connection, after these events
abbrev second : Subscriber
second = record {
  id = 2;
  sent = data_chunk (1 ∷ 2 ∷ 3 ∷ []) ∷ replay_end ∷ data_chunk (4 ∷ []) ∷ [];
  taken = 0;
  receiving = true;
}

second-active : (run events (created 1)).active ≡ some second
unfolding run chunks chunks_from push_scrollback
second-active = refl

run-Streams_example : Streams (terminal_output events (created 1)) second
run-Streams_example = run-Streams 1 events second second-active refl

run-replay_fits_example : length (chunks (run events (created 1)).scrollback) + 1 ≤ output_chunks
run-replay_fits_example = run-replay_fits 1 events

-- The first connection leaves, its timer wakes, and the second one looks the session up: the timer waits
-- for the lock of the table.
abbrev raced : Held
raced = record {
  entry = some (record { owner = none; idle_timer = false });
  active = (created 1).active;
  scrollback = [];
  running = true;
  unstoppable = 1;
  closed = [];
}

raced-run : run (detaches 1 ∷ wakes ∷ looks_up ∷ []) (created 1) ≡ raced
unfolding run
raced-run = refl

-- the timer removes the session that the second connection owns by now
raced-removed : (run (attaches 2 none ∷ expires ∷ []) raced).entry ≡ none
unfolding run remove_entry replay chunks chunks_from
raced-removed = refl

-- the late departure of the first connection, a reset, and output
abbrev late : List Event
late = detaches 1 ∷ resets ∷ outputs (5 ∷ []) ∷ expires ∷ []

run-takeover_example :
    (Owned 2 (run (attaches 2 none ∷ late) raced)
      ⊎ (((run (attaches 2 none ∷ late) raced).entry ≡ none) × (0 < 1)))
    × ((step (attaches 2 none) raced).closed ≡ close_old (created 1).active [])
run-takeover_example =
    run-takeover 2 late raced (record { owner = none; idle_timer = false }) refl refl
      ((λ e. ground arith), (tt, (tt, (tt, tt))))

run-abandoned_example :
    (step expires (step wakes (run (detaches 1 ∷ outputs (5 ∷ []) ∷ []) (created 1)))).entry ≡ none
run-abandoned_example = run-abandoned 1 (outputs (5 ∷ []) ∷ []) (created 1) refl (tt, tt)
