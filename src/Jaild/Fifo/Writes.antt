-- ===== src/Jaild/Fifo/Writes.antt =====
-- Whole writes to a comment FIFO (crates/servers/jaild/src/session.rs).
use termblog.Prelude.{
  ℕ, suc, ◌+◌, ◌≤◌, ◌≡◌, refl, ap, sym, ◌∙◌, inl, inr, Bool, true, false, ltb, if◌then◌else◌, List,
  [], ◌∷◌, ◌++◌, Option, some, length, is_empty, filter, concat, length-append, arith, Bool-cases,
  Option-cases,
}
use mathlib.Core.List
use termblog.Prelude.Text.{Str}
use termblog.Commentd.Protocol.{max_comment_bytes}
use termblog.Jaild.Fifo.{
  max_session_comments, Fifo, too_long, Outcome, nothing, refused, submits, buffer_fifo_bytes,
  drain_fifo, pop_byte, strip_line_end, submit_raw, finalize_fifo_write,
}

-- a FIFO before anything is written to it, after `accepted` submissions of the session
abbrev pub clean : ℕ → Fifo
clean accepted = record { payload = []; overflow = false; accepted = accepted }

-- what the buffer keeps of the bytes
abbrev buffered : List ℕ → ℕ → Fifo
buffered raw accepted =
    if ltb (max_comment_bytes + 2) (length raw)
    then record { payload = []; overflow = true; accepted = accepted }
    else record { payload = raw; overflow = false; accepted = accepted }

buffer_fifo_bytes-buffered :
    (b raw : List ℕ) (accepted : ℕ)
    → buffer_fifo_bytes b (buffered raw accepted) ≡ buffered (raw ++ b) accepted
unfolding buffer_fifo_bytes
buffer_fifo_bytes-buffered b raw accepted = ground (arith, length-append raw b)

drain_fifo-buffered :
    (bs : List (List ℕ)) (raw : List ℕ) (accepted : ℕ)
    → drain_fifo bs (buffered raw accepted) ≡ buffered (raw ++ concat bs) accepted
unfolding drain_fifo
drain_fifo-buffered [] raw accepted = ap (λ r. buffered r accepted) (sym (List.append-nil raw))
drain_fifo-buffered (b ∷ bs) raw accepted =
    ap (drain_fifo bs) (buffer_fifo_bytes-buffered b raw accepted)
    ∙ drain_fifo-buffered bs (raw ++ b) accepted
    ∙ ap (λ r. buffered r accepted) (List.append_assoc raw b (concat bs))

length-pop_byte :
    (b : ℕ) (raw front : List ℕ) → pop_byte b raw ≡ some front → length raw ≡ suc (length front)
unfolding pop_byte
length-pop_byte b [] front h = cc
length-pop_byte b (c ∷ []) front h = ground arith
length-pop_byte b (c ∷ d ∷ raw) front h = elim (Option-cases (pop_byte b (d ∷ raw))) [
  | inl n ↦ absurd (ground arith)
  | inr (f, e) ↦ ground (arith, length-pop_byte b (d ∷ raw) f e)
]

length-strip_line_end : (raw : List ℕ) → length raw ≤ length (strip_line_end raw) + 2
unfolding strip_line_end
length-strip_line_end raw = elim (Option-cases (pop_byte b'\n' raw)) [
  | inl n ↦ rw (n, strip_line_end) (omega arith)
  | inr (f, e) ↦ elim (Option-cases (pop_byte b'\r' f)) [
    | inl n ↦ rw (e, n, strip_line_end) (omega (arith, length-pop_byte b'\n' raw f e))
    | inr (g, k) ↦
        rw (e, k, strip_line_end)
          (omega (arith, length-pop_byte b'\n' raw f e, length-pop_byte b'\r' f g k))
  ]
]

module _ (from_utf8 : List ℕ → Option Str) where
  -- the writes of `bs`, and the close
  unfoldable pub written : List (List ℕ) → Fifo → Outcome × Fifo
  written bs f = finalize_fifo_write from_utf8 (drain_fifo bs f)

  -- What becomes of the bytes of a write, with nothing said of a buffer.
  unfoldable pub outcome_of : List ℕ → ℕ → Outcome × ℕ
  outcome_of raw accepted =
      let checked = submit_raw from_utf8 (strip_line_end raw) accepted in
      if is_empty raw then (nothing, accepted) else checked

  submit_raw-too_long :
      (raw : List ℕ) (accepted : ℕ)
      → ltb (max_comment_bytes + 2) (length raw) ≡ true
      → submit_raw from_utf8 (strip_line_end raw) accepted ≡ (refused too_long, accepted)
  unfolding submit_raw
  submit_raw-too_long raw accepted h = ground (arith, length-strip_line_end raw)

  finalize_fifo_write-room :
      (raw : List ℕ) (accepted : ℕ)
      → finalize_fifo_write from_utf8
          (record { payload = raw; overflow = false; accepted = accepted })
        ≡ ((outcome_of raw accepted).0, clean (outcome_of raw accepted).1)
  unfolding finalize_fifo_write outcome_of
  finalize_fifo_write-room [] accepted = refl
  finalize_fifo_write-room (c ∷ raw) accepted = refl

  outcome_of-long :
      (raw : List ℕ) (accepted : ℕ)
      → ltb (max_comment_bytes + 2) (length raw) ≡ true
      → outcome_of raw accepted ≡ (refused too_long, accepted)
  unfolding outcome_of
  outcome_of-long [] accepted h = ground arith
  outcome_of-long (c ∷ raw) accepted h = submit_raw-too_long (c ∷ raw) accepted h

  finalize_fifo_write-long :
      (accepted : ℕ)
      → finalize_fifo_write from_utf8
          (record { payload = []; overflow = true; accepted = accepted })
        ≡ (refused too_long, clean accepted)
  unfolding finalize_fifo_write
  finalize_fifo_write-long accepted = refl

  finalize_fifo_write-buffered :
      (raw : List ℕ) (accepted : ℕ)
      → finalize_fifo_write from_utf8 (buffered raw accepted)
        ≡ ((outcome_of raw accepted).0, clean (outcome_of raw accepted).1)
  finalize_fifo_write-buffered raw accepted =
      elim (Bool-cases (ltb (max_comment_bytes + 2) (length raw))) [
        | inl e ↦ rw (e, outcome_of-long raw accepted e) (finalize_fifo_write-long accepted)
        | inr e ↦ rw e (finalize_fifo_write-room raw accepted)
      ]

  -- However a write is cut into reads, and though the buffer is bounded, its outcome is that of its
  -- bytes, and the FIFO is clean after it.
  pub written-outcome_of :
      (bs : List (List ℕ)) (accepted : ℕ)
      → written bs (clean accepted)
        ≡ ((outcome_of (concat bs) accepted).0, clean (outcome_of (concat bs) accepted).1)
  unfolding written
  written-outcome_of bs accepted =
      ap (finalize_fifo_write from_utf8) (drain_fifo-buffered bs [] accepted)
      ∙ finalize_fifo_write-buffered (concat bs) accepted

  -- The outcomes of writes, one after the other: the FIFOs of a session share `accepted`, and each
  -- is clean between its writes.
  unfoldable pub session_writes : List (List (List ℕ)) → Fifo → List Outcome
  unfolding written
  session_writes [] f = []
  session_writes (bs ∷ writes) f =
      let (outcome, after) = written bs f in outcome ∷ session_writes writes after

  abbrev pub is_submission : Outcome → Bool
  is_submission nothing = false
  is_submission (refused notice) = false
  is_submission (submits text) = true

  abbrev pub submissions : List Outcome → ℕ
  submissions outcomes = length (filter is_submission outcomes)

  outcome_of-accepted :
      (raw : List ℕ) (accepted : ℕ)
      → accepted ≤ max_session_comments
      → ((outcome_of raw accepted).1 ≤ max_session_comments)
        × ((outcome_of raw accepted).1
            ≡ accepted + (if is_submission (outcome_of raw accepted).0 then 1 else 0))
  unfolding outcome_of submit_raw
  outcome_of-accepted raw accepted h = elim (Option-cases (from_utf8 (strip_line_end raw))) [
    | inl n ↦ ground (arith, n)
    | inr (text, n) ↦ ground (arith, n)
  ]

  session_writes-cons :
      (bs : List (List ℕ)) (writes : List (List (List ℕ))) (accepted : ℕ)
      → session_writes (bs ∷ writes) (clean accepted)
        ≡ (outcome_of (concat bs) accepted).0
          ∷ session_writes writes (clean (outcome_of (concat bs) accepted).1)
  unfolding session_writes
  session_writes-cons bs writes accepted =
      ap (λ (r : Outcome × Fifo). r.0 ∷ session_writes writes r.1) (written-outcome_of bs accepted)

  submissions-cons :
      (o : Outcome) (os : List Outcome)
      → submissions (o ∷ os) ≡ (if is_submission o then 1 else 0) + submissions os
  submissions-cons o os = ground arith

  session_writes-bounded :
      (writes : List (List (List ℕ))) (accepted : ℕ)
      → accepted ≤ max_session_comments
      → accepted + submissions (session_writes writes (clean accepted)) ≤ max_session_comments
  session_writes-bounded [] accepted h = unfold session_writes in omega (arith, h)
  session_writes-bounded (bs ∷ writes) accepted h =
      let (b, e) = outcome_of-accepted (concat bs) accepted h in
      let rest = session_writes-bounded writes (outcome_of (concat bs) accepted).1 b in
      let cons = session_writes-cons bs writes accepted in
      rw cons (
        omega (
          arith,
          e,
          rest,
          submissions-cons (outcome_of (concat bs) accepted).0
              (session_writes writes (clean (outcome_of (concat bs) accepted).1)),
        ))

  -- A session that has submitted nothing yet submits at most eight comments, whatever is written to
  -- its FIFOs.
  pub session_writes-submissions :
      (writes : List (List (List ℕ)))
      → submissions (session_writes writes (clean 0)) ≤ max_session_comments
  session_writes-submissions writes = omega (arith, session_writes-bounded writes 0 (omega arith))
