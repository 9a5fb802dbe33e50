-- ===== src/Commentd/Server.antt =====
-- `handle` of crates/servers/commentd/src/server.rs: the requests of both sockets. The parsers of the
-- requests are serde's; the tasks of the connections interleave between a response and the check
-- behind it.
pub mod Lifetime
use termblog.Prelude.{
  ℕ, ◌+◌, ◌-◌, Bool, true, false, ◌||◌, ◌==◌, if◌then◌else◌, List, [], ◌∷◌, Option, none, some,
  Result, ok, err,
}
use termblog.Proto.{Frame}
use termblog.Commentd.Stored.{Env, StoreError}
use termblog.Commentd.Store.{Store, CommitIo}
use termblog.Commentd.Query.{
  PublicQuery, PublicQueryResponse, PageRequest, PageResponse, public_query, page,
}
use termblog.Commentd.Submit.{SubmitRequest, SubmitResponse, submit}
use termblog.Commentd.Moderate.{ModerateResponse, moderate}

abbrev pub kind_public_query : ℕ
kind_public_query = 1

abbrev pub kind_submit : ℕ
kind_submit = 1

abbrev pub kind_sync : ℕ
kind_sync = 2

abbrev pub kind_queue : ℕ
kind_queue = 3

abbrev pub kind_approve : ℕ
kind_approve = 4

abbrev pub kind_reject : ℕ
kind_reject = 5

pub data Side : Type 0 where
  public_side private_side : Side

-- `Frame::parse`: a payload to a request
pub record Parser : Type 0 where
  pub parse_query : List ℕ → Option PublicQuery
  pub parse_submit : List ℕ → Option SubmitRequest
  pub parse_page : List ℕ → Option PageRequest
  pub parse_ids : List ℕ → Option (List ℕ)

pub data Response : Type 0 where
  queried : PublicQueryResponse → Response
  submitted : SubmitResponse → Response
  paged : PageResponse → Response
  moderated : ModerateResponse → Response
  -- `ok: false` with the message of the store
  submit_failed moderate_failed : StoreError → Response
  -- an `ErrorResponse`
  invalid_json public_only invalid_kind : Response

abbrev after_submit : Result StoreError SubmitResponse × Store → Response × Store
after_submit (ok r, s) = (submitted r, s)
after_submit (err e, s) = (submit_failed e, s)

abbrev after_moderate : Result StoreError ModerateResponse × Store → Response × Store
after_moderate (ok r, s) = (moderated r, s)
after_moderate (err e, s) = (moderate_failed e, s)

module _ (env : Env) (parser : Parser) where
  unfoldable pub answer_public : Frame → Store → Response × Store
  answer_public frame s =
      if frame.kind == kind_public_query
      then elim (parser.parse_query frame.payload) [
        | some req ↦ (queried (public_query s req), s)
        | none ↦ (invalid_json, s)
      ]
      else (public_only, s)

  unfoldable pub answer_private : env.Instant → CommitIo → Frame → Store → Response × Store
  answer_private now io frame s =
      if frame.kind == kind_submit
      then elim (parser.parse_submit frame.payload) [
        | some req ↦ after_submit (submit env now io s req)
        | none ↦ (invalid_json, s)
      ]
      else if frame.kind == kind_sync || frame.kind == kind_queue
      then elim (parser.parse_page frame.payload) [
        | some req ↦ (paged (page s req (frame.kind == kind_queue)), s)
        | none ↦ (invalid_json, s)
      ]
      else if frame.kind == kind_approve || frame.kind == kind_reject
      then elim (parser.parse_ids frame.payload) [
        | some ids ↦ after_moderate (moderate env io s ids (frame.kind == kind_approve))
        | none ↦ (invalid_json, s)
      ]
      else (invalid_kind, s)

  -- the response of `handle` to a frame, and the store after it
  unfoldable pub answer : Side → env.Instant → CommitIo → Frame → Store → Response × Store
  unfolding answer_public answer_private
  answer public_side now io frame s = answer_public frame s
  answer private_side now io frame s = answer_private now io frame s

-- The daemon: its store, how many tasks have their response behind them and not yet the check, and
-- whether the process has exited.
pub record Daemon : Type 0 where
  pub store : Store
  pub answered : ℕ
  pub exited : Bool

-- A task takes the lock for its request, or, later, for the check of `is_poisoned`.
pub data Action (env : Env) : Type 0 where
  request : Side → env.Instant → CommitIo → Frame → Action env
  check : Action env

module _ (env : Env) (parser : Parser) where
  unfoldable pub act : Action env → Daemon → Daemon
  act (request side now io frame) d = if d.exited then d else record d {
    store = (answer env parser side now io frame d.store).1;
    answered = d.answered + 1;
  }
  act check d =
      if d.exited || d.answered == 0
      then d
      else if d.store.poisoned
      then record d { exited = true }
      else record d { answered = d.answered - 1 }

  unfoldable pub serve : List (Action env) → Daemon → Daemon
  serve [] d = d
  serve (a ∷ actions) d = serve actions (act a d)
