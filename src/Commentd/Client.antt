-- ===== src/Commentd/Client.antt =====
-- `Client::all` of crates/servers/commentd/src/client.rs: the pages of a complete snapshot. The
-- service is an argument: what it answers to the request of the given number.
mod Examples
pub mod Pages
pub mod Snapshot
use termblog.Prelude.{
  ℕ, zero, suc, ◌+◌, Bool, true, false, if◌then◌else◌, List, [], ◌++◌, Option, none, some, Result,
  ok, err,
}
use termblog.Prelude.Text.{Str}
use termblog.Commentd.Protocol.{Comment, max_limit}
use termblog.Commentd.Query.{PageRequest, PageResponse, QueryError, stale_revision}

pub data ClientError : Type 0 where
  link_failed missing_next_after_id continuously_changing out_of_fuel : ClientError
  query_failed : QueryError → ClientError

-- A service: the answer to one request, `none` if the link fails.
abbrev pub Service : Type 0
Service = ℕ → PageRequest → Option PageResponse

-- What one round over the pages ends with: the comments, an error, or a stale revision, with the
-- number of the next request.
pub data RoundEnd : Type 0 where
  complete : List Comment → RoundEnd
  failed : ClientError → RoundEnd
  stale : ℕ → RoundEnd

abbrev pub revision_or : Option Str → Str → Option Str
revision_or none r = some r
revision_or (some s) r = some s

abbrev pub is_stale_answer : QueryError → Bool
is_stale_answer stale_revision = true
is_stale_answer _ = false

-- The loop over the pages, on fuel, from request number `n` on.
unfoldable pub round : Service → ℕ → ℕ → ℕ → Option Str → List Comment → RoundEnd
round service zero n after_id revision out = failed out_of_fuel
round service (suc fuel) n after_id revision out =
    elim (service n (record { after_id = after_id; limit = some max_limit; revision = revision })) [
      | none ↦ failed link_failed
      | some res ↦ elim res.result [
        | err e ↦ if is_stale_answer e then stale (n + 1) else failed (query_failed e)
        | ok page ↦
            if page.has_more
            then elim page.next_after_id [
              | none ↦ failed missing_next_after_id
              | some next ↦
                  round service fuel (n + 1) next (revision_or revision res.revision)
                    (out ++ page.comments)
            ]
            else complete (out ++ page.comments)
      ]
    ]

-- The rounds, of which there are at most `rounds`.
unfoldable pub all_rounds : Service → ℕ → ℕ → ℕ → Result ClientError (List Comment)
all_rounds service fuel zero n = err continuously_changing
all_rounds service fuel (suc rounds) n = elim (round service fuel n 0 none []) [
  | complete comments ↦ ok comments
  | failed e ↦ err e
  | stale m ↦ all_rounds service fuel rounds m
]

-- `all`, with `fuel` for the pages of a round
unfoldable pub all_comments : Service → ℕ → Result ClientError (List Comment)
all_comments service fuel = all_rounds service fuel 5 0
