-- ===== src/Jaild/Worker.antt =====
-- `comment_worker` and `send_ack` of crates/servers/jaild/src/session.rs. What the client's `submit`
-- answers is an argument: the notice of a response, or nothing on an error.
use termblog.Prelude.{List, [], ◌∷◌, ◌++◌, Option, none, some}
use termblog.Prelude.Text.{Str, lit}
use termblog.Commentd.Submit.{SubmitRequest}

pub record Submission : Type 0 where
  pub target : Str
  pub line : Str

abbrev pub notice_or_unavailable : Option Str → Str
notice_or_unavailable (some notice) = notice
notice_or_unavailable none = lit "Comment not submitted: comments service temporarily unavailable"

-- what `send_ack` puts on the output
abbrev pub send_ack : Str → Str
send_ack notice = lit "\r\n" ++ notice ++ lit "\r\n"

-- the acks of the submissions, in their order
unfoldable pub comment_worker : (SubmitRequest → Option Str) → Str → List Submission → List Str
comment_worker submit ip [] = []
comment_worker submit ip (item ∷ items) =
    let request : SubmitRequest = record { target = item.target; line = item.line; ip = ip } in
    send_ack (notice_or_unavailable (submit request)) ∷ comment_worker submit ip items
