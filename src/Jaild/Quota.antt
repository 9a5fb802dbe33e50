-- ===== src/Jaild/Quota.antt =====
-- The quota of crates/servers/jaild/src/session.rs. A session ID is the number that `NEXT_SID` had;
-- the table is an association list with at most one entry for an ID.
pub mod Bounds
use termblog.Prelude.{
  ℕ, ◌+◌, ◌%◌, ◌^◌, Bool, true, false, not, leb, ◌==◌, if◌then◌else◌, List, [], ◌∷◌, Result, ok,
  err, filter, length,
}

-- `IpAddr`
pub data IpAddr : Type 0 where
  v4 v6 : ℕ → IpAddr

-- `==` on addresses
abbrev pub same_ip : IpAddr → IpAddr → Bool
same_ip (v4 a) (v4 b) = a == b
same_ip (v4 a) (v6 b) = false
same_ip (v6 a) (v4 b) = false
same_ip (v6 a) (v6 b) = a == b

pub record Quota : Type 0 where
  pub max_total : ℕ
  pub max_per_ip : ℕ

pub record Sessions : Type 0 where
  pub next_sid : ℕ
  pub table : List (ℕ × IpAddr)

pub data QuotaError : Type 0 where
  server_full too_many_from_ip : QuotaError

-- `table.remove(&sid)`
abbrev pub remove : ℕ → List (ℕ × IpAddr) → List (ℕ × IpAddr)
remove sid = filter (λ e. not (e.0 == sid))

-- the sessions of an address
abbrev pub sessions_of : IpAddr → List (ℕ × IpAddr) → ℕ
sessions_of peer table = length (filter (λ e. same_ip e.1 peer) table)

-- `create`, up to the reservation in the table
unfoldable pub reserve : Quota → IpAddr → Sessions → Result QuotaError ℕ × Sessions
reserve quota peer s =
    let sid = s.next_sid in
    let next = (sid + 1) % 2 ^ 64 in
    if leb quota.max_total (length s.table)
    then (err server_full, record s { next_sid = next })
    else if leb quota.max_per_ip (sessions_of peer s.table)
    then (err too_many_from_ip, record s { next_sid = next })
    else (ok sid, record { next_sid = next; table = (sid, peer) ∷ remove sid s.table })

-- A session ends: its jail was not spawned, or its pump has ended.
unfoldable pub release : ℕ → Sessions → Sessions
release sid s = record s { table = remove sid s.table }

-- The sessions after any calls of the manager and ends of sessions.
pub data Reachable (quota : Quota) : Sessions → Type 0 where
  start : Reachable quota (record { next_sid = 1; table = [] })
  reserved :
      {s : Sessions} (peer : IpAddr) → Reachable quota s → Reachable quota (reserve quota peer s).1
  released : {s : Sessions} (sid : ℕ) → Reachable quota s → Reachable quota (release sid s)
