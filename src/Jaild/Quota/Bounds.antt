-- ===== src/Jaild/Quota/Bounds.antt =====
-- The bounds of the quota of crates/servers/jaild/src/session.rs.
use termblog.Prelude.{
  ℕ, ◌≤◌, ◌<◌, ◌≡◌, ap, inl, inr, true, List, [], ◌∷◌, length, arith, Bool-cases,
}
use termblog.Jaild.Quota.{
  IpAddr, v4, v6, same_ip, Quota, Sessions, remove, sessions_of, reserve, release, Reachable, start,
  reserved, released,
}

length-remove : (sid : ℕ) (t : List (ℕ × IpAddr)) → length (remove sid t) ≤ length t
length-remove sid [] = omega arith
length-remove sid (e ∷ t) = ground (arith, length-remove sid t)

sessions_of-remove :
    (sid : ℕ) (ip : IpAddr) (t : List (ℕ × IpAddr))
    → sessions_of ip (remove sid t) ≤ sessions_of ip t
sessions_of-remove sid ip [] = omega arith
sessions_of-remove sid ip (e ∷ t) = ground (arith, sessions_of-remove sid ip t)

same_ip→≡ : (a b : IpAddr) → same_ip a b ≡ true → a ≡ b
same_ip→≡ (v4 a) (v4 b) h = ground arith
same_ip→≡ (v4 a) (v6 b) h = cc
same_ip→≡ (v6 a) (v4 b) h = cc
same_ip→≡ (v6 a) (v6 b) h = ground arith

sessions_of-new :
    (bound sid : ℕ) (peer ip : IpAddr) (t : List (ℕ × IpAddr))
    → sessions_of peer t < bound
    → sessions_of ip t ≤ bound
    → sessions_of ip ((sid, peer) ∷ remove sid t) ≤ bound
sessions_of-new bound sid peer ip t h k = elim (Bool-cases (same_ip peer ip)) [
  | inl e ↦
      let same : sessions_of peer t ≡ sessions_of ip t =
        ap (λ i. sessions_of i t) (same_ip→≡ peer ip e) in
      rw e (omega (arith, h, same, sessions_of-remove sid ip t))
  | inr e ↦ rw e (omega (arith, k, sessions_of-remove sid ip t))
]

pub record IsBounded (quota : Quota) (s : Sessions) : Type 0 where
  pub total : length s.table ≤ quota.max_total
  pub per_ip : (ip : IpAddr) → sessions_of ip s.table ≤ quota.max_per_ip

reserve-IsBounded :
    (quota : Quota) (peer : IpAddr) (s : Sessions)
    → IsBounded quota s
    → IsBounded quota (reserve quota peer s).1
unfolding reserve
reserve-IsBounded quota peer s b = record {
  total = ground (arith, b.total, length-remove s.next_sid s.table);
  per_ip = λ ip.
      ground (arith, b.per_ip ip, sessions_of-new quota.max_per_ip s.next_sid peer ip s.table);
}

-- After any calls of `create` and ends of sessions, there are no more sessions than the quota says, in
-- all or from one address.
pub Reachable-IsBounded : (quota : Quota) (s : Sessions) → Reachable quota s → IsBounded quota s
unfolding release
Reachable-IsBounded quota _ start = record { total = omega arith; per_ip = λ ip. omega arith }
Reachable-IsBounded quota _ (reserved {s} peer r) =
    reserve-IsBounded quota peer s (Reachable-IsBounded quota s r)
Reachable-IsBounded quota _ (released {s} sid r) =
    let b = Reachable-IsBounded quota s r in
    record {
      total = omega (arith, b.total, length-remove sid s.table);
      per_ip = λ ip. omega (arith, b.per_ip ip, sessions_of-remove sid ip s.table);
    }
