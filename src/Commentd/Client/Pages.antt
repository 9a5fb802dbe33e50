-- ===== src/Commentd/Client/Pages.antt =====
-- The pages that the private socket of commentd answers, by increasing ID: `Store::page` of
-- crates/servers/commentd/src/store.rs.
use termblog.Prelude.{
  ℕ, zero, suc, ◌≤◌, ◌<◌, ◌≡◌, refl, ap, inl, inr, Bool, true, false, ◌&&◌, ltb, List, [], ◌∷◌, map,
  none, some, ok, err, filter, take, drop, last, is_empty, arith, Bool-cases,
}
use termblog.Prelude.Text.{Str, eq}
use termblog.Commentd.Protocol.{Comment, max_limit, page_limit}
use termblog.Commentd.Stored.{StoredComment, view}
use termblog.Commentd.Relations.{Ascending}
use termblog.Commentd.Store.{Store}
use termblog.Commentd.Query.{Page, id_page, page_result, wanted, stale_revision}

-- the comments that are behind an ID
abbrev pub behind : ℕ → List Comment → List Comment
behind id = filter (λ (c : Comment). ltb id c.id)

-- the comments of the wanted status
unfoldable pub wanted_comments : Bool → Store → List Comment
wanted_comments awaiting s = map view (filter (λ c. wanted awaiting c.status) s.comments)

-- the IDs increase
abbrev pub Increasing : ℕ → List Comment → Type 0
Increasing lo [] = Unit
Increasing lo (c ∷ cs) = (lo < c.id) × Increasing c.id cs

pub Increasing-weaken :
    (lo hi : ℕ) (cs : List Comment) → lo ≤ hi → Increasing hi cs → Increasing lo cs
Increasing-weaken lo hi [] h k = tt
Increasing-weaken lo hi (c ∷ cs) h k = (omega (arith, h, k.0), k.1)

pub behind-all : (id lo : ℕ) (cs : List Comment) → id ≤ lo → Increasing lo cs → behind id cs ≡ cs
behind-all id lo [] h k = refl
behind-all id lo (c ∷ cs) h k = ground (arith, behind-all id c.id cs (omega (arith, h, k.0)) k.1)

pub behind-Increasing :
    (id lo : ℕ) (cs : List Comment) → Increasing lo cs → Increasing id (behind id cs)
behind-Increasing id lo [] h = tt
behind-Increasing id lo (c ∷ cs) h = elim (Bool-cases (ltb id c.id)) [
  | inl e ↦ rw (e, behind-all id c.id cs (ground (arith, e)) h.1) (ground (arith, e), h.1)
  | inr e ↦ rw e (behind-Increasing id c.id cs h.1)
]

pub behind-twice :
    (id id' : ℕ) (cs : List Comment) → id ≤ id' → behind id' (behind id cs) ≡ behind id' cs
behind-twice id id' [] h = refl
behind-twice id id' (c ∷ cs) h = ground (arith, behind-twice id id' cs h)

last_above :
    (n lo : ℕ) (cs : List Comment) (c : Comment)
    → Increasing lo cs
    → last (take n cs) ≡ some c
    → lo < c.id
last_above zero lo cs c h k = cc
last_above (suc n) lo [] c h k = cc
last_above (suc zero) lo (d ∷ cs) c h k = ground arith
last_above (suc (suc n)) lo (d ∷ []) c h k = ground arith
last_above (suc (suc n)) lo (d ∷ e ∷ cs) c h k =
    omega (arith, h.0, last_above (suc n) d.id (e ∷ cs) c h.1 k)

behind-last :
    (n lo : ℕ) (cs : List Comment) (c : Comment)
    → Increasing lo cs
    → last (take n cs) ≡ some c
    → behind c.id cs ≡ drop n cs
behind-last zero lo cs c h k = cc
behind-last (suc n) lo [] c h k = cc
behind-last (suc zero) lo (d ∷ cs) c h k = ground (arith, behind-all d.id d.id cs (omega arith) h.1)
behind-last (suc (suc n)) lo (d ∷ []) c h k = ground arith
behind-last (suc (suc n)) lo (d ∷ e ∷ cs) c h k =
    let above = last_above (suc n) d.id (e ∷ cs) c h.1 k in
    let rest = behind-last (suc n) d.id (e ∷ cs) c h.1 k in ground (arith, above, rest)

last-some :
    (n : ℕ) (cs : List Comment)
    → is_empty (drop (suc n) cs) ≡ false
    → (c : Comment) × (last (take (suc n) cs) ≡ some c)
last-some n [] h = absurd (ground arith)
last-some zero (d ∷ cs) h = (d, refl)
last-some (suc n) (d ∷ []) h = (d, refl)
last-some (suc n) (d ∷ e ∷ cs) h = last-some n (e ∷ cs) h

take_all : (n : ℕ) (cs : List Comment) → is_empty (drop n cs) ≡ true → take n cs ≡ cs
take_all zero [] h = refl
take_all zero (c ∷ cs) h = cc
take_all (suc n) [] h = refl
take_all (suc n) (c ∷ cs) h = ap (◌∷◌ c) (take_all n cs h)

-- A page is the last one and has every comment, or has the first ones, and its ID is where the
-- others begin.
pub data PageOf (limit lo : ℕ) (cs : List Comment) (p : Page) : Type 0 where
  final :
      p ≡ record { comments = cs; next_after_id = none; has_more = false } → PageOf limit lo cs p
  more :
      (id : ℕ)
      → lo < id
      → behind id cs ≡ drop limit cs
      → is_empty (drop limit cs) ≡ false
      → p ≡ record { comments = take limit cs; next_after_id = some id; has_more = true }
      → PageOf limit lo cs p

pub id_page-PageOf :
    (n lo : ℕ) (cs : List Comment) → Increasing lo cs → PageOf (suc n) lo cs (id_page (suc n) cs)
unfolding id_page
id_page-PageOf n lo cs h = elim (Bool-cases (is_empty (drop (suc n) cs))) [
  | inl e ↦ final (cc (e, take_all (suc n) cs e))
  | inr e ↦
      let (c, k) = last-some n cs e in
      more c.id (last_above (suc n) lo cs c h k) (behind-last (suc n) lo cs c h k) e (cc (e, k))
]

wanted_comments-Increasing :
    (awaiting : Bool) (lo : ℕ) (cs : List StoredComment)
    → Ascending lo cs
    → Increasing lo (map view (filter (λ c. wanted awaiting c.status) cs))
unfolding view
wanted_comments-Increasing awaiting lo [] h = tt
wanted_comments-Increasing awaiting lo (c ∷ cs) h = elim (Bool-cases (wanted awaiting c.status)) [
  | inl e ↦ rw e (h.0, wanted_comments-Increasing awaiting c.id cs h.1)
  | inr e ↦ rw e (
      Increasing-weaken lo c.id _ (omega (arith, h.0))
        (wanted_comments-Increasing awaiting c.id cs h.1))
]

pub wanted-Increasing :
    (awaiting : Bool) (s : Store)
    → Ascending 0 s.comments
    → Increasing 0 (wanted_comments awaiting s)
unfolding wanted_comments
wanted-Increasing awaiting s h = wanted_comments-Increasing awaiting 0 s.comments h

behind-view :
    (awaiting : Bool) (id : ℕ) (cs : List StoredComment)
    → map view (filter (λ c. wanted awaiting c.status && ltb id c.id) cs)
      ≡ behind id (map view (filter (λ c. wanted awaiting c.status) cs))
unfolding view
behind-view awaiting id [] = refl
behind-view awaiting id (c ∷ cs) = ground (arith, behind-view awaiting id cs)

and_false : (b : Bool) → (b && false) ≡ false
and_false true = refl
and_false false = refl

module _ (awaiting : Bool) (s : Store) where
  -- the answer to a request with the limit of the client
  pub page_result-stale :
      (id : ℕ) (r : Str)
      → eq r s.revision ≡ false
      → page_result s (record { after_id = id; limit = some max_limit; revision = some r }) awaiting
        ≡ err stale_revision
  unfolding page_result page_limit
  page_result-stale id r e = ground (arith, e)

  pub page_result-fresh :
      (id : ℕ) (r : Str)
      → eq r s.revision ≡ true
      → page_result s (record { after_id = id; limit = some max_limit; revision = some r }) awaiting
        ≡ ok (id_page max_limit (behind id (wanted_comments awaiting s)))
  unfolding page_result page_limit wanted_comments
  page_result-fresh id r e = rw (e, and_false (ltb 0 id), behind-view awaiting id s.comments) refl

  pub page_result-first :
      page_result s (record { after_id = 0; limit = some max_limit; revision = none }) awaiting
      ≡ ok (id_page max_limit (behind 0 (wanted_comments awaiting s)))
  unfolding page_result page_limit wanted_comments
  page_result-first = rw (behind-view awaiting 0 s.comments) refl
