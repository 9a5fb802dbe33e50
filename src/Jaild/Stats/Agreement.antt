-- ===== src/Jaild/Stats/Agreement.antt =====
-- What statd answers to a request (crates/servers/statd/src/store.rs), under the checks of jaild
-- (crates/servers/jaild/src/jail.rs).
use termblog.Prelude.{
  ◌≡◌, refl, ap, sym, ◌∙◌, subst, inl, inr, Bool, true, false, List, [], ◌∷◌, map, none, some, ok,
  all, All, length, arith, Bool-cases, >>=-eq-ok,
}
use termblog.Prelude.Text.{Str, eq}
use termblog.Prelude.Text.Splitting.{eq→≡, eq_refl}
use termblog.ContentModel.Manifest.{seen}
use termblog.ContentModel.Manifest.Sound.{Distinct}
use termblog.Statd.Protocol.{SnapshotTargetRequest, ArticleSnapshot, TargetSnapshot}
use termblog.Statd.Database.{Database}
use termblog.Statd.Validate.{sort_keys, sort_targets, validate_snapshot_request}
use termblog.Statd.Validate.Sorting.{
  eq_sym, names, seen-sort_keys, all-sort_keys, Distinct-sort_keys, Distinct-sort_targets,
  length-sort_targets, All-sort_targets,
}
use termblog.Statd.Validate.Sound.{in_order, NamesEachOnce, validate_snapshot_request_sound}
use termblog.Statd.Store.{snapshot, target_snapshot, article_snapshot}
use termblog.Jaild.Stats.Answered.{length-map}
use termblog.Jaild.Stats.{
  set_of, same_set, expected, keys_of, check_target, check_targets, validate_stats_response,
}

length-set_of : (xs : List Str) → Distinct xs → length (set_of xs) ≡ length xs
unfolding set_of
length-set_of [] d = refl
length-set_of (x ∷ xs) d = ground (arith, d.0, length-set_of xs d.1)

all-seen_behind :
    (x : Str) (xs ks : List Str)
    → all (λ k. seen k xs) ks ≡ true
    → all (λ k. seen k (x ∷ xs)) ks ≡ true
all-seen_behind x xs [] h = refl
all-seen_behind x xs (k ∷ ks) h = ground (arith, h, all-seen_behind x xs ks)

all-seen : (xs : List Str) → all (λ k. seen k xs) xs ≡ true
all-seen [] = refl
all-seen (x ∷ xs) = ground (arith, eq_refl x, all-seen_behind x xs xs (all-seen xs))

all-same : (p q : Str → Bool) (xs : List Str) → ((k : Str) → p k ≡ q k) → all p xs ≡ all q xs
all-same p q [] h = refl
all-same p q (x ∷ xs) h = ground (arith, h x, all-same p q xs h)

same_set-sort_keys : (xs : List Str) → same_set (sort_keys xs) xs ≡ true
same_set-sort_keys xs =
    let a = all-sort_keys (λ k. seen k xs) xs ∙ all-seen xs in
    let b =
      all-same (λ k. seen k (sort_keys xs)) (λ k. seen k xs) xs (λ k. seen-sort_keys k xs)
      ∙ all-seen xs in
    ground (arith, a, b)

-- a target of the response under the checks of one round
record IsExpected (request : List SnapshotTargetRequest) (r : SnapshotTargetRequest) : Type 0 where
  once : Distinct r.articles
  found :
      (articles : List Str) × (expected r.target request ≡ some articles)
      × (same_set r.articles articles ≡ true)

expected-later :
    (x : SnapshotTargetRequest) (request : List SnapshotTargetRequest) (target : Str)
    (articles : List Str)
    → expected target request ≡ some articles
    → expected target (x ∷ request) ≡ some articles
unfolding expected
expected-later x request target articles h = ground (arith, h)

expected-none :
    (request : List SnapshotTargetRequest) (target : Str)
    → seen target (names request) ≡ false
    → expected target request ≡ none
unfolding expected
expected-none [] target h = refl
expected-none (x ∷ request) target h =
    let rest = expected-none request target (ground (arith, h)) in
    elim (Bool-cases (eq x.target target)) [
      | inl e ↦ absurd (ground (arith, h, ap (eq target) (eq→≡ x.target target e), eq_refl target))
      | inr e ↦ ground (arith, rest, e)
    ]

expected-front :
    (x : SnapshotTargetRequest) (request : List SnapshotTargetRequest)
    → seen x.target (names request) ≡ false
    → expected x.target (x ∷ request) ≡ some x.articles
unfolding expected
expected-front x request h = ground (arith, expected-none request x.target h, eq_refl x.target)

IsExpected-later :
    (x : SnapshotTargetRequest) (request rs : List SnapshotTargetRequest)
    → All (IsExpected request) rs
    → All (IsExpected (x ∷ request)) rs
IsExpected-later x request [] h = tt
IsExpected-later x request (r ∷ rs) h =
    let (a, e, s) = h.0.found in
    (
      record { once = h.0.once; found = (a, expected-later x request r.target a e, s) },
      IsExpected-later x request rs h.1,
    )

in_order-IsExpected :
    (request : List SnapshotTargetRequest)
    → All NamesEachOnce request
    → Distinct (names request)
    → All (IsExpected request) (map in_order request)
in_order-IsExpected [] once d = tt
in_order-IsExpected (x ∷ request) once d = (
  record {
    once = Distinct-sort_keys x.articles once.0;
    found = (x.articles, expected-front x request d.0, same_set-sort_keys x.articles);
  },
  IsExpected-later x request (map in_order request) (in_order-IsExpected request once.1 d.1),
)

names-in_order :
    (request : List SnapshotTargetRequest) → names (map in_order request) ≡ names request
names-in_order [] = refl
names-in_order (x ∷ request) = ap (◌∷◌ x.target) (names-in_order request)

none_seen : (ks : List Str) → All (λ k. seen k [] ≡ false) ks
none_seen [] = tt
none_seen (k ∷ ks) = (refl, none_seen ks)

new_later :
    (x : Str) (xs ks : List Str)
    → All (λ k. seen k xs ≡ false) ks
    → seen x ks ≡ false
    → All (λ k. seen k (x ∷ xs) ≡ false) ks
new_later x xs [] h n = tt
new_later x xs (k ∷ ks) h n =
    (ground (arith, h.0, n, eq_sym k x), new_later x xs ks h.1 (ground (arith, n)))

module _ (db : Database) (s : db.State) where
  keys_of-target_snapshot :
      (r : SnapshotTargetRequest) → keys_of (target_snapshot db s r) ≡ r.articles
  unfolding target_snapshot article_snapshot
  keys_of-target_snapshot r = rows r.articles
    where
      rows :
          (ks : List Str)
          → map (λ (a : ArticleSnapshot). a.article) (map (article_snapshot db s r.target) ks) ≡ ks
      rows [] = refl
      rows (k ∷ ks) = ap (◌∷◌ k) (rows ks)

  check_target-ok :
      (request : List SnapshotTargetRequest) (seen_targets : List Str) (r : SnapshotTargetRequest)
      → IsExpected request r
      → seen r.target seen_targets ≡ false
      → check_target request seen_targets (target_snapshot db s r) ≡ ok tt
  unfolding check_target target_snapshot
  check_target-ok request seen_targets r h new =
      let (a, e, same) = h.found in
      let keys = keys_of-target_snapshot r in
      let len_ =
        ap (λ ks. length (set_of ks)) keys
        ∙ length-set_of r.articles h.once
        ∙ sym (length-map (article_snapshot db s r.target) r.articles) in
      let same_ = ap (λ ks. same_set ks a) keys ∙ same in ground (arith, e, new, len_, same_)

  check_targets-ok :
      (request : List SnapshotTargetRequest) (seen_targets : List Str)
      (rs : List SnapshotTargetRequest)
      → All (IsExpected request) rs
      → All (λ t. seen t seen_targets ≡ false) (names rs)
      → Distinct (names rs)
      → check_targets request seen_targets (map (target_snapshot db s) rs) ≡ ok tt
  unfolding check_targets target_snapshot
  check_targets-ok request seen_targets [] h new d = refl
  check_targets-ok request seen_targets (r ∷ rs) h new d =
      let first = check_target-ok request seen_targets r h.0 new.0 in
      let rest =
        check_targets-ok request (r.target ∷ seen_targets) rs h.1
          (new_later r.target seen_targets (names rs) new.1 d.0) d.1 in
      ground (arith, first, rest)

  -- A response that statd gives to a request passes the checks of jaild for that request, if jaild
  -- reads its time.
  pub validate_stats_response-snapshot :
      (is_rfc3339 : Str → Bool) (now : Str) (request : List SnapshotTargetRequest)
      (targets : List TargetSnapshot)
      → is_rfc3339 now ≡ true
      → snapshot db request s ≡ ok targets
      → validate_stats_response is_rfc3339 request
          (record { is_ok = true; snapshot_at = now; targets = targets; error = none })
        ≡ ok (record { is_ok = true; snapshot_at = now; targets = targets; error = none })
  unfolding validate_stats_response snapshot
  validate_stats_response-snapshot is_rfc3339 now request targets time h =
      let (valid, p, h1) = >>=-eq-ok (validate_snapshot_request request) _ h in
      let (same, once, d) = validate_snapshot_request_sound request valid p in
      let answered : map (target_snapshot db s) valid ≡ targets = ground (arith, h1) in
      let all_expected =
        All-sort_targets (IsExpected request) (map in_order request)
          (in_order-IsExpected request once d) in
      let all_distinct =
        Distinct-sort_targets (map in_order request)
          (subst Distinct (sym (names-in_order request)) d) in
      let checked =
        check_targets-ok request [] (sort_targets (map in_order request)) all_expected
          (none_seen (names (sort_targets (map in_order request)))) all_distinct in
      let checked' : check_targets request [] targets ≡ ok tt =
        subst (λ ts. check_targets request [] ts ≡ ok tt)
          (ap (map (target_snapshot db s)) (sym same) ∙ answered) checked in
      let size =
        length-set_of (names request) d
        ∙ length-map (λ (r : SnapshotTargetRequest). r.target) request in
      let size' =
        ap length (sym answered ∙ ap (map (target_snapshot db s)) same)
        ∙ length-map (target_snapshot db s) (sort_targets (map in_order request))
        ∙ length-sort_targets (map in_order request)
        ∙ length-map in_order request in
      ground (arith, time, checked', size, size')
