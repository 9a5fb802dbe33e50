-- ===== src/Statd/Validate/Sound.antt =====
-- What `validate_snapshot_request` of crates/servers/statd/src/store.rs accepts.
use termblog.Prelude.{
  ℕ, ◌≡◌, ap, ◌∙◌, inl, inr, false, ltb, List, [], ◌∷◌, map, ◌++◌, ok, guard_not, All, length,
  arith, Result-cases, >>=-eq-ok,
}
use termblog.Prelude.Text.{Str, lit}
use termblog.ContentModel.Article.{parse}
use termblog.ContentModel.Scope.{ContentScope, from_target}
use termblog.ContentModel.Manifest.{seen}
use termblog.ContentModel.Manifest.Sound.{Distinct, new_behind}
use termblog.Statd.Protocol.{max_snapshot_targets, SnapshotTargetRequest}
use termblog.Statd.Validate.{
  from_path, validate_key, validate_keys, validate_targets, validate_snapshot_request, sort_keys,
  sort_targets,
}
use termblog.Statd.Validate.Sorting.{names}

-- a target with its articles sorted
abbrev pub in_order : SnapshotTargetRequest → SnapshotTargetRequest
in_order t = record { target = t.target; articles = sort_keys t.articles }

-- no article is asked for twice
abbrev pub NamesEachOnce : SnapshotTargetRequest → Type 0
NamesEachOnce t = Distinct t.articles

validate_key_new :
    (scope : ContentScope) (seen_articles : List Str) (count n : ℕ) (key : Str)
    → validate_key scope seen_articles count key ≡ ok n
    → seen key seen_articles ≡ false
unfolding validate_key
validate_key_new scope seen_articles count n key h =
    elim (Result-cases (from_path (parse (key ++ lit ".md")))) [
      | inl (a, k) ↦ ground (arith, h, k)
      | inr (x, k) ↦ absurd (ground (arith, h, k))
    ]

validate_keys_sound :
    (scope : ContentScope) (seen_articles : List Str) (count n : ℕ) (keys : List Str)
    → validate_keys scope seen_articles count keys ≡ ok n
    → All (λ k. seen k seen_articles ≡ false) keys × Distinct keys
unfolding validate_keys
validate_keys_sound scope seen_articles count n [] h = (tt, tt)
validate_keys_sound scope seen_articles count n (key ∷ keys) h =
    let (c, p, q) = >>=-eq-ok (validate_key scope seen_articles count key) _ h in
    let (later, d) = validate_keys_sound scope (key ∷ seen_articles) c n keys q in
    let (new, unlike) = new_behind key seen_articles keys later in
    ((validate_key_new scope seen_articles count c key p, new), (unlike, d))

-- what one target of an accepted request shows
validate_targets-parts :
    (seen_targets : List Str) (count : ℕ) (t : SnapshotTargetRequest)
    (ts valid : List SnapshotTargetRequest)
    → validate_targets seen_targets count (t ∷ ts) ≡ ok valid
    → (n : ℕ) × (rest : List SnapshotTargetRequest) × (seen t.target seen_targets ≡ false)
      × NamesEachOnce t
      × (validate_targets (t.target ∷ seen_targets) n ts ≡ ok rest)
      × (valid ≡ in_order t ∷ rest)
unfolding validate_targets
validate_targets-parts seen_targets count t ts valid h =
    let (scope, p, h1) = >>=-eq-ok (from_path (from_target t.target)) _ h in
    let (u, q, h2) = >>=-eq-ok (guard_not (seen t.target seen_targets) _) _ h1 in
    let (n, r, h3) = >>=-eq-ok (validate_keys scope [] count t.articles) _ h2 in
    let (rest, s, h4) = >>=-eq-ok (validate_targets (t.target ∷ seen_targets) n ts) _ h3 in
    (
      n,
      rest,
      ground (arith, q),
      (validate_keys_sound scope [] count n t.articles r).1,
      s,
      ground (arith, h4),
    )

validate_targets_sound :
    (seen_targets : List Str) (count : ℕ) (ts valid : List SnapshotTargetRequest)
    → validate_targets seen_targets count ts ≡ ok valid
    → (valid ≡ map in_order ts)
      × All NamesEachOnce ts
      × All (λ t. seen t seen_targets ≡ false) (names ts)
      × Distinct (names ts)
validate_targets_sound seen_targets count [] valid h =
    unfold validate_targets in (ground (arith, h), tt, tt, tt)
validate_targets_sound seen_targets count (t ∷ ts) valid h =
    let (n, rest, new, once, more, e) = validate_targets-parts seen_targets count t ts valid h in
    let (same, all_once, later, d) =
      validate_targets_sound (t.target ∷ seen_targets) n ts rest more in
    let (others, unlike) = new_behind t.target seen_targets (names ts) later in
    (e ∙ ap (◌∷◌ (in_order t)) same, (once, all_once), (new, others), (unlike, d))

-- An accepted request names no target twice and no article of a target twice; it is answered with its
-- targets sorted, and the articles of each sorted.
pub validate_snapshot_request_sound :
    (request valid : List SnapshotTargetRequest)
    → validate_snapshot_request request ≡ ok valid
    → (valid ≡ sort_targets (map in_order request))
      × All NamesEachOnce request
      × Distinct (names request)
unfolding validate_snapshot_request
validate_snapshot_request_sound request valid h =
    let (u, p, h1) = >>=-eq-ok (guard_not (ltb max_snapshot_targets (length request)) _) _ h in
    let (ts, q, h2) = >>=-eq-ok (validate_targets [] 0 request) _ h1 in
    let (same, once, new, d) = validate_targets_sound [] 0 request ts q in
    (ground (arith, h2, same), once, d)
