-- ===== src/Jaild/Stats/Response.antt =====
-- The file of the counts for a response that crates/servers/jaild/src/jail.rs has accepted. The checks
-- keep a panic away: the row of every article is there.
use termblog.Prelude.{
  ℕ, ◌≡◌, refl, ap, sym, ◌∙◌, subst, inl, inr, Bool, true, ◌&&◌, List, [], ◌∷◌, ◌++◌, All, map,
  some, ok, all, arith, Bool-cases, Option-cases, >>=-eq-ok, &&-true,
}
use termblog.Prelude.Text.{Str, lit, eq}
use termblog.Prelude.Text.Splitting.{eq→≡}
use termblog.ContentModel.Scope.{ContentScope}
use termblog.ContentModel.Manifest.{seen}
use termblog.Commentd.Protocol.{unwrap_or}
use termblog.Statd.Protocol.{SnapshotTargetRequest, ArticleSnapshot, TargetSnapshot}
use termblog.Jaild.Stats.{
  ByTarget, get, target_request, build_snapshot_request, SnapshotResponse, expected, same_set,
  keys_of, check_target, check_targets, validate_stats_response, find_article, article_line,
  status_lines, total_lines, article_lines, stat_snapshot_bytes, find_target,
}
use termblog.Statd.Validate.Sorting.{names}
use termblog.Jaild.Stats.Answered.{validate_stats_response-parts, find_target-asked}
use termblog.Jaild.Stats.Indexed.{target_of_scope, seen_tail}

expected_is :
    (m : ByTarget) (scopes : List ContentScope) (target : Str) (a : List Str)
    → expected target (map (target_request m) scopes) ≡ some a
    → a ≡ unwrap_or (get target m) []
unfolding expected
expected_is m [] target a h = absurd (cc h)
expected_is m (s ∷ scopes) target a h =
    elim (Option-cases (expected target (map (target_request m) scopes))) [
      | inl n ↦ ground (
        arith,
        h,
        n,
        ap (λ t. unwrap_or (get t m) []) (eq→≡ s.target target (ground (arith, h, n))),
      )
      | inr (b, k) ↦ ground (arith, h, k, expected_is m scopes target b k)
    ]

expected-some :
    (m : ByTarget) (scopes : List ContentScope) (target : Str)
    → seen target (map target_of_scope scopes) ≡ true
    → expected target (map (target_request m) scopes) ≡ some (unwrap_or (get target m) [])
unfolding expected
expected-some m [] target h = absurd (cc h)
expected-some m (s ∷ scopes) target h =
    elim (Option-cases (expected target (map (target_request m) scopes))) [
      | inl n ↦ elim (Bool-cases (eq s.target target)) [
        | inl e ↦ ground (arith, n, e, ap (λ t. unwrap_or (get t m) []) (eq→≡ s.target target e))
        | inr e ↦
            let later = expected-some m scopes target (seen_tail target s.target _ e h) in
            absurd (cc (n, later))
      ]
      | inr (a, k) ↦ ground (arith, k, expected_is m scopes target a k)
    ]

-- an accepted target has the articles that were asked for
check_target-parts :
    (request : List SnapshotTargetRequest) (seen_targets : List Str) (t : TargetSnapshot)
    → check_target request seen_targets t ≡ ok tt
    → (articles : List Str) × (expected t.target request ≡ some articles)
      × (same_set (keys_of t) articles ≡ true)
unfolding check_target
check_target-parts request seen_targets t h = elim (Option-cases (expected t.target request)) [
  | inl n ↦ absurd (ground (arith, h, n))
  | inr (a, n) ↦ (a, n, ground (arith, h, n))
]

check_targets-find :
    (request : List SnapshotTargetRequest) (seen_targets : List Str) (ts : List TargetSnapshot)
    (target : Str) (t : TargetSnapshot)
    → check_targets request seen_targets ts ≡ ok tt
    → find_target target ts ≡ some t
    → (articles : List Str) × (expected target request ≡ some articles)
      × (same_set (keys_of t) articles ≡ true)
unfolding check_targets find_target
check_targets-find request seen_targets [] target t h f = absurd (cc f)
check_targets-find request seen_targets (u ∷ ts) target t h f =
    let (unit, p, q) = >>=-eq-ok (check_target request seen_targets u) _ h in
    elim (Bool-cases (eq u.target target)) [
      | inl e ↦
          let (a, k, l) = check_target-parts request seen_targets u p in
          let same : u ≡ t = ground (arith, f, e) in
          (
            a,
            ap (λ x. expected x request) (sym (eq→≡ u.target target e)) ∙ k,
            subst (λ x. same_set (keys_of x) a ≡ true) same l,
          )
      | inr e ↦
          check_targets-find request (u.target ∷ seen_targets) ts target t q (ground (arith, f, e))
    ]

find_article-some :
    (key : Str) (rows : List ArticleSnapshot)
    → seen key (map (λ (a : ArticleSnapshot). a.article) rows) ≡ true
    → (a : ArticleSnapshot) × (find_article key rows ≡ some a)
unfolding find_article
find_article-some key [] h = absurd (cc h)
find_article-some key (r ∷ rows) h = elim (Option-cases (find_article key rows)) [
  | inr (a, k) ↦ (a, ground (arith, k))
  | inl n ↦ elim (Bool-cases (eq r.article key)) [
    | inl e ↦ (r, ground (arith, n, e))
    | inr e ↦
        let (a, k) = find_article-some key rows (seen_tail key r.article _ e h) in
        absurd (cc (n, k))
  ]
]

find_article-article :
    (key : Str) (rows : List ArticleSnapshot) (a : ArticleSnapshot)
    → find_article key rows ≡ some a
    → a.article ≡ key
unfolding find_article
find_article-article key [] a h = absurd (cc h)
find_article-article key (r ∷ rows) a h = elim (Option-cases (find_article key rows)) [
  | inr (b, k) ↦ ground (arith, h, k, find_article-article key rows b k)
  | inl n ↦
      let e : r ≡ a = ground (arith, h, n) in
      ap (λ (x : ArticleSnapshot). x.article) (sym e) ∙ eq→≡ r.article key (ground (arith, h, n))
]

-- the lines of the rows, in order
abbrev pub lines_of : (ℕ → Str) → List ArticleSnapshot → Str
lines_of show [] = []
lines_of show (a ∷ rows) = article_line show a a.article (lines_of show rows)

-- The rows that are looked up for the keys: one for each key, in order, each from the answer.
pub record RowsOf (rows : List ArticleSnapshot) (keys : List Str) (found : List ArticleSnapshot)
    : Type 0 where
  pub keys_are : map (λ (a : ArticleSnapshot). a.article) found ≡ keys
  pub answered : All (λ (a : ArticleSnapshot). find_article a.article rows ≡ some a) found

article_lines-some :
    (show : ℕ → Str) (rows : List ArticleSnapshot) (keys : List Str)
    → all (λ k. seen k (map (λ (a : ArticleSnapshot). a.article) rows)) keys ≡ true
    → (found : List ArticleSnapshot) × RowsOf rows keys found
      × (article_lines show rows keys ≡ some (lines_of show found))
unfolding article_lines
article_lines-some show rows [] h = ([], record { keys_are = refl; answered = tt }, refl)
article_lines-some show rows (key ∷ keys) h =
    let (a, k) = find_article-some key rows (ground (arith, h)) in
    let (found, r, l) = article_lines-some show rows keys (ground (arith, h)) in
    let e = find_article-article key rows a k in
    (
      a ∷ found,
      record {
        keys_are = cc (e, r.keys_are);
        answered = (ap (λ x. find_article x rows) e ∙ k, r.answered);
      },
      ground (arith, k, l, e),
    )

&&-swap : (a b : Bool) → (a && b) ≡ true → (b && a) ≡ true
&&-swap a b h = ground (arith, h)

build_snapshot_request_is :
    (scopes : List ContentScope) (m : ByTarget) (request : List SnapshotTargetRequest)
    → build_snapshot_request scopes m ≡ some request
    → request ≡ map (target_request m) scopes
unfolding build_snapshot_request
build_snapshot_request_is scopes m request h = ground (arith, h)

names-target_request :
    (m : ByTarget) (scopes : List ContentScope)
    → names (map (target_request m) scopes) ≡ map target_of_scope scopes
names-target_request m [] = refl
names-target_request m (s ∷ scopes) = ap (◌∷◌ s.target) (names-target_request m scopes)

-- What the file of the counts of a scope is: that of the target in the answer, with the rows of the
-- scope's articles.
pub record IsCounts (show : ℕ → Str) (scope : ContentScope) (keys : List Str)
    (comments_approved : ℕ) (snapshot_at : Str) (answer : List TargetSnapshot) (text : Str)
    : Type 0 where
  pub stats : TargetSnapshot
  pub answered : find_target scope.target answer ≡ some stats
  pub found : List ArticleSnapshot
  pub rows : RowsOf stats.articles keys found
  pub text_is :
      text
      ≡ status_lines show scope snapshot_at (lit "ok")
        ++ (total_lines show stats
            ++ (lit "comments_approved "
                ++ (show comments_approved ++ (b'\n' ∷ lines_of show found))))

-- If a response is accepted for the request that was built of the scopes and their articles, then for
-- each scope the answer has its target, and the file of the counts is written with the status `ok`,
-- the totals of that target, and for each article of the scope, in order, the row that the answer has
-- of it.
pub stat_snapshot_bytes_total :
    (show : ℕ → Str) (is_rfc3339 : Str → Bool) (scopes : List ContentScope) (m : ByTarget)
    (request : List SnapshotTargetRequest) (r r' : SnapshotResponse) (scope : ContentScope)
    (comments_approved : ℕ) (snapshot_at : Str)
    → build_snapshot_request scopes m ≡ some request
    → validate_stats_response is_rfc3339 request r ≡ ok r'
    → seen scope.target (map target_of_scope scopes) ≡ true
    → (text : Str) × (stat_snapshot_bytes show scope
          (unwrap_or (get scope.target m) [])
          comments_approved
          snapshot_at
          (find_target scope.target r'.targets)
        ≡ some text)
      × IsCounts show scope
          (unwrap_or (get scope.target m) [])
          comments_approved
          snapshot_at
          r'.targets
          text
unfolding stat_snapshot_bytes
stat_snapshot_bytes_total show is_rfc3339 scopes m request r r' scope n snapshot_at b v h =
    let (c, l, e) = validate_stats_response-parts is_rfc3339 request r r' v in
    let built = build_snapshot_request_is scopes m request b in
    let named = ap names built ∙ names-target_request m scopes in
    let (t, k) = find_target-asked request r.targets scope.target c l (rw named h) in
    let (a, p, q) = check_targets-find request [] r.targets scope.target t c k in
    let asked : a ≡ unwrap_or (get scope.target m) [] =
      cc (sym p ∙ ap (expected scope.target) built ∙ expected-some m scopes scope.target h) in
    let (all_seen, rest) =
      &&-true (all (λ k. seen k (keys_of t)) a) (all (λ k. seen k a) (keys_of t))
        (&&-swap (all (λ k. seen k a) (keys_of t)) _ q) in
    let (found, rows, w) =
      article_lines-some show t.articles (unwrap_or (get scope.target m) [])
        (subst (λ ks. all (λ k. seen k (keys_of t)) ks ≡ true) asked all_seen) in
    let there = ap (λ (x : SnapshotResponse). find_target scope.target x.targets) (sym e) ∙ k in
    (
      _,
      rw (there, w) refl,
      record { stats = t; answered = there; found = found; rows = rows; text_is = refl },
    )
