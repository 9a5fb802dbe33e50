-- ===== src/Jaild/Stats/Indexed.antt =====
-- The articles of an index by target, `articles_by_target` of crates/servers/jaild/src/jail.rs: the
-- panic on a target that is not there is kept away by the checks of the index.
use termblog.Prelude.{
  ◌≡◌, refl, ap, sym, ◌∙◌, subst, inl, inr, true, false, not, ◌==◌, List, [], ◌∷◌, ◌++◌, map, some,
  ok, guard_not, arith, Bool-cases, Option-cases, Result-cases, All, >>=-eq-ok,
}
use termblog.Prelude.Text.{Str, eq}
use termblog.Prelude.Text.Splitting.{eq→≡, eq_refl}
use termblog.ContentModel.Article.{ArticlePath, parse}
use termblog.ContentModel.Scope.{ContentScope}
use termblog.ContentModel.Index.{
  ArticleIndexEntry, ArticleIndex, validate, validate_entries, validate_entry,
}
use termblog.ContentModel.Manifest.{seen}
use termblog.Jaild.Stats.{
  ByTarget, find_scope, push, group_articles, no_articles, sorted, articles_by_target,
}

abbrev pub target_of_scope : ContentScope → Str
target_of_scope s = s.target

abbrev pub targets : ByTarget → List Str
targets [] = []
targets ((t, keys) ∷ m) = t ∷ targets m

targets-no_articles :
    (scopes : List ContentScope) → targets (map no_articles scopes) ≡ map target_of_scope scopes
targets-no_articles [] = refl
targets-no_articles (s ∷ scopes) = ap (◌∷◌ s.target) (targets-no_articles scopes)

targets-sorted : (m : ByTarget) → targets (map sorted m) ≡ targets m
targets-sorted [] = refl
targets-sorted ((t, keys) ∷ m) = ap (◌∷◌ t) (targets-sorted m)

eq_sym : (s t : Str) → eq s t ≡ false → eq t s ≡ false
eq_sym s t h = elim (Bool-cases (eq t s)) [
  | inr e ↦ e
  | inl e ↦ absurd (cc (h, eq→≡ t s e, eq_refl s))
]

pub seen_tail :
    (s t : Str) (ss : List Str) → eq t s ≡ false → seen s (t ∷ ss) ≡ true → seen s ss ≡ true
seen_tail s t ss e h = ground (arith, h, eq_sym t s e)

push-some :
    (target key : Str) (m : ByTarget)
    → seen target (targets m) ≡ true
    → (m' : ByTarget) × (push target key m ≡ some m') × (targets m' ≡ targets m)
unfolding push
push-some target key [] h = absurd (cc h)
push-some target key ((t, keys) ∷ m) h = elim (Bool-cases (eq t target)) [
  | inl e ↦ ((t, keys ++ (key ∷ [])) ∷ m, ground (arith, e), refl)
  | inr e ↦
      let (m', p, q) = push-some target key m (seen_tail target t (targets m) e h) in
      ((t, keys) ∷ m', ground (arith, e, p), ap (◌∷◌ t) q)
]

find_scope-seen :
    (directory : Str) (scopes : List ContentScope) (s : ContentScope)
    → find_scope directory scopes ≡ some s
    → seen s.target (map target_of_scope scopes) ≡ true
unfolding find_scope
find_scope-seen directory [] s h = absurd (cc h)
find_scope-seen directory (r ∷ scopes) s h = elim (Option-cases (find_scope directory scopes)) [
  | inl n ↦
      let e : r ≡ s = ground (arith, h, n) in
      subst (λ (x : ContentScope). seen x.target (map target_of_scope (r ∷ scopes)) ≡ true) e
        (ground (arith, eq_refl r.target))
  | inr (q, k) ↦
      let e : q ≡ s = ground (arith, h, k) in
      ground (arith, find_scope-seen directory scopes q k, ap target_of_scope e)
]

-- an entry whose source is a path
abbrev pub Parses : ArticleIndexEntry → Type 0
Parses entry = (a : ArticlePath) × (parse entry.source_rel ≡ ok a)

validate_entry-Parses :
    (sources keys routes : List Str) (entry : ArticleIndexEntry)
    → validate_entry sources keys routes entry ≡ ok tt
    → Parses entry
unfolding validate_entry
validate_entry-Parses sources keys routes entry h = elim (Result-cases (parse entry.source_rel)) [
  | inl p ↦ p
  | inr (x, k) ↦ absurd (ground (arith, h, k))
]

validate_entries-Parses :
    (sources keys routes : List Str) (entries : List ArticleIndexEntry)
    → validate_entries sources keys routes entries ≡ ok tt
    → All Parses entries
unfolding validate_entries
validate_entries-Parses sources keys routes [] h = tt
validate_entries-Parses sources keys routes (entry ∷ rest) h =
    let (u, p, q) = >>=-eq-ok (validate_entry sources keys routes entry) _ h in
    (
      validate_entry-Parses sources keys routes entry p,
      validate_entries-Parses (entry.source_rel ∷ sources) (entry.key ∷ keys) (entry.route ∷ routes)
          rest q,
    )

group_articles-cons :
    (scopes : List ContentScope) (entry : ArticleIndexEntry) (entries : List ArticleIndexEntry)
    (output : ByTarget) (a : ArticlePath)
    → parse entry.source_rel ≡ ok a
    → targets output ≡ map target_of_scope scopes
    → (next : ByTarget) × (group_articles scopes (entry ∷ entries) output
        ≡ group_articles scopes entries next)
      × (targets next ≡ map target_of_scope scopes)
unfolding group_articles
group_articles-cons scopes entry entries output a p t =
    elim (Option-cases (find_scope a.directory_rel scopes)) [
      | inl n ↦ (output, ground (arith, p, n), t)
      | inr (s, n) ↦
          let (m, q, k) = push-some s.target a.key output (
            subst (λ ts. seen s.target ts ≡ true) (sym t)
              (find_scope-seen a.directory_rel scopes s n)) in
          (m, ground (arith, p, n, q), k ∙ t)
    ]

group_articles-ok :
    (scopes : List ContentScope) (entries : List ArticleIndexEntry) (output : ByTarget)
    → All Parses entries
    → targets output ≡ map target_of_scope scopes
    → (m : ByTarget) × (group_articles scopes entries output ≡ ok m)
      × (targets m ≡ map target_of_scope scopes)
group_articles-ok scopes [] output h t = (output, unfold group_articles in refl, t)
group_articles-ok scopes (entry ∷ entries) output h t =
    let (next, e, u) = group_articles-cons scopes entry entries output h.0.0 h.0.1 t in
    let (m, f, v) = group_articles-ok scopes entries next h.1 u in (m, e ∙ f, v)

-- A checked index is grouped by the targets of the scopes, whatever these are: `articles_by_target`
-- neither fails nor panics, and has an entry for the target of each scope.
pub articles_by_target_total :
    (index : ArticleIndex) (scopes : List ContentScope)
    → validate index ≡ ok tt
    → (m : ByTarget) × (articles_by_target index scopes ≡ ok m)
      × (targets m ≡ map target_of_scope scopes)
unfolding articles_by_target validate
articles_by_target_total index scopes h =
    let (u, p, q) = >>=-eq-ok (guard_not (not (index.version == 1)) _) _ h in
    let (m, e, t) =
      group_articles-ok scopes index.articles (map no_articles scopes)
        (validate_entries-Parses [] [] [] index.articles q) (targets-no_articles scopes) in
    (map sorted m, ground (arith, e), targets-sorted m ∙ t)
