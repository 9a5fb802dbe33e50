-- ===== src/Web/Stats/Routes.antt =====
-- The routes that the web gateway (crates/servers/web/src/stats.rs) loads: each leads to an article of
-- its target.
use termblog.Prelude.{
  ◌≡◌, refl, ap, sym, ◌∙◌, subst, inl, inr, true, false, ltb, List, [], ◌∷◌, ◌++◌, some, Result, ok,
  err, All, arith, Option-cases, >>=-eq-ok,
}
use termblog.Prelude.Text.{Str, lit, eq, len}
use termblog.Prelude.Text.Splitting.{eq→≡, eq_refl}
use termblog.ContentModel.Validate.{PathModelError}
use termblog.ContentModel.Article.{ArticlePath, parse}
use termblog.ContentModel.Article.Exact.{parse_exact}
use termblog.ContentModel.Scope.{ContentScope, from_target, contains_article}
use termblog.ContentModel.Manifest.{parse_scope_manifest}
use termblog.ContentModel.Manifest.Sound.{parse_scope_manifest-scopes}
use termblog.ContentModel.Index.{ArticleIndexEntry, ArticleIndex, validate}
use termblog.ContentModel.Index.Sound.{IsEntry, validate_sound}
use termblog.Jaild.Stats.{find_scope}
use termblog.Statd.Protocol.{max_article_key_len}
use termblog.Web.Stats.{
  RouteBinding, Routes, RoutesError, from_model, insert_route, bind_entry, bind_entries,
  load_routes,
}

-- A route leads to an article that statd accepts for its target.
pub record IsBinding (b : RouteBinding) : Type 0 where
  pub short : ltb max_article_key_len (len b.article) ≡ false
  pub article :
      (a : ArticlePath) × (parse (b.article ++ lit ".md") ≡ ok a)
      × (a.key ≡ b.article)
      × ((s : ContentScope) × (from_target b.target ≡ ok s) × (contains_article s a ≡ true))

find_scope-of :
    (directory : Str) (scopes : List ContentScope) (s : ContentScope)
    → All (λ (x : ContentScope). from_target x.target ≡ ok x) scopes
    → find_scope directory scopes ≡ some s
    → (from_target s.target ≡ ok s) × (s.directory_rel ≡ directory)
unfolding find_scope
find_scope-of directory [] s h f = absurd (cc f)
find_scope-of directory (r ∷ scopes) s h f = elim (Option-cases (find_scope directory scopes)) [
  | inr (q, k) ↦ find_scope-of directory scopes s h.1 (k ∙ ground (arith, f, k))
  | inl n ↦
      let e : r ≡ s = ground (arith, f, n) in
      (
        subst (λ (x : ContentScope). from_target x.target ≡ ok x) e h.0,
        ap (λ (x : ContentScope). x.directory_rel) (sym e)
            ∙ eq→≡ r.directory_rel directory (ground (arith, f, n)),
      )
]

-- the key of an entry is short enough for statd
abbrev pub IsShort : ArticleIndexEntry → Type 0
IsShort e = ltb max_article_key_len (len e.key) ≡ false

abbrev pub BindsAll : Routes → Type 0
BindsAll = All (λ (p : Str × RouteBinding). IsBinding p.1)

from_model-eq-ok :
    {A : Type 0} (r : Result PathModelError A) (a : A) → from_model r ≡ ok a → r ≡ ok a
from_model-eq-ok (ok b) a h = cc h
from_model-eq-ok (err e) a h = absurd (cc h)

bound :
    (route : Str) (b : RouteBinding) (routes next : Routes)
    → insert_route route b routes ≡ ok next
    → (route, b) ∷ routes ≡ next
bound route b routes next h = ground (arith, h)

bind_entry-BindsAll :
    (scopes : List ContentScope) (e : ArticleIndexEntry) (routes next : Routes)
    → All (λ (x : ContentScope). from_target x.target ≡ ok x) scopes
    → IsEntry e
    → IsShort e
    → BindsAll routes
    → bind_entry scopes e routes ≡ ok next
    → BindsAll next
unfolding bind_entry contains_article
bind_entry-BindsAll scopes e routes next known entry short all h =
    let (a, p, key, route) = entry.article in
    let v = (parse_exact e.source_rel a).0 p in
    elim (Option-cases (find_scope a.directory_rel scopes)) [
      | inl n ↦ subst BindsAll (ground (arith, h, p, n)) all
      | inr (s, n) ↦
          let (target, directory) = find_scope-of a.directory_rel scopes s known n in
          let b : RouteBinding = record { target = s.target; article = a.key } in
          let binding : IsBinding b = record {
            short = ap (λ k. ltb max_article_key_len (len k)) key ∙ short;
            article = (
              a,
              ap parse (sym v.source_is) ∙ p,
              refl,
              (s, target, ap (eq a.directory_rel) directory ∙ eq_refl a.directory_rel),
            );
          } in
          subst BindsAll (bound e.route b routes next (ground (arith, h, p, n))) (binding, all)
    ]

end :
    (routes next : Routes)
    → ◌≡◌ {A = Result RoutesError Routes} (ok routes) (ok next)
    → routes ≡ next
end routes next h = cc h

bind_entries-BindsAll :
    (scopes : List ContentScope) (entries : List ArticleIndexEntry) (routes next : Routes)
    → All (λ (x : ContentScope). from_target x.target ≡ ok x) scopes
    → All IsEntry entries
    → All IsShort entries
    → BindsAll routes
    → bind_entries scopes entries routes ≡ ok next
    → BindsAll next
unfolding bind_entries
bind_entries-BindsAll scopes [] routes next known es short all h =
    subst BindsAll (end routes next h) all
bind_entries-BindsAll scopes (e ∷ entries) routes next known es short all h =
    let (mid, p, q) = >>=-eq-ok (bind_entry scopes e routes) _ h in
    bind_entries-BindsAll scopes entries mid next known es.1 short.1
      (bind_entry-BindsAll scopes e routes mid known es.0 short.0 all p) q

pub load_routes-BindsAll :
    (index : ArticleIndex) (manifest : Str) (routes : Routes)
    → All IsShort index.articles
    → load_routes index manifest ≡ ok routes
    → BindsAll routes
unfolding load_routes
load_routes-BindsAll index manifest routes short h =
    let (u, p, h1) = >>=-eq-ok (from_model (validate index)) _ h in
    let (scopes, q, h2) = >>=-eq-ok (from_model (parse_scope_manifest manifest)) _ h1 in
    let checked = from_model-eq-ok (validate index) u p in
    let parsed = from_model-eq-ok (parse_scope_manifest manifest) scopes q in
    let (version, entries, r1, r2, r3) = validate_sound index checked in
    bind_entries-BindsAll scopes index.articles [] routes
      (parse_scope_manifest-scopes manifest scopes parsed) entries short tt h2
