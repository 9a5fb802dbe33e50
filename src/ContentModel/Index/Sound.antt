-- ===== src/ContentModel/Index/Sound.antt =====
-- What a validated index guarantees to its readers.
use termblog.Prelude.{
  true, false, ◌≡◌, List, [], ◌∷◌, map, ok, All, any, arith, Result-cases, inl, inr, >>=-eq-ok,
}
use termblog.Prelude.Text.{Str, eq, is_control}
use termblog.Prelude.Text.Splitting.{eq_iff}
use termblog.ContentModel.Article.{ArticlePath, parse}
use termblog.ContentModel.Manifest.{seen}
use termblog.ContentModel.Manifest.Sound.{Distinct, new_behind}
use termblog.ContentModel.Index.{
  ArticleIndexEntry, ArticleIndex, is_date10, validate_entry, validate_entries, validate,
}

-- An entry whose key and route are those of its source.
pub record IsEntry (e : ArticleIndexEntry) : Type 0 where
  pub article :
      (a : ArticlePath) × (parse e.source_rel ≡ ok a) × (a.key ≡ e.key) × (a.route ≡ e.route)
  pub date : is_date10 e.date10 ≡ true
  pub title : any is_control e.title ≡ false

record IsNew (sources keys routes : List Str) (e : ArticleIndexEntry) : Type 0 where
  source : seen e.source_rel sources ≡ false
  key : seen e.key keys ≡ false
  route : seen e.route routes ≡ false

entry_parts :
    (sources keys routes : List Str) (e : ArticleIndexEntry) (a : ArticlePath)
    → parse e.source_rel ≡ ok a
    → validate_entry sources keys routes e ≡ ok tt
    → (eq a.key e.key ≡ true)
      × (eq a.route e.route ≡ true)
      × (is_date10 e.date10 ≡ true)
      × (any is_control e.title ≡ false)
      × (seen e.source_rel sources ≡ false)
      × (seen e.key keys ≡ false)
      × (seen e.route routes ≡ false)
unfolding validate_entry
entry_parts sources keys routes e a p h = ground arith

validate_entry-IsEntry :
    (sources keys routes : List Str) (e : ArticleIndexEntry)
    → validate_entry sources keys routes e ≡ ok tt
    → IsEntry e × IsNew sources keys routes e
validate_entry-IsEntry sources keys routes e h = elim (Result-cases (parse e.source_rel)) [
  | inl (a, p) ↦
      let (k, r, d, t, ns, nk, nr) = entry_parts sources keys routes e a p h in
      (
        record { article = (a, p, (eq_iff _ _).0 k, (eq_iff _ _).0 r); date = d; title = t },
        record { source = ns; key = nk; route = nr },
      )
  | inr (x, p) ↦ absurd (unfold validate_entry in ground arith)
]

abbrev sources_of : List ArticleIndexEntry → List Str
sources_of = map (λ e. e.source_rel)

abbrev keys_of : List ArticleIndexEntry → List Str
keys_of = map (λ e. e.key)

abbrev routes_of : List ArticleIndexEntry → List Str
routes_of = map (λ e. e.route)

record AreEntries (sources keys routes : List Str) (es : List ArticleIndexEntry) : Type 0 where
  entries : All IsEntry es
  new_sources : All (λ s. seen s sources ≡ false) (sources_of es)
  new_keys : All (λ s. seen s keys ≡ false) (keys_of es)
  new_routes : All (λ s. seen s routes ≡ false) (routes_of es)
  distinct_sources : Distinct (sources_of es)
  distinct_keys : Distinct (keys_of es)
  distinct_routes : Distinct (routes_of es)

validate_entries-AreEntries :
    (sources keys routes : List Str) (es : List ArticleIndexEntry)
    → validate_entries sources keys routes es ≡ ok tt
    → AreEntries sources keys routes es
unfolding validate_entries
validate_entries-AreEntries sources keys routes [] h = record {
  entries = tt;
  new_sources = tt;
  new_keys = tt;
  new_routes = tt;
  distinct_sources = tt;
  distinct_keys = tt;
  distinct_routes = tt;
}
validate_entries-AreEntries sources keys routes (e ∷ es) h =
    let (u, first, later) = >>=-eq-ok (validate_entry sources keys routes e) _ h in
    let (entry, new) = validate_entry-IsEntry sources keys routes e first in
    let w =
      validate_entries-AreEntries (e.source_rel ∷ sources) (e.key ∷ keys) (e.route ∷ routes) es
        later in
    let (ns, ds) = new_behind e.source_rel sources (sources_of es) w.new_sources in
    let (nk, dk) = new_behind e.key keys (keys_of es) w.new_keys in
    let (nr, dr) = new_behind e.route routes (routes_of es) w.new_routes in
    record {
      entries = (entry, w.entries);
      new_sources = (new.source, ns);
      new_keys = (new.key, nk);
      new_routes = (new.route, nr);
      distinct_sources = (ds, w.distinct_sources);
      distinct_keys = (dk, w.distinct_keys);
      distinct_routes = (dr, w.distinct_routes);
    }

-- A validated index has version 1; in each entry the source parses to the key and the route that
-- stand beside it, the date has the form of ten bytes and the title no control character; and no
-- source, no key and no route stands twice.
pub validate_sound :
    (index : ArticleIndex)
    → validate index ≡ ok tt
    → (index.version ≡ 1)
      × All IsEntry index.articles
      × Distinct (map (λ e. e.source_rel) index.articles)
      × Distinct (map (λ e. e.key) index.articles)
      × Distinct (map (λ e. e.route) index.articles)
unfolding validate
validate_sound index h =
    let version : index.version ≡ 1 = ground arith in
    let w = validate_entries-AreEntries [] [] [] index.articles (ground arith) in
    (version, w.entries, w.distinct_sources, w.distinct_keys, w.distinct_routes)
