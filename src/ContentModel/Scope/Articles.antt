-- ===== src/ContentModel/Scope/Articles.antt =====
-- Which articles a scope holds, read off their routes.
use mathlib.Core.List.{append_assoc}
use termblog.Prelude.{true, ◌≡◌, ◌↔◌, ap, sym, ◌∙◌, subst, [], ◌∷◌, ◌++◌, ok}
use termblog.Prelude.Text.{Str, lit, rsplit_once}
use termblog.Prelude.Text.Splitting.{eq_iff, rsplit_once_whole, rsplit_once_last}
use termblog.ContentModel.Validate.{slash, strip_slashes}
use termblog.ContentModel.Validate.Relative.{IsSlugPath, join-ne-nil, slugs-IsPlain}
use termblog.ContentModel.Validate.Laws.{IsSlug, IsSlug-IsPlain}
use termblog.ContentModel.Article.{ArticlePath, parent_or_root, parse}
use termblog.ContentModel.Article.Mapping.{InDirectory, at_root, below}
use termblog.ContentModel.Article.Exact.{parse_exact, parent_of_key}
use termblog.ContentModel.Attachment.{target_of}
use termblog.ContentModel.Scope.{ContentScope, from_target, contains_article}
use termblog.ContentModel.Scope.Laws.{scope_of, from_target_exact, strip_slashes-wrap}

empty_no-IsSlugPath : ¬ IsSlugPath []
empty_no-IsSlugPath p =
    join-ne-nil p.segments (slugs-IsPlain p.segments p.slugs) p.ne_nil (sym p.joined)

route_below :
    (d key : Str)
    → InDirectory d key
    → (n : Str) × IsSlug n × (lit "/" ++ key ++ lit "/" ≡ target_of d ++ n ++ lit "/")
unfolding target_of
route_below d key (at_root e v) = (key, v, rw e)
route_below [] key (below n v p e) = absurd (empty_no-IsSlugPath p)
route_below (c ∷ d) key (below n v p e) = (n, v, rw e (simp append_assoc))

inner_of_route : (a b : Str) → lit "/" ++ a ++ lit "/" ≡ lit "/" ++ b ++ lit "/" → a ≡ b
inner_of_route a b e = cc (strip_slashes-wrap a, strip_slashes-wrap b, ap strip_slashes e)

directory_of_route :
    (d name key : Str)
    → IsSlug name
    → lit "/" ++ key ++ lit "/" ≡ target_of d ++ name ++ lit "/"
    → parent_or_root (rsplit_once slash key) ≡ d
unfolding target_of
directory_of_route [] name key v e =
    rw (inner_of_route key name e, rsplit_once_whole slash name (IsSlug-IsPlain name v).no_slash)
directory_of_route (c ∷ d) name key v e =
    let key_is : key ≡ (c ∷ d) ++ (slash ∷ name) =
      inner_of_route key ((c ∷ d) ++ (slash ∷ name)) (e ∙ simp append_assoc) in
    rw (key_is, rsplit_once_last slash (c ∷ d) name (IsSlug-IsPlain name v).no_slash)

-- A scope holds an article exactly if the article's route is the scope's target with one slug, and a
-- slash, behind it: articles of deeper directories are not in it.
pub contains_article_iff :
    (t source : Str) (s : ContentScope) (a : ArticlePath)
    → from_target t ≡ ok s
    → parse source ≡ ok a
    → (contains_article s a ≡ true) ↔ ((n : Str) × IsSlug n × (a.route ≡ t ++ n ++ lit "/"))
unfolding contains_article scope_of
contains_article_iff t source s a h k =
    let (d, v, t_is, s_is) = (from_target_exact t s).0 h in
    let w = (parse_exact source a).0 k in
    (
      λ c.
          let e : a.directory_rel ≡ d =
            (eq_iff _ _).0 c ∙ ap (λ (r : ContentScope). r.directory_rel) s_is in
          let (n, slug, route) =
            route_below d a.key (subst (λ r. InDirectory r a.key) e w.directory) in
          (n, slug, w.route_is ∙ rw t_is route),
      λ c.
          let (n, slug, route) = c in
          let e = directory_of_route d n a.key slug (sym w.route_is ∙ rw (← t_is) route) in
          (eq_iff _ _).1 (
            sym (parent_of_key a.directory_rel a.key w.directory)
            ∙ e
            ∙ ap (λ (r : ContentScope). r.directory_rel) (sym s_is)),
    )
