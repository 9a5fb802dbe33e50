-- ===== src/Statd/Store/Counts.antt =====
-- The database of crates/servers/statd/src/store.rs against the log of the events recorded in it.
use termblog.Prelude.{
  ℕ, ◌+◌, ◌≡◌, refl, ap, ◌∙◌, inl, inr, Bool, true, false, ◌&&◌, ◌||◌, if◌then◌else◌, List, [], ◌∷◌,
  Option, some, ok, length, arith, Bool-cases, Option-cases, Result-cases,
}
use termblog.Prelude.Text.{Str, eq}
use termblog.Prelude.Text.Splitting.{eq→≡}
use termblog.Commentd.Protocol.{unwrap_or}
use termblog.ContentModel.Manifest.{seen}
use termblog.Statd.Protocol.{Source, terminal_read_session, static_request}
use termblog.Statd.Validate.{Env, ValidEvent}
use termblog.Statd.Database.{Database, DatabaseLaws, same_source}
use termblog.Statd.Store.{
  next_totals, visitor_hash, increment_target, increment_article, record_event,
}

abbrev pub one_if : Bool → ℕ
one_if b = if b then 1 else 0

-- the events of a target from a source
unfoldable pub target_count : Str → Source → List ValidEvent → ℕ
target_count target source [] = 0
target_count target source (e ∷ log) =
    one_if (eq e.target target && same_source e.source source) + target_count target source log

-- the events of an article from a source
unfoldable pub article_count : Str → Str → Source → List ValidEvent → ℕ
article_count target article source [] = 0
article_count target article source (e ∷ log) =
    one_if (eq e.target target && eq e.article article && same_source e.source source)
    + article_count target article source log

-- the texts with each later repetition kept only once
unfoldable pub distinct : List Str → List Str
distinct [] = []
distinct (h ∷ hs) = let rest = distinct hs in if seen h hs then rest else h ∷ rest

module _ (env : Env) (secret : List ℕ) where
  -- the hashes of the events of a target
  unfoldable pub hashes : Str → List ValidEvent → List Str
  hashes target [] = []
  hashes target (e ∷ log) =
      let rest = hashes target log in
      if eq e.target target then visitor_hash env secret e.target e.ip ∷ rest else rest

module _ (env : Env) (secret : List ℕ) (db : Database) where
  -- The database holds the counts of the log, which has the last event first.
  pub record Represents (log : List ValidEvent) (s : db.State) : Type 0 where
    pub totals :
        (target : Str)
        → unwrap_or (db.target_totals s target) (0, 0)
          ≡ (target_count target terminal_read_session log, target_count target static_request log)
    pub articles :
        (target article : Str) (source : Source)
        → unwrap_or (db.article_total s target article source) 0
          ≡ article_count target article source log
    pub known : (target h : Str) → db.has_visitor s target h ≡ seen h (hashes env secret target log)
    pub unique :
        (target : Str) → db.visitors s target ≡ length (distinct (hashes env secret target log))

next_totals-eq-ok :
    (source : Source) (p v : ℕ × ℕ)
    → next_totals source p ≡ ok v
    → v ≡ (
      one_if (same_source source terminal_read_session) + p.0,
      one_if (same_source source static_request) + p.1,
    )
unfolding next_totals
next_totals-eq-ok terminal_read_session (a, b) v h = ground arith
next_totals-eq-ok static_request (a, b) v h = ground arith

same_source→≡ : (a b : Source) → same_source a b ≡ true → a ≡ b
same_source→≡ terminal_read_session terminal_read_session h = refl
same_source→≡ terminal_read_session static_request h = cc
same_source→≡ static_request terminal_read_session h = cc
same_source→≡ static_request static_request h = refl

module _ (db : Database) where
  increment_target-eq-ok :
      (target : Str) (source : Source) (s s' : db.State)
      → increment_target db target source s ≡ ok s'
      → (v : ℕ × ℕ) × (next_totals source (unwrap_or (db.target_totals s target) (0, 0)) ≡ ok v)
        × (db.set_target_totals target v s ≡ some s')
  unfolding increment_target
  increment_target-eq-ok target source s s' h =
      elim (Result-cases (next_totals source (unwrap_or (db.target_totals s target) (0, 0)))) [
        | inr (e, n) ↦ absurd (ground arith)
        | inl (v, n) ↦ elim (Option-cases (db.set_target_totals target v s)) [
          | inl k ↦ absurd (ground arith)
          | inr (t, k) ↦ (v, n, ground arith)
        ]
      ]

  increment_article-eq-ok :
      (target article : Str) (source : Source) (s s' : db.State)
      → increment_article db target article source s ≡ ok s'
      → db.set_article_total target article source
          (1 + unwrap_or (db.article_total s target article source) 0)
          s
        ≡ some s'
  unfolding increment_article
  increment_article-eq-ok target article source s s' h = ground arith

  -- what the statements of one event do
  record_event-eq-ok :
      (env : Env) (secret : List ℕ) (e : ValidEvent) (s s' : db.State)
      → record_event env db secret e s ≡ ok s'
      → (s1 : db.State) × (s2 : db.State) × (increment_target db e.target e.source s ≡ ok s1)
        × (increment_article db e.target e.article e.source s1 ≡ ok s2)
        × (db.add_visitor e.target (visitor_hash env secret e.target e.ip) s2 ≡ some s')
  unfolding record_event
  record_event-eq-ok env secret e s s' h =
      elim (Result-cases (increment_target db e.target e.source s)) [
        | inr (x, k) ↦ absurd (ground arith)
        | inl (s1, k) ↦ elim (Result-cases (increment_article db e.target e.article e.source s1)) [
          | inr (x, l) ↦ absurd (ground arith)
          | inl (s2, l) ↦
              elim (Option-cases
                (db.add_visitor e.target (visitor_hash env secret e.target e.ip) s2)) [
                  | inl m ↦ absurd (ground arith)
                  | inr (t, m) ↦ (s1, s2, k, l, ground arith)
                ]
        ]
      ]

unwrap_or_if :
    {A : Type 0} (b : Bool) (v d : A) (o : Option A)
    → unwrap_or (if b then some v else o) d ≡ (if b then v else unwrap_or o d)
unwrap_or_if true v d o = refl
unwrap_or_if false v d o = refl

module _ (env : Env) (secret : List ℕ) (db : Database) where
  -- what an event changes
  record Effects (e : ValidEvent) (s s' : db.State) : Type 0 where
    totals :
        (target : Str)
        → db.target_totals s' target ≡ (
            if eq e.target target
            then some (
              one_if (same_source e.source terminal_read_session)
                  + (unwrap_or (db.target_totals s e.target) (0, 0)).0,
              one_if (same_source e.source static_request)
                  + (unwrap_or (db.target_totals s e.target) (0, 0)).1,
            )
            else db.target_totals s target)
    articles :
        (target article : Str) (source : Source)
        → db.article_total s' target article source ≡ (
            if eq e.target target && eq e.article article && same_source e.source source
            then some (1 + unwrap_or (db.article_total s e.target e.article e.source) 0)
            else db.article_total s target article source)
    known :
        (target h : Str)
        → db.has_visitor s' target h ≡ (
            eq e.target target && eq h (visitor_hash env secret e.target e.ip)
            || db.has_visitor s target h)
    unique :
        (target : Str)
        → db.visitors s' target ≡ (
            if eq e.target target
              && db.has_visitor s e.target (visitor_hash env secret e.target e.ip)
            then db.visitors s target
            else if eq e.target target
            then db.visitors s target + 1
            else db.visitors s target)

module _ (env : Env) (secret : List ℕ) (db : Database) (laws : DatabaseLaws db) where
  record_event-Effects :
      (e : ValidEvent) (s s' : db.State)
      → record_event env db secret e s ≡ ok s'
      → Effects env secret db e s s'
  record_event-Effects e s s' h =
      let (s1, s2, k, l, m) = record_event-eq-ok db env secret e s s' h in
      let (v, n, w) = increment_target-eq-ok db e.target e.source s s1 k in
      let a = increment_article-eq-ok db e.target e.article e.source s1 s2 l in
      let same = next_totals-eq-ok e.source _ v n in
      record {
        totals = λ target.
            laws.target_totals-add e.target target _ s2 s' m
            ∙ laws.target_totals-set_article e.target e.article target e.source _ s1 s2 a
            ∙ laws.target_totals-set e.target target v s s1 w
            ∙ ap (λ p. if eq e.target target then some p else db.target_totals s target) same;
        articles = λ target article source.
            laws.article_total-add e.target target article _ source s2 s' m
            ∙ laws.article_total-set e.target e.article target article e.source source _ s1 s2 a
            ∙ cc (
              laws.article_total-set_target e.target target article source v s s1 w,
              laws.article_total-set_target e.target e.target e.article e.source v s s1 w,
            );
        known = λ target h.
            laws.has_visitor-add e.target target _ h s2 s' m
            ∙ cc (
              laws.has_visitor-set_article e.target e.article target h e.source _ s1 s2 a,
              laws.has_visitor-set_target e.target target h v s s1 w,
            );
        unique = λ target.
            laws.visitors-add e.target target _ s2 s' m
            ∙ cc (
              laws.has_visitor-set_article e.target e.article e.target
                  (visitor_hash env secret e.target e.ip) e.source _ s1 s2 a,
              laws.has_visitor-set_target e.target e.target (visitor_hash env secret e.target e.ip)
                  v s s1 w,
              laws.visitors-set_article e.target e.article target e.source _ s1 s2 a,
              laws.visitors-set_target e.target target v s s1 w,
            );
      }

  pub record_event-Represents :
      (e : ValidEvent) (log : List ValidEvent) (s s' : db.State)
      → Represents env secret db log s
      → record_event env db secret e s ≡ ok s'
      → Represents env secret db (e ∷ log) s'
  unfolding target_count article_count hashes distinct
  record_event-Represents e log s s' r h =
      let f = record_event-Effects e s s' h in
      record {
        totals = λ target. elim (Bool-cases (eq e.target target)) [
          | inl q ↦ ground (arith, f.totals target, r.totals target, eq→≡ e.target target)
          | inr q ↦ ground (arith, f.totals target, r.totals target)
        ];
        articles = λ target article source. ground (
          arith,
          f.articles target article source,
          r.articles target article source,
          r.articles e.target e.article e.source,
          eq→≡ e.target target,
          eq→≡ e.article article,
          same_source→≡ e.source source,
        );
        known = λ target h. ground (arith, f.known target h, r.known target h);
        unique = λ target. elim (Bool-cases (eq e.target target)) [
          | inl q ↦ ground (
            arith,
            f.unique target,
            r.unique target,
            r.known target (visitor_hash env secret e.target e.ip),
            ap (λ t. db.has_visitor s t (visitor_hash env secret e.target e.ip))
                (eq→≡ e.target target q),
          )
          | inr q ↦ ground (arith, f.unique target, r.unique target)
        ];
      }
