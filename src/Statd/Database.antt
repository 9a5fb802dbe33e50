-- ===== src/Statd/Database.antt =====
-- The database of crates/servers/statd/src/store.rs: the statements of the source over the three
-- tables, as an interface. The counters are not negative, by the CHECKs of the schema.
use termblog.Prelude.{ℕ, ◌+◌, ◌≡◌, Bool, true, false, ◌&&◌, ◌||◌, if◌then◌else◌, List, Option, some}
use termblog.Prelude.Text.{Str, eq}
use termblog.Statd.Protocol.{Source, terminal_read_session, static_request}

-- A statement that fails, or a COMMIT that does, answers nothing.
pub record Database : Type 1 where
  pub State : Type 0
  -- whether a transaction begins, and every SELECT of it is answered
  pub begins : State → Bool
  -- SELECT terminal_read_sessions, static_requests FROM target_totals
  pub target_totals : State → Str → Option (ℕ × ℕ)
  -- INSERT INTO target_totals … ON CONFLICT DO UPDATE
  pub set_target_totals : Str → ℕ × ℕ → State → Option State
  -- SELECT total FROM article_totals
  pub article_total : State → Str → Str → Source → Option ℕ
  -- INSERT INTO article_totals … ON CONFLICT DO UPDATE
  pub set_article_total : Str → Str → Source → ℕ → State → Option State
  -- whether target_visitors has the row
  pub has_visitor : State → Str → List ℕ → Bool
  -- INSERT OR IGNORE INTO target_visitors
  pub add_visitor : Str → List ℕ → State → Option State
  -- SELECT COUNT(*) FROM target_visitors
  pub visitors : State → Str → ℕ
  -- COMMIT
  pub commits : State → Bool

-- `==` on sources
abbrev pub same_source : Source → Source → Bool
same_source terminal_read_session terminal_read_session = true
same_source terminal_read_session static_request = false
same_source static_request terminal_read_session = false
same_source static_request static_request = true

-- What SQL says of the statements: each changes one row, and no other table.
pub record DatabaseLaws (db : Database) : Type 0 where
  pub target_totals-set :
      (t u : Str) (v : ℕ × ℕ) (s s' : db.State)
      → db.set_target_totals t v s ≡ some s'
      → db.target_totals s' u ≡ (if eq t u then some v else db.target_totals s u)
  pub article_total-set_target :
      (t u a : Str) (src : Source) (v : ℕ × ℕ) (s s' : db.State)
      → db.set_target_totals t v s ≡ some s'
      → db.article_total s' u a src ≡ db.article_total s u a src
  pub has_visitor-set_target :
      (t u : Str) (h : List ℕ) (v : ℕ × ℕ) (s s' : db.State)
      → db.set_target_totals t v s ≡ some s'
      → db.has_visitor s' u h ≡ db.has_visitor s u h
  pub visitors-set_target :
      (t u : Str) (v : ℕ × ℕ) (s s' : db.State)
      → db.set_target_totals t v s ≡ some s'
      → db.visitors s' u ≡ db.visitors s u
  pub target_totals-set_article :
      (t a u : Str) (src : Source) (n : ℕ) (s s' : db.State)
      → db.set_article_total t a src n s ≡ some s'
      → db.target_totals s' u ≡ db.target_totals s u
  pub article_total-set :
      (t a u b : Str) (src dst : Source) (n : ℕ) (s s' : db.State)
      → db.set_article_total t a src n s ≡ some s'
      → db.article_total s' u b dst
        ≡ (if eq t u && eq a b && same_source src dst then some n else db.article_total s u b dst)
  pub has_visitor-set_article :
      (t a u : Str) (h : List ℕ) (src : Source) (n : ℕ) (s s' : db.State)
      → db.set_article_total t a src n s ≡ some s'
      → db.has_visitor s' u h ≡ db.has_visitor s u h
  pub visitors-set_article :
      (t a u : Str) (src : Source) (n : ℕ) (s s' : db.State)
      → db.set_article_total t a src n s ≡ some s'
      → db.visitors s' u ≡ db.visitors s u
  pub target_totals-add :
      (t u : Str) (h : List ℕ) (s s' : db.State)
      → db.add_visitor t h s ≡ some s'
      → db.target_totals s' u ≡ db.target_totals s u
  pub article_total-add :
      (t u a : Str) (h : List ℕ) (src : Source) (s s' : db.State)
      → db.add_visitor t h s ≡ some s'
      → db.article_total s' u a src ≡ db.article_total s u a src
  pub has_visitor-add :
      (t u : Str) (h k : List ℕ) (s s' : db.State)
      → db.add_visitor t h s ≡ some s'
      → db.has_visitor s' u k ≡ (eq t u && eq k h || db.has_visitor s u k)
  pub visitors-add :
      (t u : Str) (h : List ℕ) (s s' : db.State)
      → db.add_visitor t h s ≡ some s'
      → db.visitors s' u ≡ (
          if eq t u && db.has_visitor s t h
          then db.visitors s u
          else if eq t u
          then db.visitors s u + 1
          else db.visitors s u)
