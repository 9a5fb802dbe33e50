-- ===== src/Statd/Protocol.antt =====
-- crates/servers/statd/src/protocol.rs: the requests to statd and its responses.
use termblog.Prelude.{ℕ, List}
use termblog.Prelude.Text.{Str}

abbrev pub max_batch_events : ℕ
max_batch_events = 256

abbrev pub max_snapshot_targets : ℕ
max_snapshot_targets = 256

abbrev pub max_snapshot_articles : ℕ
max_snapshot_articles = 1024

abbrev pub max_article_key_len : ℕ
max_article_key_len = 512

pub data Source : Type 0 where
  terminal_read_session static_request : Source

pub record RecordEvent : Type 0 where
  pub source : Source
  pub target : Str
  pub article : Str
  pub ip : Str

pub record SnapshotTargetRequest : Type 0 where
  pub target : Str
  pub articles : List Str

pub record ArticleSnapshot : Type 0 where
  pub article : Str
  pub terminal_read_sessions : ℕ
  pub static_requests : ℕ

pub record TargetSnapshot : Type 0 where
  pub target : Str
  pub terminal_read_sessions_total : ℕ
  pub static_requests_total : ℕ
  pub unique_visitors_approx : ℕ
  pub articles : List ArticleSnapshot
