-- ===== src/Statd.antt =====
-- crates/servers/statd: the counts of the reads of articles.
mod Examples
pub mod Protocol
pub mod Validate
pub mod Database
pub mod Store
