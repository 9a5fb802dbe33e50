-- ===== src/Web.antt =====
-- crates/servers/web: the gateway of the browsers.
pub mod Sessions
mod Examples
pub mod Stats
