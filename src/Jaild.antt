-- ===== src/Jaild.antt =====
-- crates/servers/jaild: the sessions of the jails.
pub mod Quota
pub mod Fifo
mod Examples
pub mod Idle
pub mod Worker
pub mod Snapshot
pub mod Stats
