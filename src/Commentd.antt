-- ===== src/Commentd.antt =====
-- crates/servers/commentd: the only writer of the comments.
mod Examples
pub mod Protocol
pub mod Line
pub mod Stored
pub mod Store
pub mod Submit
pub mod Decision
pub mod Moderate
pub mod Open
pub mod Query
pub mod Client
pub mod Relations
pub mod Reopen
pub mod Invariant
pub mod Server
