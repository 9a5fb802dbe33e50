-- ===== src/ContentModel.antt =====
-- crates/content-model/src/lib.rs: the path model that the builder and the servers share.
pub mod Validate
pub mod Article
pub mod Attachment
pub mod Scope
pub mod Manifest
pub mod Index
mod Examples
