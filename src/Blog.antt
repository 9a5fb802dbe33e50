-- ===== src/Blog.antt =====
-- crates/tools/jailbin/src/blog: the reader inside the jail.
pub mod Comments
mod Examples
