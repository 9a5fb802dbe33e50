-- ===== src/ContentBuild.antt =====
-- crates/tools/content-build: the builder of the articles.
pub mod Wrap
pub mod Render
