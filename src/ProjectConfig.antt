-- ===== src/ProjectConfig.antt =====
-- internal/projectconfig: what a project's configuration files say, and the checks on them.
pub mod Metadata
pub mod Overlay
pub mod Sources
pub mod Publish
pub mod Repos
pub mod Project
mod Tests
