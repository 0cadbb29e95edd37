-- ===== src/VersionTracker/Latest.antt =====
-- The latest revision of a repository, as the upgrade finds it.
pub mod Newer
pub mod Pages
