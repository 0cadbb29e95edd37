-- ===== src/ImageBuilder/Build.antt =====
-- builder: the build of an image, and the downloads for a build without a network.
pub mod Names
pub mod Setup
pub mod Bundle
pub mod Manifests
pub mod Artifacts
pub mod Commands
pub mod Providers
pub mod Image
pub mod Release
pub mod Runs
