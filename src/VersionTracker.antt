-- ===== src/VersionTracker.antt =====
-- tools/version-tracker: the upgrades of the projects that the repository builds.
pub mod Types
pub mod Slices
pub mod Constants
pub mod Bodies
pub mod Github
pub mod GoVersion
pub mod Pulls
pub mod Git
pub mod Commands
pub mod EcrPublic
pub mod EksDistro
pub mod Tracker
pub mod Updates
pub mod HostContainers
pub mod Bottlerocket
pub mod Upgrade
pub mod Display
pub mod Local
pub mod Latest
pub mod Warnings
pub mod Published
pub mod Changed
pub mod Rewritten
mod Samples
mod Tests
