-- ===== src/ImageBuilder.antt =====
-- projects/aws/image-builder: the command line tool that builds node images.
pub mod Build
pub mod Types
pub mod Constants
pub mod Files
pub mod Checks
pub mod Options
pub mod Load
pub mod Validate
mod Tests
