-- ===== src/Snow.antt =====
-- projects/aws/bottlerocket-bootstrap/pkg/providers/snow: the bootstrap of a Snow device, which runs at
-- each boot and keeps its progress in marker files.
pub mod Network
pub mod Discovery
pub mod System
pub mod Mapping
pub mod Quiet
pub mod Once
pub mod Format
mod Tests
