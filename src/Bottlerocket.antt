-- ===== src/Bottlerocket.antt =====
-- projects/aws/bottlerocket-bootstrap: the containers that bootstrap a Bottlerocket host.
pub mod UserData
pub mod Host
pub mod Waiters
pub mod Pods
pub mod Samples
mod Tests
