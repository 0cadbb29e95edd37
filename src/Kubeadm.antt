-- ===== src/Kubeadm.antt =====
-- projects/aws/bottlerocket-bootstrap/pkg/kubeadm: a control plane is started, or a node joins one.
-- `v` is the flag for kubeadm's verbosity, `fuel` the bound on the rounds of each wait.
pub mod Utils
pub mod Init
pub mod Join
pub mod Run
pub mod Tls
mod Tests
