-- ===== src/Sources.antt =====
-- pkg/operatorsource and pkg/controller/operatorsource: the reconciliation of OperatorSource
-- objects through their phases, and the polling of the remote registries.
pub mod World
pub mod Builder
pub mod Reconcilers
pub mod Handler
pub mod Poller
pub mod Progress
