-- ===== src/Pool.antt =====
-- internal/controller/clusterpool_controller.go: the supply side. A reconcile of a pool counts its
-- instances and the leases that wait for one, and creates or deletes at most one instance.
pub mod Accounting
pub mod Naming
pub mod Scaling
pub mod Reconcile
pub mod Effects
pub mod Passes
pub mod Rule
pub mod Safety
pub mod Convergence
pub mod Census
pub mod Acts
pub mod Filling
pub mod Trimming
pub mod Frame
