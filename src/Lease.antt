-- ===== src/Lease.antt =====
-- ClusterLeaseReconciler of internal/controller/clusterlease_controller.go: it matches a lease with
-- a free instance of its pool, watches its TTL, and releases the instance. The mutex that it holds
-- from the second read of the lease to the end is the pool controller's as well, so that this part
-- is one step of the manager.
pub mod Match
pub mod Bind
pub mod Reconcile
pub mod Choice
pub mod Laws
pub mod Passes
pub mod Steps
pub mod Claims
pub mod Deadline
pub mod Secrets
pub mod Frame
