-- ===== src/Instance.antt =====
-- ClusterInstanceReconciler of internal/controller/clusterinstance_controller.go, with helpers.go,
-- namespace_policy.go and platform_readiness.go beside it: its dispatch and its gates, the status
-- writes, markReady, the checks, the lease projection, and the deletion. The handlers of the two
-- backings and the teardown of their objects are arguments.
pub mod Status
pub mod Gate
pub mod Delete
pub mod Cleanup
pub mod Projection
pub mod Ready
pub mod Published
pub mod Operands
pub mod Dispatch
pub mod Handlers
pub mod Readiness
pub mod Checks
