-- ===== src/Tests.antt =====
-- A concrete API server and library, and the theorems applied to concrete objects.
mod World
mod LeaseWorld
mod PoolExamples
mod PoolRuns
mod LeaseExamples
mod InstanceExamples
mod NameExamples
mod ManagerExamples
mod BudgetExamples
mod BundleWorld
mod BundleExamples
mod ReadyExamples
