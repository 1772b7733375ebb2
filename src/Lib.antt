-- ===== src/Lib.antt =====
-- Guestcluster is a Kubernetes operator that keeps pools of guest OpenShift clusters and leases
-- them out. A ClusterPool states how many instances there are to be, a ClusterInstance is one
-- guest cluster, and a ClusterLease claims one instance of a pool. Each kind has a controller;
-- the controllers talk only through the objects that the API server stores, and through one mutex
-- that the pool and the lease controller hold while they choose, create, bind or delete
-- instances.
--
-- The files, and the code that each models:
--
--   Base: lists, text, and the integers of Go (int32 and int64 with their wrap-around, durations
--     that saturate, strconv.Atoi and the decimal notation); no code of the repository.
--   Kube: errors, conditions, object metadata, the value that a Reconcile returns, and the monad
--     of early returns in which the handlers are written; an object's API version and its managed
--     fields are left out.
--   Api: api/v1alpha1/*_types.go, with the fields that the controllers read or write.
--   Resources (Names): internal/resources/common.go, the names, labels and hostnames; SHA-256 and
--     the validation of apimachinery are parameters. DnsLabels and Hostnames hold their theorems.
--   Platform and Store: what the operator calls and does not implement. Server is the API server
--     behind the client (reads that can be refused, writes that can fail after taking effect or
--     before), Library is apimachinery, controller-runtime and resource.Quantity. Both are
--     parameters of every handler; Store names the laws that the theorems rely on.
--   Policy: internal/controller/namespace_policy.go, the policy of a namespace.
--   Capacity (Usage): internal/controller/namespace_capacity.go, limits by ResourceQuota. Lowest,
--     Limits and Budget hold their theorems.
--   Pool (Accounting, Naming, Scaling, Reconcile): internal/controller/clusterpool_controller.go;
--     Effects, Acts, Passes, Rule, Safety and Frame follow a reconcile through its writes,
--     Convergence and Census count what a pool has and lacks, and Filling and Trimming follow
--     these counts through reconciles that create and that trim.
--   Lease (Match, Bind, Reconcile): internal/controller/clusterlease_controller.go; its other
--     children hold its theorems.
--   Instance (Status, Gate, Delete, Ready, Checks, Operands, Dispatch):
--     internal/controller/clusterinstance_controller.go, helpers.go and platform_readiness.go
--     beside it, the gate of namespace_policy.go, and the check of a Secret by
--     clusterinstance_crc_ownership.go; the handlers of the two backings and the teardown of
--     their objects, which also returns the instance with what it recorded in it, are arguments
--     of the dispatch. Cleanup, Projection, Handlers, Published and Readiness hold theorems.
--   Bundle (Build, Await, Reconcile): internal/controller/crcbundle_controller.go and the
--     builders of internal/resources/bundleprep.go; Moves, Rule, Phases, Steady and Failure hold
--     theorems.
--   Manager: the pool and the lease controller on one pool, as steps in any order.
--   Tests: a concrete server with its laws, and the theorems applied to concrete objects.
--
-- A handler is a function from the state of the server to the value that Reconcile returns and
-- the new state. The part of a handler that runs under the mutex is one step; the wall clock is
-- an argument of it, since a handler reads it once for each decision. A list of objects has the
-- order in which the server returns it, of which nothing is assumed. Numbers that Go keeps in an
-- int32 wrap in the model as well, and the theorems that need no wrap say so by IsInt32. The only
-- loop that is not over a list is the search for a free index of nextInstanceName: its fuel is
-- the number of used indices and one more, which is enough, since so many indices cannot all be
-- used.
--
-- Not modelled: the CRC and HyperShift backings of the instance controller, the script of the
-- preparation Job, the other builders of backing objects, the agent that runs inside a guest,
-- watches and event handlers, logs, and the text that a message puts together from its arguments.
pub mod Base
pub mod Kube
pub mod Api
pub mod Resources
pub mod Platform
pub mod Store
pub mod Policy
pub mod Capacity
pub mod Pool
pub mod Lease
pub mod Instance
pub mod Bundle
pub mod Manager
pub mod Tests
