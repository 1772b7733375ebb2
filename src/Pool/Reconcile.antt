-- ===== src/Pool/Reconcile.antt =====
-- ClusterPoolReconciler.Reconcile and ensureCRCBundle of
-- internal/controller/clusterpool_controller.go. The mutex that Reconcile holds over its reads and
-- writes of instances makes this part one step of the manager; so does the lease controller's.
use guestcluster.Api.{
  Bundle, Instance, Lease, Pool, PoolStatus, Quota, Topology, crc, new_bundle_status,
  new_instance_status,
}
use guestcluster.Base.{
  Bool, List, Option, Text, [], false, if◌then◌else◌, is_empty, keep_if, length, none, not, pos,
  some, true, ℤ, ◌&&◌,
}
use guestcluster.Capacity.{
  NamespaceInstanceCapacity, QuotaViolation, at_limit, capacity_of, namespace_instance_limit,
  namespace_resource_limits,
}
use guestcluster.Capacity.Usage.{has_limits, resource_violation}
use guestcluster.Kube.{
  M, Outcome, api, done, fail, found, go_on, handle, is_deleting, message, named, not_found, read,
  refused, return, return_with, unless_exists, value, wrapped, ◌>>=◌, ◌>>◌,
}
use guestcluster.Platform.{Library, Server}
use guestcluster.Policy.{NamespacePolicy, policy_condition, read_namespace_policy}
use guestcluster.Pool.Accounting.{
  Supply, capacity_condition, compute_instance_accounting, compute_lease_accounting, is_positive,
  pool_need, pool_room,
}
use guestcluster.Pool.Scaling.{report, requeue_interval, scale_down_excess, scale_up_if_needed}
use guestcluster.Resources.{crc_bundle_name, default_crc_arch, matches_labels, pool_labels}

-- What Reconcile has read and computed when it comes to act.
pub record Observation (Q : Type 0) : Type 0 where
  pub instances : List Instance
  pub leases : List Lease
  pub supply : Supply
  pub pending_demand : ℤ
  pub need : ℤ
  pub room : ℤ
  pub capacity : NamespaceInstanceCapacity

abbrev is_crc : Topology → Bool
is_crc crc = true
is_crc _ = false

abbrev pub pool_instances : Text → List Instance → List Instance
pool_instances pool_name = keep_if (λ i. matches_labels (pool_labels pool_name) i.meta.labels)

-- The candidate that the quota check adds: it has no name.
abbrev pub quota_candidate : Pool → Instance
quota_candidate pool = record {
  meta = named pool.meta.namespace [];
  spec = record {
    topology = pool.spec.topology;
    pool_ref = pool.meta.name;
    template = pool.spec.template;
  };
  status = new_instance_status;
}

module _ {Q : Type 0} (lib : Library Q) where
  -- The pool with the ProvisioningAllowed condition set.
  abbrev pub labelled_pool : NamespacePolicy → Pool → Pool
  labelled_pool policy pool = record pool {
    status = record pool.status {
      conditions =
          lib.set_condition pool.status.conditions (policy_condition policy pool.meta.generation);
    };
  }

  -- The accounting part, from the lists that were read.
  unfoldable pub observe : Pool → List Instance → List (Quota Q) → List Lease → Observation Q
  observe pool all quotas leases =
      let instances = pool_instances pool.meta.name all in
      let accounting = compute_lease_accounting leases pool.meta.name in
      let supply = compute_instance_accounting instances accounting.claimed in
      record {
        instances = instances;
        leases = leases;
        supply = supply;
        pending_demand = accounting.pending_demand;
        need = pool_need pool.spec supply accounting.pending_demand;
        room = pool_room pool.spec supply;
        capacity = capacity_of (length all) (namespace_instance_limit lib quotas);
      }

  -- The quota check, made only where an instance would be created. `none` is its error.
  unfoldable pub quota_check :
      Pool → List Instance → List (Quota Q) → Observation Q → Option (Option (QuotaViolation Q))
  quota_check pool all quotas o =
      if is_positive o.need && is_positive o.room && not (at_limit o.capacity)
      then elim (namespace_resource_limits lib quotas) [
        | none ↦ none
        | some limits ↦
            if has_limits limits
            then resource_violation lib all limits (quota_candidate pool)
            else some none
      ]
      else some none

  -- The status that Reconcile writes: the counts, and the CapacityAvailable condition.
  unfoldable pub observed_pool : Pool → Observation Q → Option (QuotaViolation Q) → Pool
  observed_pool pool o violation = record pool {
    status = record {
      total_instances = o.supply.total;
      terminating_instances = o.supply.terminating;
      available_instances = o.supply.available;
      leased_instances = o.supply.leased;
      conditions =
          lib.set_condition pool.status.conditions
            (capacity_condition pool o.need o.room o.pending_demand o.capacity violation);
    };
  }

-- The CRCBundle of the pool's template.
abbrev pub wanted_bundle : Pool → Bundle
wanted_bundle pool =
    let template = pool.spec.template in
    let arch = if is_empty template.crc_arch then default_crc_arch else template.crc_arch in
    record {
      meta = named [] (crc_bundle_name template.crc_version arch);
      spec = record {
        version = template.crc_version;
        arch = arch;
        bundle_url = [];
        sha256_url = [];
        storage_class_name = template.storage_class_name;
        golden_volume_size = [];
      };
      status = new_bundle_status;
    }

module _ {S Q : Type 0} (srv : Server S Q) (lib : Library Q) where
  unfoldable pub ensure_crc_bundle : Pool → M S (Unit {0})
  ensure_crc_bundle pool s = elim (srv.cached_bundle (wanted_bundle pool).meta.name s) [
    | found b ↦ (go_on tt, s)
    | refused not_found ↦
        let r = srv.create_bundle (wanted_bundle pool) s in
        elim (unless_exists r.0) [
          | none ↦ (go_on tt, r.1)
          | some e ↦ (return (fail (wrapped "ensuring CRCBundle for pool" e)), r.1)
        ]
    | refused e ↦ (return (fail (wrapped "ensuring CRCBundle for pool" (api e))), s)
  ]

  unfoldable pub prepare_bundle : Bool → Pool → M S (Unit {0})
  unfolding ensure_crc_bundle
  prepare_bundle enabled pool =
      if enabled && is_crc pool.spec.topology && not (is_empty pool.spec.template.crc_version)
      then ensure_crc_bundle pool
      else value tt

  -- The decisions, once everything is read: at most one instance is created or deleted.
  unfoldable pub act :
      ℤ → Bool → PoolStatus → Pool → Observation Q → Option (QuotaViolation Q) → M S Outcome
  act now enabled previous pool o violation =
      if not enabled then report srv lib requeue_interval previous pool else do
        scale_up_if_needed srv lib pool previous o.instances o.need o.room o.capacity violation
        scale_down_excess srv lib now pool previous o.supply o.pending_demand
        report srv lib (pos 0) previous pool

  -- The accounting, the quota check and the decisions.
  unfoldable pub decide :
      ℤ → Bool → PoolStatus → Pool → List Instance → List (Quota Q) → List Lease → M S Outcome
  unfolding act
  decide now enabled previous pool all quotas leases =
      let o = observe lib pool all quotas leases in
      elim (quota_check lib pool all quotas o) [
        | none ↦ return_with (fail (message "namespace Guestcluster resource accounting"))
        | some violation ↦ act now enabled previous (observed_pool lib pool o violation) o violation
      ]

  -- From the reservation lock on: the live lists, the accounting, the decisions.
  unfoldable pub reconcile_supply : ℤ → Bool → PoolStatus → Pool → M S Outcome
  unfolding decide
  reconcile_supply now enabled previous pool = do
    all ← read "listing ClusterInstances in namespace" (srv.list_instances pool.meta.namespace)
    quotas ← read "listing ResourceQuotas in namespace" (srv.list_quotas pool.meta.namespace)
    leases ← read "listing ClusterLeases" (srv.list_leases pool.meta.namespace)
    decide now enabled previous pool all quotas leases

  -- From the pool that was read and is not being deleted.
  unfoldable pub reconcile_pool : ℤ → Pool → M S Outcome
  unfolding prepare_bundle reconcile_supply
  reconcile_pool now pool = do
    policy ← read_namespace_policy srv pool.meta.namespace
    prepare_bundle policy.enabled (labelled_pool lib policy pool)
    reconcile_supply now policy.enabled pool.status (labelled_pool lib policy pool)

  -- Reconcile.
  unfoldable pub reconcile : ℤ → Text → Text → S → Outcome × S
  unfolding reconcile_pool
  reconcile now namespace name s = elim (srv.cached_pool namespace name s) [
    | refused not_found ↦ (done, s)
    | refused e ↦ (fail (wrapped "getting ClusterPool" (api e)), s)
    | found pool ↦ if is_deleting pool.meta then (done, s) else handle (reconcile_pool now pool) s
  ]
