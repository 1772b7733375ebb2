-- ===== src/Instance/Dispatch.antt =====
-- Reconcile and gatePlatformOperations of internal/controller/clusterinstance_controller.go. The
-- handlers of the two backings and their teardown are arguments.
use guestcluster.Api.{Instance, InstanceStatus, Phase, Topology, crc, hcp, other_topology}
use guestcluster.Base.{
  Bool, List, Text, [], false, if◌then◌else◌, none, not, some, true, ℤ, ◌&&◌, ◌++◌, ◌||◌, ◌∷◌,
}
use guestcluster.Instance.Delete.{Teardown, instance_finalizer, reconcile_instance_delete}
use guestcluster.Instance.Gate.{gate_namespace_provisioning}
use guestcluster.Instance.Operands.{
  OperandServer, PlatformCondition, check_hyper_converged, check_multi_cluster_engine,
}
use guestcluster.Instance.Status.{mark_failed_with_reason, update_instance_status_if_changed}
use guestcluster.Kube.{
  Condition, ConditionType, M, Outcome, Reason, Step, api, condition_of, contains_finalizer, done,
  fail, found, go_on, handle, is_deleting, message, not_found, operand_not_ready, plain,
  reconcile_error, refused, requeue, return, value, wrapped, write, ◌>>◌,
}
use guestcluster.Platform.{Library, Server}
use guestcluster.Pool.Scaling.{requeue_interval}

-- reconcileCRC, reconcileHyperShift, reconcileReadyCRC and reconcileReadyHyperShift.
pub record Backings (S : Type 0) : Type 0 where
  pub crc_handler : Instance → M S Outcome
  pub hyper_shift_handler : Instance → M S Outcome
  pub ready_crc_handler : Instance → M S Outcome
  pub ready_hyper_shift_handler : Instance → M S Outcome

unfoldable pub first_blocked_reason : List PlatformCondition → Reason
first_blocked_reason [] = operand_not_ready
first_blocked_reason (c ∷ cs) =
    let rest = first_blocked_reason cs in if not c.is_ready then c.reason else rest

unfoldable pub all_ready : List PlatformCondition → Bool
all_ready [] = true
all_ready (c ∷ cs) = c.is_ready && all_ready cs

abbrev is_crc_topology : Topology → Bool
is_crc_topology crc = true
is_crc_topology hcp = false
is_crc_topology (other_topology t) = false

abbrev is_hcp : Topology → Bool
is_hcp hcp = true
is_hcp crc = false
is_hcp (other_topology t) = false

abbrev phase_is_ready : Phase → Bool
phase_is_ready Phase.ready = true
phase_is_ready _ = false

abbrev phase_is_failed : Phase → Bool
phase_is_failed Phase.failed = true
phase_is_failed _ = false

-- The instances whose backing calls for the platform.
unfoldable pub needs_platform : Instance → Bool
needs_platform i =
    not (phase_is_failed i.status.phase)
    && (is_crc_topology i.spec.topology
        || (is_hcp i.spec.topology && not (phase_is_ready i.status.phase)))

module _ {S Q : Type 0} (srv : Server S Q) (lib : Library Q) (ops : OperandServer S) where
  unfoldable pub platform_conditions : Instance → S → List PlatformCondition
  unfolding check_hyper_converged check_multi_cluster_engine
  platform_conditions i s =
      if is_hcp i.spec.topology
      then check_hyper_converged ops s ∷ check_multi_cluster_engine ops s ∷ []
      else check_hyper_converged ops s ∷ []

  unfoldable pub set_all : ℤ → List PlatformCondition → List Condition → List Condition
  set_all generation [] acc = acc
  set_all generation (c ∷ cs) acc =
      set_all generation cs
        (lib.set_condition acc (condition_of c.kind c.is_ready c.reason c.message generation))

  -- The instance with the conditions of the platform.
  unfoldable pub with_platform : List PlatformCondition → Instance → Instance
  unfolding set_all
  with_platform cs i = record i {
    status = record i.status {
      conditions = set_all i.meta.generation cs i.status.conditions;
      observed_generation = i.meta.generation;
    };
  }

  unfoldable pub platform_blocked : List PlatformCondition → Instance → Instance
  unfolding with_platform first_blocked_reason
  platform_blocked cs i =
      let i' = with_platform cs i in
      record i' {
        status = record i'.status {
          phase = Phase.provisioning;
          conditions = lib.set_condition i'.status.conditions (
              condition_of ConditionType.ready false (first_blocked_reason cs)
                (plain "Platform dependencies are not ready") i.meta.generation);
        };
      }

  -- A status write of the gate, and what the gate returns after it.
  unfoldable pub gate_write : InstanceStatus → Instance → Step (Unit {0}) → M S (Unit {0})
  unfolding update_instance_status_if_changed
  gate_write previous i answer s =
      let r =
        update_instance_status_if_changed srv lib "updating platform readiness status" previous i
          s in
      elim r.0 [ none ↦ (answer, r.1) | some e ↦ (return (fail e), r.1) ]

  unfoldable pub gate_by_conditions : Instance → List PlatformCondition → M S (Unit {0})
  unfolding gate_write with_platform platform_blocked all_ready
  gate_by_conditions i cs =
      if not (all_ready cs)
      then gate_write i.status (platform_blocked cs i) (return (requeue requeue_interval))
      else gate_write i.status (with_platform cs i) (
          if lib.same_instance_status i.status (with_platform cs i).status
          then go_on tt
          else return done)

  unfoldable pub gate_platform_operations : Instance → M S (Unit {0})
  unfolding platform_conditions gate_by_conditions
  gate_platform_operations i s = gate_by_conditions i (platform_conditions i s) s

  module _ (teardown : Instance → S → Teardown × Instance × S) (backings : Backings S) where
    unfoldable pub by_topology : Instance → Topology → M S Outcome
    unfolding mark_failed_with_reason
    by_topology i crc =
        if phase_is_ready i.status.phase
        then backings.ready_crc_handler i
        else backings.crc_handler i
    by_topology i hcp =
        if phase_is_ready i.status.phase
        then backings.ready_hyper_shift_handler i
        else backings.hyper_shift_handler i
    by_topology i (other_topology t) =
        if phase_is_ready i.status.phase
        then backings.ready_hyper_shift_handler i
        else mark_failed_with_reason srv lib i reconcile_error
            (record { format = "unknown topology %q"; numbers = []; names = t ∷ [] })
            (message "unknown topology")

    -- Behind the provisioning gate.
    unfoldable pub reconcile_backing : Instance → M S Outcome
    unfolding needs_platform gate_platform_operations by_topology
    reconcile_backing i =
        if needs_platform i
        then (do gate_platform_operations i; by_topology i i.spec.topology)
        else by_topology i i.spec.topology

    abbrev pub with_finalizer : Instance → Instance
    with_finalizer i = record i {
      meta = record i.meta { finalizers = i.meta.finalizers ++ instance_finalizer ∷ [] };
    }

    -- From the instance that was read.
    unfoldable pub reconcile_instance : ℤ → Instance → M S Outcome
    unfolding reconcile_instance_delete gate_namespace_provisioning reconcile_backing
    reconcile_instance now i =
        if is_deleting i.meta
        then reconcile_instance_delete srv lib teardown now i
        else if not (contains_finalizer i.meta.finalizers instance_finalizer)
        then (do write "adding finalizer" (srv.update_instance (with_finalizer i)); value done)
        else do gate_namespace_provisioning srv lib now i; reconcile_backing i

    unfoldable pub reconcile : ℤ → Text → Text → S → Outcome × S
    unfolding reconcile_instance
    reconcile now ns name s = elim (srv.cached_instance ns name s) [
      | found i ↦ handle (reconcile_instance now i) s
      | refused not_found ↦ (done, s)
      | refused e ↦ (fail (wrapped "getting ClusterInstance" (api e)), s)
    ]
