-- ===== src/Instance/Status.antt =====
-- updateStatusIfChanged, markFailedWithReason and reconcileLeaseRefProjection of
-- internal/controller/clusterinstance_controller.go.
use guestcluster.Api.{Instance, InstanceStatus, Lease, Phase}
use guestcluster.Base.{
  Bool, List, Option, String, Text, [], false, if◌then◌else◌, none, some, text_eq, true, ◌∷◌,
}
use guestcluster.Kube.{
  ConditionType, Error, M, Message, Outcome, Reason, agent_job_failed, api, cause, condition_of,
  crc_agent, done, fail, is_deleting, read, return, return_with, value, wrapped, write, ◌>>=◌, ◌>>◌,
}
use guestcluster.Platform.{Library, Server}
use guestcluster.Pool.Scaling.{requeue_interval}

module _ {S Q : Type 0} (srv : Server S Q) (lib : Library Q) where
  -- updateStatusIfChanged: `none` is no error.
  unfoldable pub update_instance_status_if_changed :
      String → InstanceStatus → Instance → S → Option Error × S
  update_instance_status_if_changed operation previous i s =
      if lib.same_instance_status previous i.status
      then (none, s)
      else let r = srv.update_instance_status i s in
        elim r.0 [ none ↦ (none, r.1) | some e ↦ (some (wrapped operation (api e)), r.1) ]

  -- `return &ctrl.Result{RequeueAfter: requeueInterval}, r.updateStatusIfChanged(...)`.
  unfoldable pub hold : {A : Type 0} → String → InstanceStatus → Instance → M S A
  unfolding update_instance_status_if_changed
  hold operation previous i s =
      let r = update_instance_status_if_changed operation previous i s in
      (return (record { requeue_after = requeue_interval; error = r.0 }), r.1)

  abbrev is_agent_failure : Reason → Bool
  is_agent_failure agent_job_failed = true
  is_agent_failure _ = false

  -- The instance that markFailedWithReason writes; `msg` is the text of the cause.
  unfoldable pub failed_instance : Instance → Reason → Message → Instance
  failed_instance i reason msg =
      let first =
        if is_agent_failure reason
        then lib.set_condition i.status.conditions
            (condition_of crc_agent false reason msg i.meta.generation)
        else i.status.conditions in
      record i {
        status = record i.status {
          phase = Phase.failed;
          conditions =
              lib.set_condition first
                (condition_of ConditionType.ready false reason msg i.meta.generation);
        };
      }

  unfoldable pub mark_failed_with_reason : Instance → Reason → Message → Error → M S Outcome
  unfolding failed_instance
  mark_failed_with_reason i reason msg cause s =
      let i' = failed_instance i reason msg in
      if lib.same_instance_status i.status i'.status
      then (return (fail cause), s)
      else let r = srv.update_instance_status i' s in
        elim r.0 [
          | none ↦ (return (fail cause), r.1)
          | some e ↦ (return (fail (wrapped "updating status to Failed" (api e))), r.1)
        ]

-- The first lease that is not being deleted.
unfoldable pub claimant_loop : List Lease → Option Text
claimant_loop [] = none
claimant_loop (l ∷ ls) =
    let rest = claimant_loop ls in if is_deleting l.meta then rest else some l.meta.name

-- Whether the projection holds already.
unfoldable pub in_sync : Option Text → Option Text → Bool
in_sync none none = true
in_sync none (some b) = false
in_sync (some a) none = false
in_sync (some a) (some b) = text_eq a b

module _ {S Q : Type 0} (srv : Server S Q) where
  unfoldable pub project_lease_ref : Instance → List Lease → M S Outcome
  project_lease_ref i ls =
      if in_sync (claimant_loop ls) i.status.lease_ref then return_with done else do
        write "updating derived LeaseRef projection" (
            srv.update_instance_status
              (record i { status = record i.status { lease_ref = claimant_loop ls } }))
        value done

  unfoldable pub reconcile_lease_ref_projection : Instance → M S Outcome
  unfolding project_lease_ref
  reconcile_lease_ref_projection i = do
    ls ←
        read "listing ClusterLeases claiming instance"
          (srv.cached_claims i.meta.namespace i.meta.name)
    project_lease_ref i ls
