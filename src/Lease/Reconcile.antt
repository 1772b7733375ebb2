-- ===== src/Lease/Reconcile.antt =====
-- Reconcile of internal/controller/clusterlease_controller.go, phase by phase.
use guestcluster.Api.{Instance, Lease, LeasePhase}
use guestcluster.Base.{
  List, Option, String, Text, [], codes, if◌then◌else◌, ltb_ℤ, none, not, pos, some, sub_time, ℤ,
  ◌++◌, ◌+ℤ◌, ◌||◌, ◌∷◌,
}
use guestcluster.Kube.{
  Error, M, Outcome, api, contains_finalizer, done, fail, found, handle, is_deleting, not_found,
  read, refused, remove_finalizer, requeue, return, return_with, unless_missing, value, wrapped,
  write, ◌>>=◌, ◌>>◌,
}
use guestcluster.Lease.Bind.{bind}
use guestcluster.Lease.Match.{
  candidate_loop, claimed_loop, may_bind, wait_for_capacity, wait_for_namespace,
}
use guestcluster.Platform.{Library, Server}
use guestcluster.Policy.{NamespacePolicy, read_namespace_policy}
use guestcluster.Pool.Reconcile.{pool_instances}

abbrev pub lease_finalizer : Text
lease_finalizer = codes "guestcluster.opdev.io/release"

module _ {S Q : Type 0} (srv : Server S Q) (lib : Library Q) where
  -- The choice, and what follows from it.
  unfoldable pub match_lease : ℤ → Lease → List Instance → List Lease → M S Outcome
  unfolding wait_for_capacity bind
  match_lease now l instances siblings =
      elim (candidate_loop (claimed_loop l.spec.pool_ref [] siblings) instances) [
        | none ↦ wait_for_capacity srv lib l
        | some i ↦ bind srv lib now l i
      ]

  -- From the policy on: the live lists, with the label selector of the pool.
  unfoldable pub seek_instance : ℤ → Lease → NamespacePolicy → M S Outcome
  unfolding match_lease wait_for_namespace
  seek_instance now l policy =
      if policy.is_terminating then wait_for_namespace srv lib l policy else do
        instances ← read "listing ClusterInstances for pool" (srv.list_instances l.meta.namespace)
        siblings ← read "listing sibling ClusterLeases" (srv.list_leases l.meta.namespace)
        match_lease now l (pool_instances l.spec.pool_ref instances) siblings

  -- reconcilePending, under the lock.
  unfoldable pub reconcile_pending : ℤ → Lease → M S Outcome
  unfolding seek_instance
  reconcile_pending now l s = elim (srv.get_lease l.meta.namespace l.meta.name s) [
    | refused not_found ↦ (return done, s)
    | refused e ↦ (return (fail (wrapped "refreshing ClusterLease before matching" (api e))), s)
    | found current ↦
        if not (may_bind current)
        then (return done, s)
        else (read_namespace_policy srv current.meta.namespace >>= seek_instance now current) s
  ]

  -- A delete of the lease that tolerates that it is gone.
  unfoldable pub delete_lease : String → Lease → M S Outcome
  delete_lease context l s =
      let r = srv.delete_lease l s in
      elim (unless_missing r.0) [
        | none ↦ (return done, r.1)
        | some e ↦ (return (fail (wrapped context e)), r.1)
      ]

  -- The TTL test: `none` where the lease has no deadline.
  unfoldable pub ttl_remaining : ℤ → Lease → Option ℤ
  ttl_remaining now l = elim l.spec.ttl [
    | none ↦ none
    | some ttl ↦ elim l.status.bound_time [
      | none ↦ none
      | some t ↦
          if not (ltb_ℤ ttl (pos 0) || ltb_ℤ (pos 0) ttl)
          then none
          else some (sub_time (t +ℤ ttl) now)
    ]
  ]

  -- reconcileBound.
  unfoldable pub reconcile_bound : ℤ → Lease → M S Outcome
  unfolding delete_lease ttl_remaining
  reconcile_bound now l = elim (ttl_remaining now l) [
    | none ↦ return_with done
    | some remaining ↦
        if ltb_ℤ (pos 0) remaining
        then return_with (requeue remaining)
        else delete_lease "deleting lease after TTL expiry" l
  ]

  -- releaseBoundInstance: `none` is no error.
  unfoldable pub release_bound_instance : Lease → S → Option Error × S
  release_bound_instance l s = elim l.status.instance_ref [
    | none ↦ (none, s)
    | some name ↦
        let r = srv.delete_instance l.meta.namespace name s in
        elim (unless_missing r.0) [
          | none ↦ (none, r.1)
          | some e ↦ (some (wrapped "deleting bound ClusterInstance" e), r.1)
        ]
  ]

  abbrev pub without_finalizer : Lease → Lease
  without_finalizer l = record l {
    meta = record l.meta { finalizers = remove_finalizer l.meta.finalizers lease_finalizer };
  }

  -- reconcileDelete, under the lock.
  unfoldable pub reconcile_delete : Lease → M S Outcome
  unfolding release_bound_instance
  reconcile_delete l s =
      if not (contains_finalizer l.meta.finalizers lease_finalizer)
      then (return done, s)
      else let r = release_bound_instance l s in
        elim r.0 [
          | some e ↦ (return (fail e), r.1)
          | none ↦
              (write "removing lease finalizer" (srv.update_lease (without_finalizer l))
                  >> value done)
                r.1
        ]

  -- The first reconcile adds the finalizer.
  unfoldable pub add_lease_finalizer : Lease → M S Outcome
  add_lease_finalizer l = do
    write "adding finalizer" (
        srv.update_lease (record l {
          meta = record l.meta { finalizers = l.meta.finalizers ++ lease_finalizer ∷ [] };
        }))
    value done

  -- The switch on the phase.
  unfoldable pub reconcile_phase : ℤ → Lease → M S Outcome
  unfolding reconcile_bound reconcile_pending delete_lease
  reconcile_phase now l = elim l.status.phase [
    | LeasePhase.bound ↦ reconcile_bound now l
    | LeasePhase.releasing ↦ delete_lease "deleting lease in Releasing phase" l
    | LeasePhase.released ↦ return_with done
    | LeasePhase.failed ↦ return_with done
    | LeasePhase.unset ↦ reconcile_pending now l
    | LeasePhase.pending ↦ reconcile_pending now l
  ]

  unfoldable pub reconcile_lease : ℤ → Lease → M S Outcome
  unfolding reconcile_delete add_lease_finalizer reconcile_phase
  reconcile_lease now l =
      if is_deleting l.meta
      then reconcile_delete l
      else if not (contains_finalizer l.meta.finalizers lease_finalizer)
      then add_lease_finalizer l
      else reconcile_phase now l

  -- Reconcile.
  unfoldable pub reconcile : ℤ → Text → Text → S → Outcome × S
  unfolding reconcile_lease
  reconcile now namespace name s = elim (srv.get_lease namespace name s) [
    | refused not_found ↦ (done, s)
    | refused e ↦ (fail (wrapped "getting ClusterLease" (api e)), s)
    | found l ↦ handle (reconcile_lease now l) s
  ]
