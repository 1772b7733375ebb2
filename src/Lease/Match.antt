-- ===== src/Lease/Match.antt =====
-- reconcilePending of internal/controller/clusterlease_controller.go: the choice of the instance.
use guestcluster.Api.{Instance, Lease, LeasePhase, Phase}
use guestcluster.Base.{
  Bool, List, Option, Text, [], false, if◌then◌else◌, none, not, some, text_eq, true, ℤ, ◌∷◌,
}
use guestcluster.Kube.{
  Error, M, Message, Outcome, Reason, api, condition_of, fail, is_deleting, lease_bound, requeue,
  return, seconds, waiting_for_capacity, wrapped,
}
use guestcluster.Platform.{Library, Server}
use guestcluster.Policy.{NamespacePolicy}
use guestcluster.Pool.Accounting.{is_claimed}

-- leasePendingRequeue.
abbrev pub lease_pending_requeue : ℤ
lease_pending_requeue = seconds 10

-- The map `claimed`, as the list of its keys: what the leases of the same pool name.
unfoldable pub claim_of : Text → Lease → List Text → List Text
claim_of pool_name l claimed =
    if not (text_eq l.spec.pool_ref pool_name)
    then claimed
    else elim l.status.instance_ref [ none ↦ claimed | some n ↦ n ∷ claimed ]

unfoldable pub claimed_loop : Text → List Text → List Lease → List Text
unfolding claim_of
claimed_loop pool_name claimed [] = claimed
claimed_loop pool_name claimed (l ∷ ls) = claimed_loop pool_name (claim_of pool_name l claimed) ls

abbrev is_ready : Phase → Bool
is_ready Phase.ready = true
is_ready _ = false

-- The first instance that is Ready, not being deleted and not claimed.
unfoldable pub candidate_loop : List Text → List Instance → Option Instance
candidate_loop claimed [] = none
candidate_loop claimed (i ∷ is_) =
    let rest = candidate_loop claimed is_ in
    if is_deleting i.meta
    then rest
    else if not (is_ready i.status.phase)
    then rest
    else if is_claimed claimed i.meta.name
    then rest
    else some i

-- The phases in which a lease still waits for an instance.
abbrev pub waits : LeasePhase → Bool
waits LeasePhase.unset = true
waits LeasePhase.pending = true
waits _ = false

-- The guards on the lease that was read again under the lock.
unfoldable pub may_bind : Lease → Bool
may_bind l =
    if is_deleting l.meta
    then false
    else elim l.status.instance_ref [ some n ↦ false | none ↦ waits l.status.phase ]

module _ {S Q : Type 0} (srv : Server S Q) (lib : Library Q) where
  -- The lease with phase Pending and the Bound condition False.
  unfoldable pub pending_lease : Lease → Reason → Message → Lease
  pending_lease l reason msg = record l {
    status = record l.status {
      phase = LeasePhase.pending;
      conditions =
          lib.set_condition l.status.conditions
            (condition_of lease_bound false reason msg l.meta.generation);
    };
  }

  -- setPendingCondition: `none` is no error.
  unfoldable pub set_pending_condition : Lease → Reason → Message → S → Option Error × S
  unfolding pending_lease
  set_pending_condition l reason msg s =
      let l' = pending_lease l reason msg in
      if lib.same_lease_status l.status l'.status
      then (none, s)
      else let r = srv.update_lease_status l' s in
        elim r.0 [
          | none ↦ (none, r.1)
          | some e ↦ (some (wrapped "updating lease status" (api e)), r.1)
        ]

  -- The namespace is terminating: the result holds the requeue and the error.
  unfoldable pub wait_for_namespace : Lease → NamespacePolicy → M S Outcome
  unfolding set_pending_condition
  wait_for_namespace l policy s =
      let r = set_pending_condition l policy.reason policy.message s in
      (return (record { requeue_after = lease_pending_requeue; error = r.0 }), r.1)

  -- No candidate: an error of the status write comes without the requeue.
  unfoldable pub wait_for_capacity : Lease → M S Outcome
  unfolding set_pending_condition
  wait_for_capacity l s =
      let r =
        set_pending_condition l waiting_for_capacity
          (record {
            format =
                "no Ready, unclaimed ClusterInstance in pool %q; waiting for ClusterPool controller to provision one";
            numbers = [];
            names = l.spec.pool_ref ∷ [];
          })
          s in
      elim r.0 [
        | none ↦ (return (requeue lease_pending_requeue), r.1)
        | some e ↦ (return (fail e), r.1)
      ]
