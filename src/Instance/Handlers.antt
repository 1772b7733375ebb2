-- ===== src/Instance/Handlers.antt =====
-- Which instances a reconcile lets reach the handlers of their backing objects.
use guestcluster.Api.{Instance, InstanceStatus, Quota}
use guestcluster.Base.{
  Bool-cases, List, Option, Option-cases, String, Text, arith, false, inl, inr, none, refl, some,
  subst, sym, true, ℤ, ◌≡◌, ◌≢◌, ◌⊎◌,
}
use guestcluster.Capacity.{Amounts, QuotaViolation, namespace_resource_limits}
use guestcluster.Capacity.Usage.{has_limits}
use guestcluster.Instance.Cleanup.{gate-authorized, policy-state}
use guestcluster.Instance.Delete.{Teardown, instance_finalizer, reconcile_instance_delete}
use guestcluster.Instance.Dispatch.{
  Backings, reconcile, reconcile_backing, reconcile_instance, with_finalizer,
}
use guestcluster.Instance.Gate.{
  authorize, checked_read, gate_by_policy, gate_namespace_provisioning, instance_violation,
  limits_violation, read_resource_quota_violation,
}
use guestcluster.Instance.Operands.{OperandServer}
use guestcluster.Instance.Status.{hold, update_instance_status_if_changed}
use guestcluster.Kube.{
  M, Reply, already_exists, bind-final, contains_finalizer, forbidden, found, is_deleting,
  not_found, other, refused, ◌>>=◌,
}
use guestcluster.Platform.{Library, Server}
use guestcluster.Policy.{NamespacePolicy, read_namespace_policy}

-- An instance whose backing objects a reconcile may touch.
pub data MayTouch (i : Instance) : Type 0 where
  provisions :
      is_deleting i.meta ≡ false
      → contains_finalizer i.meta.finalizers instance_finalizer ≡ true
      → i.status.provisioning ≢ none
      → MayTouch i
  tears_down :
      is_deleting i.meta ≡ true
      → contains_finalizer i.meta.finalizers instance_finalizer ≡ true
      → MayTouch i

module _ {S Q : Type 0} (srv : Server S Q) (lib : Library Q) (ops : OperandServer S)
    (teardown : Instance → S → Teardown × Instance × S) (backings : Backings S) (R : S → Type 0)
    (updated : (i : Instance) (t : S) → R t → R (srv.update_instance i t).1)
    (status : (i : Instance) (t : S) → R t → R (srv.update_instance_status i t).1) where
  update_status-kept :
      (op : String) (p : InstanceStatus) (i : Instance) (t : S)
      → R t
      → R (update_instance_status_if_changed srv lib op p i t).1
  unfolding update_instance_status_if_changed
  update_status-kept op p i t r = ground (arith, status i t r)

  authorize-kept :
      (now : ℤ) (policy : NamespacePolicy) (i : Instance) (v : Option (QuotaViolation Q)) (t : S)
      → R t
      → R (authorize srv lib now policy i v t).1
  unfolding authorize hold
  authorize-kept now policy i none t r = update_status-kept _ _ _ t r
  authorize-kept now policy i (some v) t r = update_status-kept _ _ _ t r

  checked_from :
      {A B : Type 0} (context : String) (f : A → M S B) (x : Reply A) (t : S)
      → ((a : A) → (f a t).1 ≡ t)
      → ((checked_read srv lib context (λ _. x) >>= f) t).1 ≡ t
  checked_from context f (found a) t h = h a
  checked_from context f (refused e) t h = refl

  instance_violation-state :
      (i : Instance) (limits : Amounts (Option Q)) (all : List Instance) (t : S)
      → (instance_violation srv lib i limits all t).1 ≡ t
  unfolding instance_violation
  instance_violation-state i limits all t = ground arith

  limits_violation-state :
      (i : Instance) (quotas : List (Quota Q)) (t : S) → (limits_violation srv lib i quotas t).1 ≡ t
  unfolding limits_violation
  limits_violation-state i quotas t = elim (Option-cases (namespace_resource_limits lib quotas)) [
    | inl e ↦ rw (e, limits_violation) refl
    | inr (limits, e) ↦ elim (Bool-cases (has_limits limits)) [
      | inr f ↦ rw (e, f, limits_violation) refl
      | inl f ↦
          rw (e, f, limits_violation)
            (checked_from "listing ClusterInstances in namespace"
              (instance_violation srv lib i limits) (srv.list_instances i.meta.namespace t) t
              (λ all. instance_violation-state i limits all t))
    ]
  ]

  violation-state : (i : Instance) (t : S) → (read_resource_quota_violation srv lib i t).1 ≡ t
  unfolding read_resource_quota_violation
  violation-state i t =
      checked_from "listing ResourceQuotas in namespace" (limits_violation srv lib i)
        (srv.list_quotas i.meta.namespace t) t (λ quotas. limits_violation-state i quotas t)

  policy-kept :
      (now : ℤ) (i : Instance) (policy : NamespacePolicy) (t : S)
      → R t
      → R (gate_by_policy srv lib now i policy t).1
  unfolding gate_by_policy hold
  policy-kept now i policy t r = elim (Bool-cases policy.is_terminating) [
    | inl e ↦ rw (e, gate_by_policy) (update_status-kept _ _ _ t r)
    | inr e ↦ elim (Option-cases i.status.provisioning) [
      | inr (x, f) ↦ rw (e, f, gate_by_policy) r
      | inl f ↦ elim (Bool-cases policy.enabled) [
        | inr g ↦ rw (e, f, g, gate_by_policy) (update_status-kept _ _ _ t r)
        | inl g ↦ rw (e, f, g, gate_by_policy) (authorized-kept (record policy { enabled = true }))
      ]
    ]
  ]
    where
      authorized-kept :
          (p : NamespacePolicy)
          → R ((read_resource_quota_violation srv lib i >>= authorize srv lib now p i) t).1
      authorized-kept p =
          let r1 = subst R (sym (violation-state i t)) r in
          bind-final R (read_resource_quota_violation srv lib i) (authorize srv lib now p i) t
            (λ v _. authorize-kept now p i v _ r1) (λ _ _. r1)

  gate-kept :
      (now : ℤ) (i : Instance) (t : S) → R t → R (gate_namespace_provisioning srv lib now i t).1
  unfolding gate_namespace_provisioning
  gate-kept now i t r =
      let r1 = subst R (sym (policy-state srv lib i.meta.namespace t)) r in
      bind-final R (read_namespace_policy srv i.meta.namespace) (gate_by_policy srv lib now i) t
        (λ p _. policy-kept now i p _ r1) (λ _ _. r1)

  instance-kept :
      (now : ℤ) (i : Instance) (s : S)
      → R s
      → R (reconcile_instance srv lib ops teardown backings now i s).1 ⊎ MayTouch i
  unfolding reconcile_instance reconcile_instance_delete
  instance-kept now i s r = elim (Bool-cases (is_deleting i.meta)) [
    | inl d ↦ elim (Bool-cases (contains_finalizer i.meta.finalizers instance_finalizer)) [
      | inl f ↦ inr (tears_down d f)
      | inr f ↦ rw (d, f, reconcile_instance, reconcile_instance_delete) (inl r)
    ]
    | inr d ↦ elim (Bool-cases (contains_finalizer i.meta.finalizers instance_finalizer)) [
      | inr f ↦
          rw (d, f, reconcile_instance)
            (inl (ground (arith, updated (with_finalizer srv lib ops teardown backings i) s r)))
      | inl f ↦
          rw (d, f, reconcile_instance)
            (bind-final (λ t. R t ⊎ MayTouch i) (gate_namespace_provisioning srv lib now i)
              (λ _. reconcile_backing srv lib ops teardown backings i) s
              (λ _ g. inr (provisions d f (gate-authorized srv lib now i s g).0))
              (λ _ _. inl (gate-kept now i s r)))
    ]
  ]

  -- What the status writes and the finalizer keep, a reconcile keeps, unless the instance that it
  -- read may have its backing objects touched.
  module _ (now : ℤ) (ns name : Text) (s : S) (r : R s) where
    abbrev Touched : Type 0
    Touched = (i : Instance) × (srv.cached_instance ns name s ≡ found i) × MayTouch i

    read_from :
        (x : Reply Instance)
        → srv.cached_instance ns name s ≡ x
        → R (reconcile srv lib ops teardown backings now ns name s).1 ⊎ Touched
    unfolding reconcile
    read_from (found i) e = elim (instance-kept now i s r) [
      | inl k ↦ rw (e, reconcile) (inl k)
      | inr m ↦ inr (i, e, m)
    ]
    read_from (refused not_found) e = rw (e, reconcile) (inl r)
    read_from (refused already_exists) e = rw (e, reconcile) (inl r)
    read_from (refused (forbidden m)) e = rw (e, reconcile) (inl r)
    read_from (refused (other m)) e = rw (e, reconcile) (inl r)

    -- A reconcile of an instance reaches the backing objects only where it may: what the status
    -- writes and the update of the instance keep, a reconcile keeps, whatever the handlers of the
    -- backings and the teardown do, unless the instance that it read carries the operator's
    -- finalizer and is being deleted, or carries the finalizer and a provisioning authorization
    -- and is not being deleted.
    pub reconcile-MayTouch :
        R (reconcile srv lib ops teardown backings now ns name s).1
        ⊎ ((i : Instance) × (srv.cached_instance ns name s ≡ found i) × MayTouch i)
    reconcile-MayTouch = read_from (srv.cached_instance ns name s) refl
