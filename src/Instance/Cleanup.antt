-- ===== src/Instance/Cleanup.antt =====
-- What the deletion of an instance and the provisioning gate guarantee.
use guestcluster.Api.{Instance, InstanceStatus}
use guestcluster.Base.{
  Bool-cases, Option, Option-cases, String, Text, ap, arith, false, inl, inr, none, refl, some,
  true, ℤ, ◌∙◌, ◌≡◌, ◌≢◌,
}
use guestcluster.Capacity.{QuotaViolation}
use guestcluster.Instance.Delete.{
  Teardown, after_teardown, as_terminating, broken, gone, instance_finalizer, is_terminating_phase,
  reconcile_instance_delete, tear_down, waiting, with_termination,
}
use guestcluster.Instance.Gate.{
  authorize, gate_by_policy, gate_namespace_provisioning, read_resource_quota_violation,
}
use guestcluster.Instance.Status.{hold, update_instance_status_if_changed}
use guestcluster.Kube.{
  bind-final, bind-went_on, contains_finalizer, go_on, write, write-final, ◌>>=◌,
}
use guestcluster.Platform.{Library, Server}
use guestcluster.Policy.{NamespacePolicy, read_namespace_policy}

module _ {S Q : Type 0} (srv : Server S Q) (lib : Library Q)
    (teardown : Instance → S → Teardown × Instance × S) where
  module _ {X : Type 0} (view : S → X)
      (status_keeps : (j : Instance) (t : S) → view (srv.update_instance_status j t).1 ≡ view t)
      (teardown_keeps : (j : Instance) (t : S) → view (teardown j t).2 ≡ view t) where
    status-view :
        (operation : String) (previous : InstanceStatus) (i : Instance) (t : S)
        → view (update_instance_status_if_changed srv lib operation previous i t).1 ≡ view t
    unfolding update_instance_status_if_changed
    status-view operation previous i t = ground (arith, status_keeps i t)

    after_teardown-view :
        (now : ℤ) (i : Instance) (r : Teardown) (t : S)
        → r ≢ gone
        → view (after_teardown srv lib teardown now i r t).1 ≡ view t
    unfolding after_teardown
    after_teardown-view now i gone t h = absurd (h refl)
    after_teardown-view now i (broken e) t h =
        status-view "updating teardown condition" i.status _ t
    after_teardown-view now i waiting t h =
        let i' = with_termination srv lib teardown now i none in
        let k = status-view "updating teardown condition" i.status i' t in
        elim (Option-cases
          (update_instance_status_if_changed srv lib "updating teardown condition" i.status i'
            t).0) [ inl f ↦ rw (f, after_teardown) k | inr (x, f) ↦ rw (f, after_teardown) k ]

    tear_down-view :
        (now : ℤ) (i : Instance) (t : S)
        → (teardown i t).0 ≢ gone
        → view (tear_down srv lib teardown now i t).1 ≡ view t
    unfolding tear_down
    tear_down-view now i t h =
        after_teardown-view now (teardown i t).1 (teardown i t).0 (teardown i t).2 h
        ∙ teardown_keeps i t

    -- As long as the teardown of an instance, in whatever phase, does not report that its backing
    -- objects are gone, the deletion handler changes nothing but by status writes and by the
    -- teardown: a view of the server that these two keep, such as the finalizers, is what it was.
    pub reconcile_instance_delete-holds :
        (now : ℤ) (i : Instance) (s : S)
        → ((j : Instance) (t : S) → j.meta ≡ i.meta → j.spec ≡ i.spec → (teardown j t).0 ≢ gone)
        → view (reconcile_instance_delete srv lib teardown now i s).1 ≡ view s
    unfolding reconcile_instance_delete
    reconcile_instance_delete-holds now i s busy =
        let i' = as_terminating srv lib teardown i in
        let put_it = srv.update_instance_status i' in
        let wrote_it : view (write "updating status to Terminating" put_it s).1 ≡ view s =
          ap view (write-final "updating status to Terminating" put_it s) ∙ status_keeps i' s in
        elim (Bool-cases (contains_finalizer i.meta.finalizers instance_finalizer)) [
          | inr e ↦ rw e refl
          | inl e ↦ rw e (elim (Bool-cases (is_terminating_phase srv lib teardown i.status.phase)) [
            | inl f ↦ rw f (tear_down-view now i s (busy i s refl refl))
            | inr f ↦ rw f (
                bind-final (λ t. view t ≡ view s) (write "updating status to Terminating" put_it)
                  (λ (u : Unit {0}). tear_down srv lib teardown now i') s
                  (λ _ _. tear_down-view now i' _ (busy i' _ refl refl) ∙ wrote_it)
                  (λ _ _. wrote_it))
          ])
        ]

module _ {S Q : Type 0} (srv : Server S Q) (lib : Library Q) where
  authorize-returns :
      (now : ℤ) (policy : NamespacePolicy) (i : Instance) (v : Option (QuotaViolation Q)) (t : S)
      → (authorize srv lib now policy i v t).0 ≢ go_on tt
  unfolding authorize hold
  authorize-returns now policy i none t h = cc h
  authorize-returns now policy i (some v) t h = cc h

  violation-returns :
      (now : ℤ) (policy : NamespacePolicy) (i : Instance) (t : S)
      → ((read_resource_quota_violation srv lib i >>= authorize srv lib now policy i) t).0
        ≢ go_on tt
  violation-returns now policy i t h =
      let r =
        bind-went_on (authorize srv lib now policy i) tt (read_resource_quota_violation srv lib i) t
          h in
      authorize-returns now policy i r.0 _ r.2

  pub policy-state : (n : Text) (t : S) → (read_namespace_policy srv n t).1 ≡ t
  unfolding read_namespace_policy
  policy-state n t = ground arith

  policy-authorized :
      (now : ℤ) (i : Instance) (policy : NamespacePolicy) (t : S)
      → (gate_by_policy srv lib now i policy t).0 ≡ go_on tt
      → (i.status.provisioning ≢ none)
        × (policy.is_terminating ≡ false)
        × ((gate_by_policy srv lib now i policy t).1 ≡ t)
  unfolding gate_by_policy hold
  policy-authorized now i policy t h = elim (Bool-cases policy.is_terminating) [
    | inl e ↦ cc (rw (e, gate_by_policy) at h)
    | inr e ↦ elim (Option-cases i.status.provisioning) [
      | inr (x, f) ↦ ((λ z. cc (f, z)), e, rw (e, f, gate_by_policy) refl)
      | inl f ↦ elim (Bool-cases policy.enabled) [
        | inl g ↦ absurd (
            violation-returns now (record policy { enabled = true }) i t
              (rw (e, f, g, gate_by_policy) at h))
        | inr g ↦ cc (rw (e, f, g, gate_by_policy) at h)
      ]
    ]
  ]

  -- If the provisioning gate lets a reconcile go on, the instance that it was given carries a
  -- provisioning authorization already, and the gate has written nothing: the pass that grants
  -- the authorization ends there.
  pub gate-authorized :
      (now : ℤ) (i : Instance) (s : S)
      → (gate_namespace_provisioning srv lib now i s).0 ≡ go_on tt
      → (i.status.provisioning ≢ none) × ((gate_namespace_provisioning srv lib now i s).1 ≡ s)
  unfolding gate_namespace_provisioning
  gate-authorized now i s h =
      let r =
        bind-went_on (gate_by_policy srv lib now i) tt (read_namespace_policy srv i.meta.namespace)
          s h in
      let a = policy-authorized now i r.0 _ r.2 in
      (a.0, r.3 ∙ a.2 ∙ policy-state i.meta.namespace s)
