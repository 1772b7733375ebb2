-- ===== src/Lease/Steps.antt =====
-- The whole reconcile of a lease, followed to the one write that it may make.
use guestcluster.Api.{Instance, Lease, LeasePhase, Secret}
use guestcluster.Base.{
  Bool-cases, List, Option-cases, Text, [], arith, false, inl, inr, none, refl, subst, sym, true, ℤ,
  ◌∷◌, ◌≡◌,
}
use guestcluster.Kube.{
  ApiError, Message, Reply-cases, already_exists, bind-final, contains_finalizer, done, forbidden,
  found, is_deleting, not_found, other, read, read-final, refused, value, waiting_for_capacity,
  write, write-state, ◌>>=◌, ◌>>◌,
}
use guestcluster.Lease.Bind.{bind, bound_lease, materialize_secret}
use guestcluster.Lease.Choice.{candidate_is_free}
use guestcluster.Lease.Laws.{LeaseStore, LeaseWrite}
use guestcluster.Lease.Match.{
  candidate_loop, claimed_loop, may_bind, set_pending_condition, wait_for_capacity,
  wait_for_namespace,
}
use guestcluster.Lease.Passes.{
  LeasePass, add-LeasePass, bound, bound-LeasePass, current, delete-LeasePass, materialize-leases,
  pending-LeasePass, quiet, reconcile_delete-LeasePass,
}
use guestcluster.Lease.Reconcile.{
  lease_finalizer, match_lease, reconcile, reconcile_lease, reconcile_pending, reconcile_phase,
  seek_instance,
}
use guestcluster.Platform.{Library, Server}
use guestcluster.Policy.{NamespacePolicy, read_namespace_policy}
use guestcluster.Pool.Accounting.{is_claimed}
use guestcluster.Pool.Accounting.Counts.{is_free}
use guestcluster.Pool.Reconcile.{pool_instances}

module _ {S Q : Type 0} (srv : Server S Q) (lib : Library Q) {ns : Text} {leases : S → List Lease}
    (store : LeaseStore srv ns leases) (now : ℤ) (s : S) where
  abbrev Pass : S → Type 0
  Pass = LeasePass srv lib store s

  may_bind-unbound : (l : Lease) → may_bind l ≡ true → l.status.instance_ref ≡ none
  unfolding may_bind
  may_bind-unbound l h = ground arith

  free_unclaimed :
      (claimed : List Text) (i : Instance)
      → is_free claimed i ≡ true
      → is_claimed claimed i.meta.name ≡ false
  unfolding is_free
  free_unclaimed claimed i h = ground arith

  policy-state : (n : Text) (t : S) → (read_namespace_policy srv n t).1 ≡ t
  unfolding read_namespace_policy
  policy-state n t = ground arith

  module _ (l : Lease) (name : Text) (was_read : srv.get_lease ns name s ≡ found l) where
    bind-Pass :
        (i : Instance)
        → l.status.instance_ref ≡ none
        → is_claimed (claimed_loop l.spec.pool_ref [] (leases s)) i.meta.name ≡ false
        → Pass (bind srv lib now l i s).1
    unfolding bind bound_lease
    bind-Pass i unbound unclaimed =
        let l' = bound_lease lib now l i in
        let finish = λ (u : Unit {0}).
          write "updating lease status after bind" (srv.update_lease_status l') >> value done in
        let copy = λ (src : Secret). materialize_secret srv lib l src >>= finish in
        read-final Pass "fetching instance kubeconfig secret"
          (srv.get_secret i.meta.namespace i.status.kubeconfig_secret_ref) copy s
          (λ src _.
            let t = (materialize_secret srv lib l src s).1 in
            let k = materialize-leases srv lib store l src s in
            bind-final Pass (materialize_secret srv lib l src) finish s
              (λ _ _.
                subst Pass
                  (sym
                    (write-state "updating lease status after bind" (srv.update_lease_status l') t))
                  (bound l l' i.meta.name refl unbound refl unclaimed (
                    subst (λ xs. LeaseWrite l l' xs (leases (srv.update_lease_status l' t).1)) k
                      (store.lease_status_written l l' s t
                        (current srv lib store s l name was_read t k) refl refl))))
              (λ _ _. quiet k))
          (λ _ _. quiet refl)

    wait-Pass : Pass (wait_for_capacity srv lib l s).1
    unfolding wait_for_capacity
    wait-Pass =
        let msg : Message = record {
          format =
              "no Ready, unclaimed ClusterInstance in pool %q; waiting for ClusterPool controller to provision one";
          numbers = [];
          names = l.spec.pool_ref ∷ [];
        } in
        let waited =
          pending-LeasePass srv lib store s l name was_read waiting_for_capacity msg s refl in
        elim (Option-cases (set_pending_condition srv lib l waiting_for_capacity msg s).0) [
          | inl f ↦ rw (f, wait_for_capacity) waited
          | inr (x, f) ↦ rw (f, wait_for_capacity) waited
        ]

    match-Pass :
        (is_ : List Instance)
        → l.status.instance_ref ≡ none
        → Pass (match_lease srv lib now l is_ (leases s) s).1
    unfolding match_lease
    match-Pass is_ unbound =
        let claimed = claimed_loop l.spec.pool_ref [] (leases s) in
        elim (Option-cases (candidate_loop claimed is_)) [
          | inr (i, e) ↦
              rw (e, match_lease)
                (bind-Pass i unbound (free_unclaimed claimed i (candidate_is_free claimed is_ i e)))
          | inl e ↦ rw (e, match_lease) wait-Pass
        ]

    seek-Pass :
        (policy : NamespacePolicy)
        → l.status.instance_ref ≡ none
        → Pass (seek_instance srv lib now l policy s).1
    unfolding seek_instance wait_for_namespace
    seek-Pass policy unbound =
        let home = (store.lease_key name s l was_read).0 in
        let choose = λ (is_ : List Instance) (siblings : List Lease).
          match_lease srv lib now l (pool_instances l.spec.pool_ref is_) siblings in
        let read_siblings = λ (is_ : List Instance).
          read "listing sibling ClusterLeases" (srv.list_leases l.meta.namespace) >>= choose is_ in
        elim (Bool-cases policy.is_terminating) [
          | inl e ↦ rw e (
              pending-LeasePass srv lib store s l name was_read policy.reason policy.message s refl)
          | inr e ↦ rw e (
              read-final Pass "listing ClusterInstances for pool"
                (srv.list_instances l.meta.namespace) read_siblings s
                (λ is_ _.
                  read-final Pass "listing sibling ClusterLeases" (srv.list_leases l.meta.namespace)
                    (choose is_) s
                    (λ siblings listed.
                      subst
                        (λ xs.
                          Pass
                            (match_lease srv lib now l (pool_instances l.spec.pool_ref is_) xs s).1)
                        (sym (store.leases_listed s siblings (rw home at listed)))
                        (match-Pass (pool_instances l.spec.pool_ref is_) unbound))
                    (λ _ _. quiet refl))
                (λ _ _. quiet refl))
        ]

  found-Pass :
      (name : Text) (l : Lease)
      → srv.get_lease ns name s ≡ found l
      → may_bind l ≡ true
      → Pass ((read_namespace_policy srv l.meta.namespace >>= seek_instance srv lib now l) s).1
  found-Pass name l was_read may =
      let t = (read_namespace_policy srv l.meta.namespace s).1 in
      let same_state = policy-state l.meta.namespace s in
      bind-final Pass (read_namespace_policy srv l.meta.namespace) (seek_instance srv lib now l) s
        (λ policy _.
          subst (λ u. Pass (seek_instance srv lib now l policy u).1) (sym same_state)
            (seek-Pass l name was_read policy (may_bind-unbound l may)))
        (λ _ _. subst Pass (sym same_state) (quiet refl))

  refused-Pass :
      (l : Lease) (e : ApiError)
      → srv.get_lease l.meta.namespace l.meta.name s ≡ refused e
      → Pass (reconcile_pending srv lib now l s).1
  unfolding reconcile_pending
  refused-Pass l not_found h = rw (h, reconcile_pending) (quiet refl)
  refused-Pass l already_exists h = rw (h, reconcile_pending) (quiet refl)
  refused-Pass l (forbidden m) h = rw (h, reconcile_pending) (quiet refl)
  refused-Pass l (other m) h = rw (h, reconcile_pending) (quiet refl)

  pending-Pass : (l : Lease) → l.meta.namespace ≡ ns → Pass (reconcile_pending srv lib now l s).1
  unfolding reconcile_pending
  pending-Pass l home = elim (Reply-cases (srv.get_lease l.meta.namespace l.meta.name s)) [
    | inr (e, h) ↦ refused-Pass l e h
    | inl (c, h) ↦
        rw (h, reconcile_pending)
          (elim (Bool-cases (may_bind c)) [
            | inr e ↦ rw e (quiet refl)
            | inl e ↦ rw e (found-Pass l.meta.name c (rw home at h) e)
          ])
  ]

  phase-Pass :
      (name : Text) (l : Lease) (phase : LeasePhase)
      → srv.get_lease ns name s ≡ found l
      → l.status.phase ≡ phase
      → Pass (reconcile_phase srv lib now l s).1
  unfolding reconcile_phase
  phase-Pass name l LeasePhase.unset h e =
      rw (e, reconcile_phase) (pending-Pass l (store.lease_key name s l h).0)
  phase-Pass name l LeasePhase.pending h e =
      rw (e, reconcile_phase) (pending-Pass l (store.lease_key name s l h).0)
  phase-Pass name l LeasePhase.bound h e =
      rw (e, reconcile_phase) (bound-LeasePass srv lib store s l name h now)
  phase-Pass name l LeasePhase.releasing h e =
      rw (e, reconcile_phase)
        (delete-LeasePass srv lib store s l name h "deleting lease in Releasing phase")
  phase-Pass name l LeasePhase.released h e = rw (e, reconcile_phase) (quiet refl)
  phase-Pass name l LeasePhase.failed h e = rw (e, reconcile_phase) (quiet refl)

  lease-Pass :
      (name : Text) (l : Lease)
      → srv.get_lease ns name s ≡ found l
      → Pass (reconcile_lease srv lib now l s).1
  unfolding reconcile_lease
  lease-Pass name l h = elim (Bool-cases (is_deleting l.meta)) [
    | inl e ↦
        rw e (reconcile_delete-LeasePass srv lib store s l name h (store.lease_key name s l h).0)
    | inr e ↦ rw e (elim (Bool-cases (contains_finalizer l.meta.finalizers lease_finalizer)) [
      | inl f ↦ rw f (phase-Pass name l l.status.phase h refl)
      | inr f ↦ rw f (add-LeasePass srv lib store s l name h)
    ])
  ]

  none-Pass :
      (name : Text) (e : ApiError)
      → srv.get_lease ns name s ≡ refused e
      → Pass (reconcile srv lib now ns name s).1
  unfolding reconcile
  none-Pass name not_found h = rw (h, reconcile) (quiet refl)
  none-Pass name already_exists h = rw (h, reconcile) (quiet refl)
  none-Pass name (forbidden m) h = rw (h, reconcile) (quiet refl)
  none-Pass name (other m) h = rw (h, reconcile) (quiet refl)

  -- A reconcile of a lease makes one write of a lease at most.
  pub reconcile-LeasePass : (name : Text) → Pass (reconcile srv lib now ns name s).1
  unfolding reconcile
  reconcile-LeasePass name = elim (Reply-cases (srv.get_lease ns name s)) [
    | inl (l, h) ↦ rw (h, reconcile) (lease-Pass name l h)
    | inr (e, h) ↦ none-Pass name e h
  ]
