-- ===== src/Lease/Frame.antt =====
-- What every write of the lease controller keeps, a whole reconcile keeps.
use guestcluster.Api.{Instance, Lease, LeasePhase, Secret}
use guestcluster.Base.{
  Bool-cases, List, Option, Option-cases, String, Text, [], arith, inl, inr, ltb_ℤ, none, pos, refl,
  some, subst, sym, ℤ, ◌++◌, ◌∷◌, ◌≡◌,
}
use guestcluster.Kube.{
  ApiError, Error, Message, Reason, Reply, Reply-cases, already_exists, bind-final,
  contains_finalizer, done, forbidden, found, is_deleting, not_found, other, read, read-final,
  refused, unless_missing, value, waiting_for_capacity, wrapped, write, write-state, ◌>>=◌, ◌>>◌,
}
use guestcluster.Lease.Bind.{
  after_secret_create, bind, bound_lease, copy_secret, create_lease_secret, lease_secret,
  materialize_secret, refresh_lease_secret, take_existing_secret,
}
use guestcluster.Lease.Match.{
  candidate_loop, claimed_loop, may_bind, pending_lease, set_pending_condition, wait_for_capacity,
  wait_for_namespace,
}
use guestcluster.Lease.Reconcile.{
  add_lease_finalizer, delete_lease, lease_finalizer, match_lease, reconcile, reconcile_bound,
  reconcile_delete, reconcile_lease, reconcile_pending, reconcile_phase, release_bound_instance,
  seek_instance, ttl_remaining, without_finalizer,
}
use guestcluster.Platform.{Library, Server}
use guestcluster.Policy.{NamespacePolicy, read_namespace_policy}
use guestcluster.Pool.Reconcile.{pool_instances}
use guestcluster.Resources.{lease_kubeconfig_secret_name}

-- The writes of the lease controller keep `R`.
pub record LeaseWritesKeep {S Q : Type 0} (srv : Server S Q) (R : S → Type 0) : Type 0 where
  pub lease : (l : Lease) (t : S) → R t → R (srv.update_lease l t).1
  pub lease_status : (l : Lease) (t : S) → R t → R (srv.update_lease_status l t).1
  pub lease_gone : (l : Lease) (t : S) → R t → R (srv.delete_lease l t).1
  pub secret_new : (x : Secret) (t : S) → R t → R (srv.create_secret x t).1
  pub secret : (x : Secret) (t : S) → R t → R (srv.update_secret x t).1
  pub instance_gone : (ns n : Text) (t : S) → R t → R (srv.delete_instance ns n t).1

module _ {S Q : Type 0} (srv : Server S Q) (lib : Library Q) (R : S → Type 0)
    (keep : LeaseWritesKeep srv R) where
  refresh-kept :
      (context : Error → Error) (l : Lease) (src x : Secret) (t : S)
      → R t
      → R (refresh_lease_secret srv lib context l src x t).1
  unfolding refresh_lease_secret
  refresh-kept context l src x t r =
      ground (arith, keep.secret (record x { content = src.content }) t r)

  take-kept : (l : Lease) (src : Secret) (t : S) → R t → R (take_existing_secret srv lib l src t).1
  unfolding take_existing_secret
  take-kept l src t r =
      elim (Reply-cases
        (srv.get_secret l.meta.namespace (lease_kubeconfig_secret_name l.meta.name) t)) [
          | inl (x, e) ↦ rw (e, take_existing_secret) (refresh-kept (λ e. e) l src x t r)
          | inr (x, e) ↦ rw (e, take_existing_secret) r
        ]

  after_create-kept :
      (l : Lease) (src : Secret) (x : Option ApiError) (t : S)
      → R t
      → R (after_secret_create srv lib l src x t).1
  unfolding after_secret_create
  after_create-kept l src none t r = r
  after_create-kept l src (some already_exists) t r = take-kept l src t r
  after_create-kept l src (some not_found) t r = r
  after_create-kept l src (some (forbidden m)) t r = r
  after_create-kept l src (some (other m)) t r = r

  create-kept : (l : Lease) (src : Secret) (t : S) → R t → R (create_lease_secret srv lib l src t).1
  unfolding create_lease_secret
  create-kept l src t r =
      elim (Option-cases (lib.set_controller_reference l.meta (lease_secret l src).meta)) [
        | inl e ↦ rw (e, create_lease_secret) r
        | inr (owned, e) ↦
            rw (e, create_lease_secret)
              (after_create-kept l src _ _
                (keep.secret_new (record (lease_secret l src) { meta = owned }) t r))
      ]

  copy-kept :
      (l : Lease) (src : Secret) (x : Reply Secret) (t : S)
      → R t
      → R (copy_secret srv lib l src x t).1
  unfolding copy_secret
  copy-kept l src (found x) t r =
      refresh-kept (wrapped "updating lease kubeconfig secret") l src x t r
  copy-kept l src (refused not_found) t r = create-kept l src t r
  copy-kept l src (refused already_exists) t r = r
  copy-kept l src (refused (forbidden m)) t r = r
  copy-kept l src (refused (other m)) t r = r

  write-kept :
      (context : String) (put_it : S → Option ApiError × S) (t : S)
      → R (put_it t).1
      → R ((write context put_it >> value done) t).1
  write-kept context put_it t r = subst R (sym (write-state context put_it t)) r

  bind-kept : (now : ℤ) (l : Lease) (i : Instance) (t : S) → R t → R (bind srv lib now l i t).1
  unfolding bind materialize_secret
  bind-kept now l i t r =
      let l' = bound_lease lib now l i in
      let finish = λ (u : Unit {0}).
        write "updating lease status after bind" (srv.update_lease_status l') >> value done in
      let copy = λ (src : Secret). materialize_secret srv lib l src >>= finish in
      read-final R "fetching instance kubeconfig secret"
        (srv.get_secret i.meta.namespace i.status.kubeconfig_secret_ref) copy t
        (λ src _.
          let r1 =
            copy-kept l src
              (srv.get_secret l.meta.namespace (lease_kubeconfig_secret_name l.meta.name) t) t r in
          bind-final R (materialize_secret srv lib l src) finish t
            (λ _ _.
              write-kept "updating lease status after bind" (srv.update_lease_status l') _
                (keep.lease_status l' _ r1))
            (λ _ _. r1))
        (λ _ _. r)

  pending-kept :
      (l : Lease) (reason : Reason) (msg : Message) (t : S)
      → R t
      → R (set_pending_condition srv lib l reason msg t).1
  unfolding set_pending_condition
  pending-kept l reason msg t r =
      ground (arith, keep.lease_status (pending_lease srv lib l reason msg) t r)

  wait-kept : (l : Lease) (t : S) → R t → R (wait_for_capacity srv lib l t).1
  unfolding wait_for_capacity
  wait-kept l t r =
      let msg : Message = record {
        format =
            "no Ready, unclaimed ClusterInstance in pool %q; waiting for ClusterPool controller to provision one";
        numbers = [];
        names = l.spec.pool_ref ∷ [];
      } in
      let r1 = pending-kept l waiting_for_capacity msg t r in
      elim (Option-cases (set_pending_condition srv lib l waiting_for_capacity msg t).0) [
        | inl f ↦ rw (f, wait_for_capacity) r1
        | inr (x, f) ↦ rw (f, wait_for_capacity) r1
      ]

  match-kept :
      (now : ℤ) (l : Lease) (is_ : List Instance) (ls : List Lease) (t : S)
      → R t
      → R (match_lease srv lib now l is_ ls t).1
  unfolding match_lease
  match-kept now l is_ ls t r =
      elim (Option-cases (candidate_loop (claimed_loop l.spec.pool_ref [] ls) is_)) [
        | inl e ↦ rw (e, match_lease) (wait-kept l t r)
        | inr (i, e) ↦ rw (e, match_lease) (bind-kept now l i t r)
      ]

  seek-kept :
      (now : ℤ) (l : Lease) (policy : NamespacePolicy) (t : S)
      → R t
      → R (seek_instance srv lib now l policy t).1
  unfolding seek_instance wait_for_namespace
  seek-kept now l policy t r =
      let choose = λ (is_ : List Instance) (siblings : List Lease).
        match_lease srv lib now l (pool_instances l.spec.pool_ref is_) siblings in
      let read_siblings = λ (is_ : List Instance).
        read "listing sibling ClusterLeases" (srv.list_leases l.meta.namespace) >>= choose is_ in
      elim (Bool-cases policy.is_terminating) [
        | inl e ↦ rw e (pending-kept l policy.reason policy.message t r)
        | inr e ↦ rw e (
            read-final R "listing ClusterInstances for pool" (srv.list_instances l.meta.namespace)
              read_siblings t
              (λ is_ _.
                read-final R "listing sibling ClusterLeases" (srv.list_leases l.meta.namespace)
                  (choose is_) t (λ siblings _. match-kept now l _ siblings t r) (λ _ _. r))
              (λ _ _. r))
      ]

  policy-state : (n : Text) (t : S) → (read_namespace_policy srv n t).1 ≡ t
  unfolding read_namespace_policy
  policy-state n t = ground arith

  current-kept : (now : ℤ) (l : Lease) (t : S) → R t → R (reconcile_pending srv lib now l t).1
  unfolding reconcile_pending
  current-kept now l t r = elim (Reply-cases (srv.get_lease l.meta.namespace l.meta.name t)) [
    | inr (e, h) ↦ subst R (sym (stays e h)) r
    | inl (c, h) ↦
        rw (h, reconcile_pending)
          (elim (Bool-cases (may_bind c)) [
            | inr e ↦ rw e r
            | inl e ↦ rw e (
                let r1 = subst R (sym (policy-state c.meta.namespace t)) r in
                bind-final R (read_namespace_policy srv c.meta.namespace)
                  (seek_instance srv lib now c) t (λ policy _. seek-kept now c policy _ r1)
                  (λ _ _. r1))
          ])
  ]
    where
      stays :
          (e : ApiError)
          → srv.get_lease l.meta.namespace l.meta.name t ≡ refused e
          → (reconcile_pending srv lib now l t).1 ≡ t
      stays e h = ground arith

  delete-kept :
      (context : String) (l : Lease) (t : S) → R t → R (delete_lease srv lib context l t).1
  unfolding delete_lease
  delete-kept context l t r =
      let r1 = keep.lease_gone l t r in
      elim (Option-cases (unless_missing (srv.delete_lease l t).0)) [
        | inl e ↦ rw (e, delete_lease) r1
        | inr (x, e) ↦ rw (e, delete_lease) r1
      ]

  bound-kept : (now : ℤ) (l : Lease) (t : S) → R t → R (reconcile_bound srv lib now l t).1
  unfolding reconcile_bound
  bound-kept now l t r = elim (Option-cases (ttl_remaining srv lib now l)) [
    | inl e ↦ rw (e, reconcile_bound) r
    | inr (d, e) ↦
        rw (e, reconcile_bound)
          (elim (Bool-cases (ltb_ℤ (pos 0) d)) [
            | inl f ↦ rw f r
            | inr f ↦ rw f (delete-kept "deleting lease after TTL expiry" l t r)
          ])
  ]

  release-kept : (l : Lease) (t : S) → R t → R (release_bound_instance srv lib l t).1
  unfolding release_bound_instance
  release-kept l t r = elim (Option-cases l.status.instance_ref) [
    | inl e ↦ rw (e, release_bound_instance) r
    | inr (n, e) ↦
        let r1 = keep.instance_gone l.meta.namespace n t r in
        rw (e, release_bound_instance)
          (elim (Option-cases (unless_missing (srv.delete_instance l.meta.namespace n t).0)) [
            | inl f ↦ rw f r1
            | inr (x, f) ↦ rw f r1
          ])
  ]

  removed-kept : (l : Lease) (t : S) → R t → R (reconcile_delete srv lib l t).1
  unfolding reconcile_delete
  removed-kept l t r =
      let u = (release_bound_instance srv lib l t).1 in
      let r1 = release-kept l t r in
      elim (Bool-cases (contains_finalizer l.meta.finalizers lease_finalizer)) [
        | inr e ↦ rw e r
        | inl e ↦ rw e (elim (Option-cases (release_bound_instance srv lib l t).0) [
          | inr (x, f) ↦ rw f r1
          | inl f ↦ rw f (
              write-kept "removing lease finalizer" (srv.update_lease (without_finalizer srv lib l))
                u (keep.lease (without_finalizer srv lib l) u r1))
        ])
      ]

  phase-kept :
      (now : ℤ) (l : Lease) (phase : LeasePhase) (t : S)
      → l.status.phase ≡ phase
      → R t
      → R (reconcile_phase srv lib now l t).1
  unfolding reconcile_phase
  phase-kept now l LeasePhase.unset t e r = rw (e, reconcile_phase) (current-kept now l t r)
  phase-kept now l LeasePhase.pending t e r = rw (e, reconcile_phase) (current-kept now l t r)
  phase-kept now l LeasePhase.bound t e r = rw (e, reconcile_phase) (bound-kept now l t r)
  phase-kept now l LeasePhase.releasing t e r =
      rw (e, reconcile_phase) (delete-kept "deleting lease in Releasing phase" l t r)
  phase-kept now l LeasePhase.released t e r = rw (e, reconcile_phase) r
  phase-kept now l LeasePhase.failed t e r = rw (e, reconcile_phase) r

  add-kept : (l : Lease) (t : S) → R t → R (add_lease_finalizer srv lib l t).1
  unfolding add_lease_finalizer
  add-kept l t r =
      let l' : Lease = record l {
        meta = record l.meta { finalizers = l.meta.finalizers ++ lease_finalizer ∷ [] };
      } in
      write-kept "adding finalizer" (srv.update_lease l') t (keep.lease l' t r)

  lease-kept : (now : ℤ) (l : Lease) (t : S) → R t → R (reconcile_lease srv lib now l t).1
  unfolding reconcile_lease
  lease-kept now l t r = elim (Bool-cases (is_deleting l.meta)) [
    | inl e ↦ rw e (removed-kept l t r)
    | inr e ↦ rw e (elim (Bool-cases (contains_finalizer l.meta.finalizers lease_finalizer)) [
      | inl f ↦ rw f (phase-kept now l l.status.phase t refl r)
      | inr f ↦ rw f (add-kept l t r)
    ])
  ]

  -- A reconcile of a lease keeps what each of its writes keeps.
  pub reconcile-kept :
      (now : ℤ) (ns name : Text) (t : S) → R t → R (reconcile srv lib now ns name t).1
  unfolding reconcile
  reconcile-kept now ns name t r = elim (Reply-cases (srv.get_lease ns name t)) [
    | inl (l, h) ↦ rw (h, reconcile) (lease-kept now l t r)
    | inr (e, h) ↦ subst R (sym (stays e h)) r
  ]
    where
      stays :
          (e : ApiError)
          → srv.get_lease ns name t ≡ refused e
          → (reconcile srv lib now ns name t).1 ≡ t
      stays e h = ground arith
