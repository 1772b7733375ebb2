-- ===== src/Lease/Passes.antt =====
-- What a reconcile of a lease does to the stored leases: one write at most, and only a bind changes
-- which instance a lease names.
use guestcluster.Api.{Lease, Secret}
use guestcluster.Base.{
  Bool-cases, List, Option, Option-cases, String, Text, [], ap, false, inl, inr, ltb_ℤ, none, pos,
  refl, some, subst, sym, ℤ, ◌++◌, ◌∙◌, ◌∷◌, ◌≡◌,
}
use guestcluster.Kube.{
  ApiError, Error, Message, Reason, Reply, Reply-cases, already_exists, contains_finalizer,
  forbidden, found, not_found, other, refused, unless_missing, wrapped, write-state,
}
use guestcluster.Lease.Bind.{
  after_secret_create, copy_secret, create_lease_secret, lease_secret, materialize_secret,
  refresh_lease_secret, take_existing_secret,
}
use guestcluster.Lease.Laws.{IsCurrent, LeaseStore, LeaseWrite}
use guestcluster.Lease.Match.{claimed_loop, pending_lease, set_pending_condition}
use guestcluster.Lease.Reconcile.{
  add_lease_finalizer, delete_lease, lease_finalizer, reconcile_bound, reconcile_delete,
  release_bound_instance, ttl_remaining, without_finalizer,
}
use guestcluster.Platform.{Library, Server}
use guestcluster.Pool.Accounting.{is_claimed}
use guestcluster.Resources.{lease_kubeconfig_secret_name}

module _ {S Q : Type 0} (srv : Server S Q) (lib : Library Q) {ns : Text} {leases : S → List Lease}
    (store : LeaseStore srv ns leases) where
  pub data LeasePass (s t : S) : Type 0 where
    quiet : leases t ≡ leases s → LeasePass s t
    wrote :
        (l l' : Lease)
        → l'.spec ≡ l.spec
        → l'.status.instance_ref ≡ l.status.instance_ref
        → LeaseWrite l l' (leases s) (leases t)
        → LeasePass s t
    bound :
        (l l' : Lease) (name : Text)
        → l'.spec ≡ l.spec
        → l.status.instance_ref ≡ none
        → l'.status.instance_ref ≡ some name
        → is_claimed (claimed_loop l.spec.pool_ref [] (leases s)) name ≡ false
        → LeaseWrite l l' (leases s) (leases t)
        → LeasePass s t

  refresh-leases :
      (context : Error → Error) (l : Lease) (src existing : Secret) (t : S)
      → leases (refresh_lease_secret srv lib context l src existing t).1 ≡ leases t
  unfolding refresh_lease_secret
  refresh-leases context l src existing t =
      elim (Bool-cases (lib.is_controlled_by existing.meta l.meta)) [
        | inr e ↦ rw e refl
        | inl e ↦
            rw e
              (elim (Option-cases
                (srv.update_secret (record existing { content = src.content }) t).0) [
                  | inl f ↦ rw f (store.secret_updated _ t)
                  | inr (x, f) ↦ rw f (store.secret_updated _ t)
                ])
      ]

  take-leases :
      (l : Lease) (src : Secret) (t : S)
      → leases (take_existing_secret srv lib l src t).1 ≡ leases t
  unfolding take_existing_secret
  take-leases l src t =
      elim (Reply-cases
        (srv.get_secret l.meta.namespace (lease_kubeconfig_secret_name l.meta.name) t)) [
          | inl (x, e) ↦ rw (e, take_existing_secret) (refresh-leases (λ e. e) l src x t)
          | inr (x, e) ↦ rw (e, take_existing_secret) refl
        ]

  after_create-leases :
      (l : Lease) (src : Secret) (r : Option ApiError) (t : S)
      → leases (after_secret_create srv lib l src r t).1 ≡ leases t
  unfolding after_secret_create
  after_create-leases l src none t = refl
  after_create-leases l src (some already_exists) t = take-leases l src t
  after_create-leases l src (some not_found) t = refl
  after_create-leases l src (some (forbidden m)) t = refl
  after_create-leases l src (some (other m)) t = refl

  create-leases :
      (l : Lease) (src : Secret) (t : S) → leases (create_lease_secret srv lib l src t).1 ≡ leases t
  unfolding create_lease_secret
  create-leases l src t =
      elim (Option-cases (lib.set_controller_reference l.meta (lease_secret l src).meta)) [
        | inl e ↦ rw (e, create_lease_secret) refl
        | inr (owned, e) ↦
            rw (e, create_lease_secret) (after_create-leases l src _ _ ∙ store.secret_created _ t)
      ]

  copy-leases :
      (l : Lease) (src : Secret) (r : Reply Secret) (t : S)
      → leases (copy_secret srv lib l src r t).1 ≡ leases t
  unfolding copy_secret
  copy-leases l src (found x) t =
      refresh-leases (wrapped "updating lease kubeconfig secret") l src x t
  copy-leases l src (refused not_found) t = create-leases l src t
  copy-leases l src (refused already_exists) t = refl
  copy-leases l src (refused (forbidden m)) t = refl
  copy-leases l src (refused (other m)) t = refl

  pub materialize-leases :
      (l : Lease) (src : Secret) (t : S) → leases (materialize_secret srv lib l src t).1 ≡ leases t
  unfolding materialize_secret
  materialize-leases l src t = copy-leases l src _ t

  module _ (s : S) (l : Lease) (name : Text) (was_read : srv.get_lease ns name s ≡ found l) where
    pub current : (t : S) → leases t ≡ leases s → IsCurrent srv ns leases l s t
    current t k = record { name = name; was_read = was_read; unchanged = k }

    pub pending-LeasePass :
        (reason : Reason) (msg : Message) (t : S)
        → leases t ≡ leases s
        → LeasePass s (set_pending_condition srv lib l reason msg t).1
    unfolding set_pending_condition pending_lease
    pending-LeasePass reason msg t k =
        let l' = pending_lease srv lib l reason msg in
        let step : LeasePass s (srv.update_lease_status l' t).1 = wrote l l' refl refl (
          subst (λ xs. LeaseWrite l l' xs (leases (srv.update_lease_status l' t).1)) k
            (store.lease_status_written l l' s t (current t k) refl refl)) in
        elim (Bool-cases (lib.same_lease_status l.status l'.status)) [
          | inl e ↦ rw e (quiet k)
          | inr e ↦ rw e (elim (Option-cases (srv.update_lease_status l' t).0) [
            | inl f ↦ rw f step
            | inr (x, f) ↦ rw f step
          ])
        ]

    deleted : LeasePass s (srv.delete_lease l s).1
    deleted = wrote l l refl refl (store.lease_deleted l s s (current s refl))

    pub delete-LeasePass : (context : String) → LeasePass s (delete_lease srv lib context l s).1
    unfolding delete_lease
    delete-LeasePass context = elim (Option-cases (unless_missing (srv.delete_lease l s).0)) [
      | inl e ↦ rw (e, delete_lease) deleted
      | inr (x, e) ↦ rw (e, delete_lease) deleted
    ]

    pub bound-LeasePass : (now : ℤ) → LeasePass s (reconcile_bound srv lib now l s).1
    unfolding reconcile_bound
    bound-LeasePass now = elim (Option-cases (ttl_remaining srv lib now l)) [
      | inl e ↦ rw (e, reconcile_bound) (quiet refl)
      | inr (d, e) ↦
          rw (e, reconcile_bound)
            (elim (Bool-cases (ltb_ℤ (pos 0) d)) [
              | inl f ↦ rw f (quiet refl)
              | inr f ↦ rw f (delete-LeasePass "deleting lease after TTL expiry")
            ])
    ]

    release-leases :
        l.meta.namespace ≡ ns → leases (release_bound_instance srv lib l s).1 ≡ leases s
    unfolding release_bound_instance
    release-leases home = elim (Option-cases l.status.instance_ref) [
      | inl e ↦ rw (e, release_bound_instance) refl
      | inr (n, e) ↦
          rw (e, release_bound_instance)
            (elim (Option-cases (unless_missing (srv.delete_instance l.meta.namespace n s).0)) [
              | inl f ↦ rw (f, home) (store.instance_deleted n s)
              | inr (x, f) ↦ rw (f, home) (store.instance_deleted n s)
            ])
    ]

    written :
        (l' : Lease) (t : S)
        → leases t ≡ leases s
        → l'.meta.namespace ≡ l.meta.namespace
        → l'.meta.name ≡ l.meta.name
        → l'.spec ≡ l.spec
        → l'.status ≡ l.status
        → LeasePass s (srv.update_lease l' t).1
    written l' t k ens en es est = wrote l l' es (ap (λ st. st.instance_ref) est) (
        subst (λ xs. LeaseWrite l l' xs (leases (srv.update_lease l' t).1)) k
          (store.lease_written l l' s t (current t k) ens en est))

    pub reconcile_delete-LeasePass :
        l.meta.namespace ≡ ns → LeasePass s (reconcile_delete srv lib l s).1
    unfolding reconcile_delete
    reconcile_delete-LeasePass home =
        let k = release-leases home in
        let t = (release_bound_instance srv lib l s).1 in
        elim (Bool-cases (contains_finalizer l.meta.finalizers lease_finalizer)) [
          | inr e ↦ rw e (quiet refl)
          | inl e ↦ rw e (elim (Option-cases (release_bound_instance srv lib l s).0) [
            | inr (x, f) ↦ rw f (quiet k)
            | inl f ↦ rw f (
                subst (LeasePass s)
                  (sym (
                    write-state "removing lease finalizer"
                      (srv.update_lease (without_finalizer srv lib l)) t))
                  (written (without_finalizer srv lib l) t k refl refl refl refl))
          ])
        ]

    pub add-LeasePass : LeasePass s (add_lease_finalizer srv lib l s).1
    unfolding add_lease_finalizer
    add-LeasePass =
        let l' : Lease = record l {
          meta = record l.meta { finalizers = l.meta.finalizers ++ lease_finalizer ∷ [] };
        } in
        subst (LeasePass s) (sym (write-state "adding finalizer" (srv.update_lease l') s))
          (written l' s refl refl refl refl refl)
