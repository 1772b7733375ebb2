-- ===== src/Lease/Secrets.antt =====
-- A bind never touches a Secret that the lease does not control.
use guestcluster.Api.{Instance, Lease, Secret}
use guestcluster.Base.{
  Bool, Bool-cases, List, Option, Option-cases, Text, ap, arith, count_if, false, inl, inr, none,
  refl, some, subst, sym, true, ℤ, ◌≡◌, ◌≤◌,
}
use guestcluster.Kube.{
  ApiError, Error, Reply, Reply-cases, already_exists, bind-final, done, forbidden, found,
  not_found, other, read-final, refused, value, wrapped, write, write-state, ◌>>=◌, ◌>>◌,
}
use guestcluster.Lease.Bind.{
  after_secret_create, bind, bound_lease, copy_secret, create_lease_secret, lease_secret,
  materialize_secret, refresh_lease_secret, take_existing_secret,
}
use guestcluster.Platform.{Library, Server}
use guestcluster.Resources.{lease_kubeconfig_secret_name}

-- How the Secrets of the server change by the writes of a bind. An update replaces the Secret that
-- was read and leaves the others.
pub record SecretStore {S Q : Type 0} (srv : Server S Q) (secrets : S → List Secret) : Type 0 where
  pub create_keeps_secrets :
      (x : Secret) (s : S) (q : Secret → Bool)
      → count_if q (secrets s) ≤ count_if q (secrets (srv.create_secret x s).1)
  pub update_keeps_others :
      (ns name : Text) (x x' : Secret) (s : S) (q : Secret → Bool)
      → srv.get_secret ns name s ≡ found x
      → x'.meta ≡ x.meta
      → q x ≡ false
      → count_if q (secrets s) ≤ count_if q (secrets (srv.update_secret x' s).1)
  pub lease_status_keeps_secrets :
      (l : Lease) (s : S) → secrets (srv.update_lease_status l s).1 ≡ secrets s

module _ {S Q : Type 0} (srv : Server S Q) (lib : Library Q) {secrets : S → List Secret}
    (store : SecretStore srv secrets) (l : Lease) (q : Secret → Bool)
    (foreign : (x : Secret) → q x ≡ true → lib.is_controlled_by x.meta l.meta ≡ false) where
  abbrev Kept : S → S → Type 0
  Kept s t = count_if q (secrets s) ≤ count_if q (secrets t)

  controlled-not_foreign : (x : Secret) → lib.is_controlled_by x.meta l.meta ≡ true → q x ≡ false
  controlled-not_foreign x h = elim (Bool-cases (q x)) [ inl e ↦ cc (h, foreign x e) | inr e ↦ e ]

  refresh-Kept :
      (context : Error → Error) (ns name : Text) (src x : Secret) (s : S)
      → srv.get_secret ns name s ≡ found x
      → Kept s (refresh_lease_secret srv lib context l src x s).1
  unfolding refresh_lease_secret
  refresh-Kept context ns name src x s h = elim (Bool-cases (lib.is_controlled_by x.meta l.meta)) [
    | inr e ↦ rw e (omega arith)
    | inl e ↦ rw e (
        let x' : Secret = record x { content = src.content } in
        let k = store.update_keeps_others ns name x x' s q h refl (controlled-not_foreign x e) in
        elim (Option-cases (srv.update_secret x' s).0) [ inl f ↦ rw f k | inr (y, f) ↦ rw f k ])
  ]

  take-Kept : (src : Secret) (s : S) → Kept s (take_existing_secret srv lib l src s).1
  unfolding take_existing_secret
  take-Kept src s =
      elim (Reply-cases
        (srv.get_secret l.meta.namespace (lease_kubeconfig_secret_name l.meta.name) s)) [
          | inl (x, e) ↦ rw (e, take_existing_secret) (refresh-Kept (λ e. e) _ _ src x s e)
          | inr (x, e) ↦ rw (e, take_existing_secret) (omega arith)
        ]

  after_create-Kept :
      (src : Secret) (r : Option ApiError) (s : S)
      → Kept s (after_secret_create srv lib l src r s).1
  unfolding after_secret_create
  after_create-Kept src none s = omega arith
  after_create-Kept src (some already_exists) s = take-Kept src s
  after_create-Kept src (some not_found) s = omega arith
  after_create-Kept src (some (forbidden m)) s = omega arith
  after_create-Kept src (some (other m)) s = omega arith

  create-Kept : (src : Secret) (s : S) → Kept s (create_lease_secret srv lib l src s).1
  unfolding create_lease_secret
  create-Kept src s =
      elim (Option-cases (lib.set_controller_reference l.meta (lease_secret l src).meta)) [
        | inl e ↦ rw (e, create_lease_secret) (omega arith)
        | inr (owned, e) ↦
            rw (e, create_lease_secret)
              (let x : Secret = record (lease_secret l src) { meta = owned } in
                omega (
                  arith,
                  store.create_keeps_secrets x s q,
                  after_create-Kept src (srv.create_secret x s).0 (srv.create_secret x s).1,
                ))
      ]

  copy-Kept :
      (ns name : Text) (src : Secret) (r : Reply Secret) (s : S)
      → srv.get_secret ns name s ≡ r
      → Kept s (copy_secret srv lib l src r s).1
  unfolding copy_secret
  copy-Kept ns name src (found x) s h =
      refresh-Kept (wrapped "updating lease kubeconfig secret") ns name src x s h
  copy-Kept ns name src (refused not_found) s h = create-Kept src s
  copy-Kept ns name src (refused already_exists) s h = omega arith
  copy-Kept ns name src (refused (forbidden m)) s h = omega arith
  copy-Kept ns name src (refused (other m)) s h = omega arith

  materialize-Kept : (src : Secret) (s : S) → Kept s (materialize_secret srv lib l src s).1
  unfolding materialize_secret
  materialize-Kept src s =
      copy-Kept l.meta.namespace (lease_kubeconfig_secret_name l.meta.name) src _ s refl

  -- A bind never writes over a Secret that the lease does not control: a Boolean test that only
  -- such Secrets pass holds of at least as many Secrets after the bind as before, also where
  -- another client creates the Secret between the read and the create.
  pub bind-spares_foreign :
      (now : ℤ) (i : Instance) (s : S)
      → count_if q (secrets s) ≤ count_if q (secrets (bind srv lib now l i s).1)
  unfolding bind bound_lease
  bind-spares_foreign now i s =
      let l' = bound_lease lib now l i in
      let finish = λ (u : Unit {0}).
        write "updating lease status after bind" (srv.update_lease_status l') >> value done in
      let copy = λ (src : Secret). materialize_secret srv lib l src >>= finish in
      read-final (Kept s) "fetching instance kubeconfig secret"
        (srv.get_secret i.meta.namespace i.status.kubeconfig_secret_ref) copy s
        (λ src _.
          let t = (materialize_secret srv lib l src s).1 in
          let k = materialize-Kept src s in
          bind-final (Kept s) (materialize_secret srv lib l src) finish s
            (λ _ _.
              subst (Kept s)
                (sym
                  (write-state "updating lease status after bind" (srv.update_lease_status l') t))
                (omega (arith, k, ap (count_if q) (store.lease_status_keeps_secrets l' t))))
            (λ _ _. k))
        (λ _ _. omega arith)
