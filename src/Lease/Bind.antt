-- ===== src/Lease/Bind.antt =====
-- bind of internal/controller/clusterlease_controller.go: the lease's copy of the kubeconfig Secret,
-- then one write of the lease's status.
use guestcluster.Api.{Instance, Lease, LeasePhase, Secret}
use guestcluster.Base.{Option, Text, [], codes, if◌then◌else◌, none, not, some, true, ℤ, ◌∷◌}
use guestcluster.Kube.{
  ApiError, Error, M, Outcome, Reply, already_exists, api, condition_of, done, fail, found, go_on,
  instance_bound, lease_bound, message, named, not_found, read, refused, return, return_with, value,
  wrapped, write, ◌>>=◌, ◌>>◌,
}
use guestcluster.Platform.{Library, Server}
use guestcluster.Resources.{lease_kubeconfig_secret_name}

-- corev1.SecretTypeOpaque.
abbrev pub secret_type_opaque : Text
secret_type_opaque = codes "Opaque"

-- The Secret that bind creates, but for the owner reference.
unfoldable pub lease_secret : Lease → Secret → Secret
lease_secret l src = record {
  meta = named l.meta.namespace (lease_kubeconfig_secret_name l.meta.name);
  type = secret_type_opaque;
  content = src.content;
}

abbrev another_owner : Error
another_owner = message "lease kubeconfig Secret belongs to another owner"

module _ {Q : Type 0} (lib : Library Q) where
  -- The lease with the binding written into its status.
  unfoldable pub bound_lease : ℤ → Lease → Instance → Lease
  bound_lease now l i = record l {
    status = record {
      phase = LeasePhase.bound;
      instance_ref = some i.meta.name;
      kubeconfig_secret_ref = some (lease_kubeconfig_secret_name l.meta.name);
      ocp_version = i.status.ocp_version;
      topology = i.status.topology;
      api_endpoint = i.status.api_endpoint;
      bound_time = some now;
      conditions = lib.set_condition l.status.conditions (
          condition_of lease_bound true instance_bound
            (record {
              format = "bound to ClusterInstance %q";
              numbers = [];
              names = i.meta.name ∷ [];
            })
            l.meta.generation);
    };
  }

module _ {S Q : Type 0} (srv : Server S Q) (lib : Library Q) where
  -- A Secret that is there is updated, if the lease controls it.
  unfoldable pub refresh_lease_secret : (Error → Error) → Lease → Secret → Secret → M S (Unit {0})
  refresh_lease_secret context l src existing =
      if not (lib.is_controlled_by existing.meta l.meta)
      then return_with (fail another_owner)
      else λ s.
          let r = srv.update_secret (record existing { content = src.content }) s in
          elim r.0 [ none ↦ (go_on tt, r.1) | some e ↦ (return (fail (context (api e))), r.1) ]

  -- Someone else created a Secret of the name meanwhile.
  unfoldable pub take_existing_secret : Lease → Secret → M S (Unit {0})
  unfolding refresh_lease_secret
  take_existing_secret l src s =
      elim (srv.get_secret l.meta.namespace (lease_kubeconfig_secret_name l.meta.name) s) [
        | found existing ↦ refresh_lease_secret (λ e. e) l src existing s
        | refused e ↦ (return (fail (api e)), s)
      ]

  -- What follows the create.
  unfoldable pub after_secret_create : Lease → Secret → Option ApiError → M S (Unit {0})
  unfolding take_existing_secret
  after_secret_create l src none = value tt
  after_secret_create l src (some already_exists) = take_existing_secret l src
  after_secret_create l src (some e) =
      return_with (fail (wrapped "creating lease kubeconfig secret" (api e)))

  unfoldable pub create_lease_secret : Lease → Secret → M S (Unit {0})
  unfolding after_secret_create
  create_lease_secret l src = elim (lib.set_controller_reference l.meta (lease_secret l src).meta) [
    | none ↦ return_with (fail (message "setting owner ref on lease kubeconfig secret"))
    | some owned ↦ λ s.
        let r = srv.create_secret (record (lease_secret l src) { meta = owned }) s in
        after_secret_create l src r.0 r.1
  ]

  -- The switch on what the read of the lease's Secret came to.
  unfoldable pub copy_secret : Lease → Secret → Reply Secret → M S (Unit {0})
  unfolding create_lease_secret refresh_lease_secret
  copy_secret l src (refused not_found) = create_lease_secret l src
  copy_secret l src (refused e) =
      return_with (fail (wrapped "fetching lease kubeconfig secret" (api e)))
  copy_secret l src (found existing) =
      refresh_lease_secret (wrapped "updating lease kubeconfig secret") l src existing

  unfoldable pub materialize_secret : Lease → Secret → M S (Unit {0})
  unfolding copy_secret
  materialize_secret l src s =
      copy_secret l src
        (srv.get_secret l.meta.namespace (lease_kubeconfig_secret_name l.meta.name) s) s

  unfoldable pub bind : ℤ → Lease → Instance → M S Outcome
  unfolding materialize_secret bound_lease
  bind now l i = do
    src ←
        read "fetching instance kubeconfig secret"
          (srv.get_secret i.meta.namespace i.status.kubeconfig_secret_ref)
    materialize_secret l src
    write "updating lease status after bind" (srv.update_lease_status (bound_lease lib now l i))
    value done
