-- ===== src/Instance/Ready.antt =====
-- markReady of internal/controller/clusterinstance_controller.go, upsertSecret of
-- internal/controller/helpers.go, and verifyCRCResource of
-- internal/controller/clusterinstance_crc_ownership.go as it treats a Secret.
use guestcluster.Api.{Instance, Phase, Secret}
use guestcluster.Base.{
  Bool, Option, Text, [], codes, false, if◌then◌else◌, is_empty, none, not, some, text_eq, true,
  ◌&&◌, ◌||◌, ◌∷◌,
}
use guestcluster.Instance.Status.{update_instance_status_if_changed}
use guestcluster.Kube.{
  ApiError, Condition, ConditionType, Error, M, Outcome, Reply, already_exists, api,
  backing_resources_available, condition_of, crc_agent, done, fail, found, go_on, label_value,
  message, named, not_found, ocp_version_matches, ocp_version_mismatch, plain, refused, return,
  return_with, version_mismatch, wrapped, ◌>>◌,
}
use guestcluster.Platform.{Library, Server}
use guestcluster.Resources.{common_labels, kubeconfig_secret_name}

abbrev pub kubeconfig_secret_key : Text
kubeconfig_secret_key = codes "kubeconfig"

abbrev pub ocp_version_secret_key : Text
ocp_version_secret_key = codes "ocpVersion"

-- The fields that upsertSecret takes over from the desired Secret.
unfoldable pub taken_over : Secret → Secret → Secret
taken_over desired existing = record {
  meta = record existing.meta { labels = desired.meta.labels; owners = desired.meta.owners };
  type = desired.type;
  content = desired.content;
}

-- Whether the Secret holds another kubeconfig or another version.
unfoldable pub kubeconfig_changed : Text → Text → Secret → Bool
kubeconfig_changed kubeconfig ocp_version existing =
    not (text_eq (label_value existing.content kubeconfig_secret_key) kubeconfig)
    || not (text_eq (label_value existing.content ocp_version_secret_key) ocp_version)

-- The Secret of markReady, without its owner.
unfoldable pub kubeconfig_secret : Instance → Text → Text → Secret
unfolding kubeconfig_secret_name common_labels
kubeconfig_secret i kubeconfig ocp_version = record {
  meta = record (named i.meta.namespace (kubeconfig_secret_name i.meta.name)) {
    labels = common_labels i.meta.name;
  };
  type = codes "Opaque";
  content = (kubeconfig_secret_key, kubeconfig) ∷ (ocp_version_secret_key, ocp_version) ∷ [];
}

-- The version that was asked for is not the one that is there.
unfoldable pub is_version_mismatch : Instance → Text → Bool
unfolding is_empty
is_version_mismatch i ocp_version =
    not (is_empty i.spec.template.ocp_version)
    && not (is_empty ocp_version)
    && not (text_eq i.spec.template.ocp_version ocp_version)

unfoldable pub version_condition : Instance → Text → Condition
unfolding is_version_mismatch
version_condition i ocp_version =
    if is_version_mismatch i ocp_version
    then condition_of version_mismatch true ocp_version_mismatch
        (record {
          format = "requested OCPVersion %q but observed %q";
          numbers = [];
          names = i.spec.template.ocp_version ∷ ocp_version ∷ [];
        })
        i.meta.generation
    else condition_of version_mismatch false ocp_version_matches
        (plain "observed OCPVersion matches template") i.meta.generation

module _ {S Q : Type 0} (srv : Server S Q) (lib : Library Q) where
  -- A Secret has no platform owner, so that only the instance itself may control it; the messages for
  -- another owner and for none are not told apart.
  unfoldable pub verify_crc_secret : Instance → Secret → Option Error
  verify_crc_secret i x =
      if not (text_eq x.meta.namespace i.meta.namespace)
      then some (message "CRC resource is outside the instance namespace")
      else if lib.is_controlled_by x.meta i.meta
      then none
      else some (message "CRC resource is not owned by ClusterInstance")

  -- From the Secret that exists: the check, and the update if it has changed.
  unfoldable pub settle_secret :
      (Error → Error) → Secret → (Secret → Bool) → (Secret → Option Error) → Secret → M S (Unit {0})
  unfolding taken_over
  settle_secret context desired changed verify existing s = elim (verify existing) [
    | some e ↦ (return (fail (context e)), s)
    | none ↦
        if not (changed existing)
        then (go_on tt, s)
        else let r = srv.update_secret (taken_over desired existing) s in
          elim r.0 [
            | none ↦ (go_on tt, r.1)
            | some e ↦ (return (fail (context (wrapped "updating secret" (api e)))), r.1)
          ]
  ]

  -- Another client has created the Secret.
  unfoldable pub settle_created :
      (Error → Error) → Secret → (Secret → Bool) → (Secret → Option Error) → M S (Unit {0})
  unfolding settle_secret
  settle_created context desired changed verify s =
      elim (srv.get_secret desired.meta.namespace desired.meta.name s) [
        | found existing ↦ settle_secret context desired changed verify existing s
        | refused e ↦
            (return (fail (context (wrapped "getting concurrently created secret" (api e)))), s)
      ]

  unfoldable pub after_upsert_create :
      (Error → Error)
      → Secret
      → (Secret → Bool)
      → (Secret → Option Error)
      → Option ApiError
      → M S (Unit {0})
  unfolding settle_created
  after_upsert_create context desired changed verify none s = (go_on tt, s)
  after_upsert_create context desired changed verify (some already_exists) s =
      settle_created context desired changed verify s
  after_upsert_create context desired changed verify (some e) s =
      (return (fail (context (wrapped "creating secret" (api e)))), s)

  unfoldable pub upsert_from :
      (Error → Error)
      → Secret
      → (Secret → Bool)
      → (Secret → Option Error)
      → Reply Secret
      → M S (Unit {0})
  unfolding settle_secret after_upsert_create
  upsert_from context desired changed verify (found existing) s =
      settle_secret context desired changed verify existing s
  upsert_from context desired changed verify (refused not_found) s =
      let r = srv.create_secret desired s in
      after_upsert_create context desired changed verify r.0 r.1
  upsert_from context desired changed verify (refused e) s =
      (return (fail (context (wrapped "getting secret" (api e)))), s)

  -- `context` is the wrapping by the caller.
  unfoldable pub upsert_secret :
      (Error → Error) → Secret → (Secret → Bool) → (Secret → Option Error) → M S (Unit {0})
  unfolding upsert_from
  upsert_secret context desired changed verify s =
      upsert_from context desired changed verify
        (srv.get_secret desired.meta.namespace desired.meta.name s) s

  unfoldable pub ready_instance : Instance → Text → Text → Instance
  unfolding version_condition kubeconfig_secret_name
  ready_instance i ocp_version api_endpoint =
      let without_agent = lib.remove_condition i.status.conditions crc_agent in
      record i {
        status = record i.status {
          phase = Phase.ready;
          ocp_version = ocp_version;
          topology = some i.spec.topology;
          api_endpoint = api_endpoint;
          kubeconfig_secret_ref = kubeconfig_secret_name i.meta.name;
          observed_generation = i.meta.generation;
          conditions =
              lib.set_condition (lib.set_condition without_agent (version_condition i ocp_version))
                (condition_of ConditionType.ready true backing_resources_available
                  (plain "Guest cluster is provisioned and kubeconfig is available")
                  i.meta.generation);
        };
      }

  unfoldable pub record_ready : Instance → Text → Text → M S Outcome
  unfolding ready_instance update_instance_status_if_changed
  record_ready i ocp_version api_endpoint s =
      let r =
        update_instance_status_if_changed srv lib "updating status to Ready" i.status
          (ready_instance i ocp_version api_endpoint) s in
      elim r.0 [ none ↦ (go_on done, r.1) | some e ↦ (return (fail e), r.1) ]

  -- `verify` is the closure that markReady chooses by the topology.
  unfoldable pub mark_ready : (Secret → Option Error) → Instance → Text → Text → Text → M S Outcome
  unfolding kubeconfig_secret kubeconfig_changed upsert_secret record_ready
  mark_ready verify i ocp_version api_endpoint kubeconfig =
      let secret = kubeconfig_secret i kubeconfig ocp_version in
      elim (lib.set_controller_reference i.meta secret.meta) [
        | none ↦ return_with (fail (message "setting owner reference on kubeconfig secret"))
        | some owned ↦ do
          upsert_secret (wrapped "upserting kubeconfig secret") (record secret { meta = owned })
              (kubeconfig_changed kubeconfig ocp_version) verify
          record_ready i ocp_version api_endpoint
      ]
