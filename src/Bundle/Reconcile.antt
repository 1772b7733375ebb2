-- ===== src/Bundle/Reconcile.antt =====
-- internal/controller/crcbundle_controller.go: the handlers of the phases.
use guestcluster.Api.{Bundle, BundlePhase}
use guestcluster.Base.{
  Bool, List, Option, String, Text, [], codes, false, if◌then◌else◌, is_empty, ltb_ℤ, negsuc, none,
  not, pos, some, text_eq, true, ℤ, ◌&&◌, ◌==◌, ◌∷◌,
}
use guestcluster.Bundle.{BundleServer, Claim, ConfigMap, Job, JobCondition, Site}
use guestcluster.Bundle.Await.{await, crc_bundle_requeue_interval}
use guestcluster.Bundle.Build.{
  build_bundle_prep_job, build_golden_pvc, build_scratch_pvc, bundle_arch, resolve_bundle_urls,
  scratch_pvc_name,
}
use guestcluster.Kube.{
  ConditionType, M, Message, Outcome, Reply, api, condition_of, done, fail, found, go_on, handle,
  is_deleting, label_value, message, not_found, other_reason, plain, refused, requeue, return,
  return_with, unless_exists, value, wrapped, write, ◌>>=◌, ◌>>◌,
}
use guestcluster.Platform.{Library}
use guestcluster.Resources.Names.{
  bundle_metadata_config_map_name, bundle_prep_job_name, bundle_ssh_key_secret_name,
  golden_pvc_name,
}

-- The first JobFailed condition that is True, as its reason.
unfoldable pub failed_condition : List JobCondition → Option Text
unfolding is_empty
failed_condition [] = none
failed_condition (c ∷ cs) =
    let rest = failed_condition cs in
    if text_eq c.type (codes "Failed") && text_eq c.status (codes "True")
    then some (if not (is_empty c.reason) then c.reason else codes "JobFailed")
    else rest

-- The comparison of the failed pods with the limit; no limit counts as reached.
unfoldable pub pods_exhausted : Job → Bool
pods_exhausted job =
    ltb_ℤ (pos 0) job.failed
    && elim job.backoff_limit [ none ↦ true | some limit ↦ ltb_ℤ limit job.failed ]

unfoldable pub bundle_prep_job_failure : Job → Option Text
unfolding failed_condition pods_exhausted
bundle_prep_job_failure job = elim (failed_condition job.conditions) [
  | some reason ↦ some reason
  | none ↦ if pods_exhausted job then some (codes "BackoffLimitExceeded") else none
]

-- job.Status.Succeeded == 0.
abbrev pub is_zero : ℤ → Bool
is_zero (pos n) = n == 0
is_zero (negsuc n) = false

module _ {S Q : Type 0} (srv : BundleServer S Q) (lib : Library Q) (must_parse : Text → Q)
    (site : Site) where
  abbrev pub job_name : Bundle → Text
  job_name bundle = bundle_prep_job_name bundle.spec.version (bundle_arch bundle)

  abbrev pub golden_name : Bundle → Text
  golden_name bundle = golden_pvc_name bundle.spec.version (bundle_arch bundle)

  abbrev pub ssh_secret_name : Bundle → Text
  ssh_secret_name bundle = bundle_ssh_key_secret_name bundle.spec.version (bundle_arch bundle)

  abbrev pub metadata_name : Bundle → Text
  metadata_name bundle = bundle_metadata_config_map_name bundle.spec.version (bundle_arch bundle)

  abbrev pub scratch_name : Bundle → Text
  scratch_name bundle = scratch_pvc_name bundle.spec.version (bundle_arch bundle)

  unfoldable pub in_phase : BundlePhase → Bundle → Bundle
  in_phase phase bundle = record bundle { status = record bundle.status { phase = phase } }

  -- setBundleCondition.
  unfoldable pub set_bundle_condition : Bool → Text → Message → Bundle → Bundle
  set_bundle_condition status reason msg bundle = record bundle {
    status = record bundle.status {
      conditions = lib.set_condition bundle.status.conditions (
          condition_of ConditionType.ready status (other_reason reason) msg bundle.meta.generation);
    };
  }

  -- A status write whose error is returned as it is.
  unfoldable pub save : Bundle → M S Outcome
  save bundle s =
      let r = srv.update_bundle_status bundle s in
      elim r.0 [ none ↦ (go_on done, r.1) | some e ↦ (return (fail (api e)), r.1) ]

  -- The create of ensurePVC, after the read.
  unfoldable pub create_missing_claim : Claim Q → Reply (Claim Q) → M S (Unit {0})
  create_missing_claim claim (found existing) s = (go_on tt, s)
  create_missing_claim claim (refused not_found) s =
      let r = srv.create_claim claim s in
      elim (unless_exists r.0) [
        | none ↦ (go_on tt, r.1)
        | some e ↦ (return (fail (wrapped "creating PVC" e)), r.1)
      ]
  create_missing_claim claim (refused e) s = (return (fail (wrapped "getting PVC" (api e))), s)

  unfoldable pub ensure_pvc : Bundle → Claim Q → M S (Unit {0})
  unfolding create_missing_claim
  ensure_pvc bundle claim s = elim (lib.set_controller_reference bundle.meta claim.meta) [
    | none ↦ (return (fail (message "setting owner reference on PVC")), s)
    | some owned ↦
        create_missing_claim (record claim { meta = owned })
          (srv.get_claim owned.namespace owned.name s) s
  ]

  unfoldable pub create_missing_job : Job → Reply Job → M S (Unit {0})
  create_missing_job job (found existing) s = (go_on tt, s)
  create_missing_job job (refused not_found) s =
      let r = srv.create_job job s in
      elim (unless_exists r.0) [
        | none ↦ (go_on tt, r.1)
        | some e ↦ (return (fail (wrapped "creating bundle-prep Job" e)), r.1)
      ]
  create_missing_job job (refused e) s =
      (return (fail (wrapped "getting bundle-prep Job" (api e))), s)

  unfoldable pub ensure_job : Bundle → M S (Unit {0})
  unfolding create_missing_job resolve_bundle_urls build_bundle_prep_job
  ensure_job bundle s =
      let urls = resolve_bundle_urls bundle in
      let job = build_bundle_prep_job site bundle urls.0 urls.1 site.crc_agent_image in
      elim (lib.set_controller_reference bundle.meta job.meta) [
        | none ↦ (return (fail (message "setting owner reference on bundle-prep Job")), s)
        | some owned ↦
            create_missing_job (record job { meta = owned })
              (srv.get_job owned.namespace owned.name s) s
      ]

  unfoldable pub preparing_bundle : Bundle → Bundle
  unfolding in_phase set_bundle_condition
  preparing_bundle bundle =
      set_bundle_condition false (codes "Preparing")
        (plain "downloading and extracting the CRC bundle") (in_phase BundlePhase.preparing bundle)

  unfoldable pub reconcile_pending : Bundle → M S Outcome
  unfolding ensure_pvc ensure_job preparing_bundle build_golden_pvc build_scratch_pvc
  reconcile_pending bundle = elim (build_golden_pvc lib must_parse site bundle) [
    | none ↦ return_with (fail (message "invalid spec.goldenVolumeSize value"))
    | some golden ↦ do
      ensure_pvc bundle golden
      ensure_pvc bundle (build_scratch_pvc lib must_parse site bundle)
      ensure_job bundle
      write "updating CRCBundle status" (srv.update_bundle_status (preparing_bundle bundle))
      value done
  ]

  unfoldable pub failed_bundle : Text → Bundle → Bundle
  unfolding in_phase set_bundle_condition bundle_prep_job_name bundle_arch
  failed_bundle reason bundle =
      set_bundle_condition false (codes "PrepJobFailed")
        (record {
          format = "bundle-prep Job %s failed (%s); delete the Job to retry preparation";
          numbers = [];
          names = job_name bundle ∷ reason ∷ [];
        })
        (in_phase BundlePhase.failed bundle)

  -- The references, the metadata and the phase of a bundle whose Job has succeeded.
  unfoldable pub ready_bundle : ConfigMap → Bundle → Bundle
  unfolding set_bundle_condition golden_pvc_name bundle_ssh_key_secret_name bundle_arch
  ready_bundle cm bundle =
      set_bundle_condition true (codes "BundleReady")
        (plain "golden PVC and SSH key are ready to be cloned")
        (record bundle {
          status = record bundle.status {
            phase = BundlePhase.ready;
            disk_image_pvc_ref = some (golden_name bundle);
            disk_image_pvc_namespace = site.operator_namespace;
            ssh_key_secret_ref = some (ssh_secret_name bundle);
            ocp_version = label_value cm.content (codes "ocpVersion");
            sha256 = label_value cm.content (codes "sha256");
          };
        })

  -- The deletes once the bundle is Ready; their errors are only logged.
  unfoldable pub clean_up : Bundle → Job → M S Outcome
  unfolding scratch_pvc_name bundle_arch
  clean_up bundle job s =
      let t = (srv.delete_job job s).1 in
      elim (srv.get_claim site.operator_namespace (scratch_name bundle) t) [
        | found scratch ↦ (go_on done, (srv.delete_claim scratch t).1)
        | refused e ↦ (go_on done, t)
      ]

  unfoldable pub finish : Bundle → Job → ConfigMap → M S Outcome
  unfolding ready_bundle clean_up
  finish bundle job cm = do
    write "updating CRCBundle status" (srv.update_bundle_status (ready_bundle cm bundle))
    clean_up bundle job

  unfoldable pub publish : Bundle → Job → M S Outcome
  unfolding finish bundle_metadata_config_map_name bundle_ssh_key_secret_name bundle_arch
  publish bundle job = do
    cm ←
        await "getting bundle metadata configmap"
          (srv.get_config_map site.operator_namespace (metadata_name bundle))
    await "getting bundle SSH key secret"
        (srv.get_secret site.operator_namespace (ssh_secret_name bundle))
    finish bundle job cm

  unfoldable pub watch_job : Bundle → Job → M S Outcome
  unfolding bundle_prep_job_failure failed_bundle save publish
  watch_job bundle job = elim (bundle_prep_job_failure job) [
    | some reason ↦ save (failed_bundle reason bundle)
    | none ↦
        if is_zero job.succeeded
        then return_with (requeue crc_bundle_requeue_interval)
        else publish bundle job
  ]

  unfoldable pub reconcile_preparing : Bundle → M S Outcome
  unfolding watch_job in_phase save bundle_prep_job_name bundle_arch
  reconcile_preparing bundle s = elim (srv.get_job site.operator_namespace (job_name bundle) s) [
    | found job ↦ watch_job bundle job s
    | refused not_found ↦ save (in_phase BundlePhase.pending bundle) s
    | refused e ↦ (return (fail (wrapped "getting bundle-prep Job" (api e))), s)
  ]

  unfoldable pub reconcile_failed : Bundle → M S Outcome
  unfolding in_phase save bundle_prep_job_name bundle_arch
  reconcile_failed bundle s = elim (srv.get_job site.operator_namespace (job_name bundle) s) [
    | found job ↦ (go_on done, s)
    | refused not_found ↦ save (in_phase BundlePhase.pending bundle) s
    | refused e ↦ (return (fail (api e)), s)
  ]

  unfoldable pub reset_to_pending : Bundle → String → M S Outcome
  unfolding in_phase set_bundle_condition save
  reset_to_pending bundle reason = save (
      set_bundle_condition false (codes "Reprovisioning") (plain reason)
        (in_phase BundlePhase.pending bundle))

  -- The reference to the disk image is up to date.
  unfoldable pub refers_to_golden : Bundle → Bool
  unfolding golden_pvc_name bundle_arch
  refers_to_golden bundle =
      elim bundle.status.disk_image_pvc_ref [
        | none ↦ false
        | some name ↦ text_eq name (golden_name bundle)
      ]
      && text_eq bundle.status.disk_image_pvc_namespace site.operator_namespace

  unfoldable pub with_references : Bundle → Bundle
  unfolding golden_pvc_name bundle_arch
  with_references bundle = record bundle {
    status = record bundle.status {
      disk_image_pvc_ref = some (golden_name bundle);
      disk_image_pvc_namespace = site.operator_namespace;
    };
  }

  unfoldable pub republish : Bundle → M S Outcome
  unfolding refers_to_golden with_references
  republish bundle =
      if not (refers_to_golden bundle)
      then (do
        write "updating CRCBundle disk image PVC references"
            (srv.update_bundle_status (with_references bundle))
        value done)
      else value done

  unfoldable pub check_ssh_secret : Bundle → M S Outcome
  unfolding reset_to_pending republish bundle_ssh_key_secret_name bundle_arch
  check_ssh_secret bundle s =
      elim (srv.get_secret site.operator_namespace (ssh_secret_name bundle) s) [
        | found secret ↦ republish bundle s
        | refused not_found ↦ reset_to_pending bundle "SSH key secret is missing" s
        | refused e ↦ (return (fail (api e)), s)
      ]

  unfoldable pub reconcile_ready : Bundle → M S Outcome
  unfolding reset_to_pending check_ssh_secret golden_pvc_name bundle_arch
  reconcile_ready bundle s = elim (srv.get_claim site.operator_namespace (golden_name bundle) s) [
    | found golden ↦ check_ssh_secret bundle s
    | refused not_found ↦ reset_to_pending bundle "golden PVC is missing" s
    | refused e ↦ (return (fail (api e)), s)
  ]

  unfoldable pub by_phase : Bundle → BundlePhase → M S Outcome
  unfolding reconcile_ready reconcile_preparing reconcile_failed reconcile_pending
  by_phase bundle BundlePhase.ready = reconcile_ready bundle
  by_phase bundle BundlePhase.preparing = reconcile_preparing bundle
  by_phase bundle BundlePhase.failed = reconcile_failed bundle
  by_phase bundle BundlePhase.pending = reconcile_pending bundle
  by_phase bundle BundlePhase.unset = reconcile_pending bundle
  by_phase bundle (BundlePhase.other_phase p) = reconcile_pending bundle

  unfoldable pub reconcile : Text → S → Outcome × S
  unfolding by_phase
  reconcile name s = elim (srv.get_bundle name s) [
    | refused not_found ↦ (done, s)
    | refused e ↦ (fail (wrapped "getting CRCBundle" (api e)), s)
    | found bundle ↦
        if is_deleting bundle.meta
        then (done, s)
        else handle (by_phase bundle bundle.status.phase) s
  ]
