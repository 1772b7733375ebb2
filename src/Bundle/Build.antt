-- ===== src/Bundle/Build.antt =====
-- internal/resources/bundleprep.go: the claims and the Job of a CRCBundle, and its URLs.
use guestcluster.Api.{Bundle}
use guestcluster.Base.{
  Option, Text, [], codes, if◌then◌else◌, is_empty, none, not, pos, some, ◌++◌, ◌∷◌,
}
use guestcluster.Bundle.{Claim, Job, Site}
use guestcluster.Kube.{Labels, named}
use guestcluster.Platform.{Library}
use guestcluster.Resources.{crc_bundle_name, default_crc_arch, label_managed_by, manager_name}
use guestcluster.Resources.Names.{
  bundle_metadata_config_map_name, bundle_mirror_sha256_url, bundle_mirror_url,
  bundle_prep_job_name, bundle_ssh_key_secret_name, golden_pvc_name,
}

unfoldable pub scratch_pvc_name : Text → Text → Text
unfolding crc_bundle_name
scratch_pvc_name version arch = crc_bundle_name version arch ++ codes "-scratch"

-- bundleArch, and crcBundleArch of the controller.
unfoldable pub bundle_arch : Bundle → Text
unfolding is_empty
bundle_arch bundle = if not (is_empty bundle.spec.arch) then bundle.spec.arch else default_crc_arch

unfoldable pub crc_bundle_labels : Bundle → Labels
crc_bundle_labels bundle =
    (label_managed_by, manager_name) ∷ (codes "opdev.io/crc-bundle", bundle.meta.name) ∷ []

-- ResolveBundleURLs: the URL of the bundle, and that of the checksums.
unfoldable pub resolve_bundle_urls : Bundle → Text × Text
unfolding is_empty bundle_mirror_url bundle_mirror_sha256_url bundle_arch
resolve_bundle_urls bundle = (
  if is_empty bundle.spec.bundle_url
      then bundle_mirror_url bundle.spec.version (bundle_arch bundle)
      else bundle.spec.bundle_url,
  if is_empty bundle.spec.sha256_url
      then bundle_mirror_sha256_url bundle.spec.version
      else bundle.spec.sha256_url,
)

abbrev class_of : Bundle → Option Text
class_of bundle =
    if is_empty bundle.spec.storage_class_name then none else some bundle.spec.storage_class_name

module _ {Q : Type 0} (lib : Library Q) (must_parse : Text → Q) (site : Site) where
  -- `none` is the error: a size that does not parse.
  unfoldable pub build_golden_pvc : Bundle → Option (Claim Q)
  unfolding is_empty golden_pvc_name crc_bundle_labels bundle_arch
  build_golden_pvc bundle =
      let size =
        if is_empty bundle.spec.golden_volume_size
        then codes "35Gi"
        else bundle.spec.golden_volume_size in
      elim (lib.parse_quantity size) [
        | none ↦ none
        | some size_amount ↦ some (record {
          meta =
              record (named site.operator_namespace
                (golden_pvc_name bundle.spec.version (bundle_arch bundle))) {
                  labels = crc_bundle_labels bundle;
                };
          storage = size_amount;
          storage_class_name = class_of bundle;
        })
      ]

  -- `must_parse` is resource.MustParse.
  unfoldable pub build_scratch_pvc : Bundle → Claim Q
  unfolding is_empty scratch_pvc_name crc_bundle_labels bundle_arch
  build_scratch_pvc bundle = record {
    meta =
        record (named site.operator_namespace
          (scratch_pvc_name bundle.spec.version (bundle_arch bundle))) {
            labels = crc_bundle_labels bundle;
          };
    storage = must_parse (codes "40Gi");
    storage_class_name = class_of bundle;
  }

-- At most two retries, within two hours.
unfoldable pub build_bundle_prep_job : Site → Bundle → Text → Text → Text → Job
unfolding bundle_prep_job_name bundle_ssh_key_secret_name bundle_metadata_config_map_name
    golden_pvc_name scratch_pvc_name crc_bundle_labels bundle_arch
build_bundle_prep_job site bundle bundle_url sha256_url image =
    let arch = bundle_arch bundle in
    let version = bundle.spec.version in
    record {
      meta = record (named site.operator_namespace (bundle_prep_job_name version arch)) {
        labels = crc_bundle_labels bundle;
      };
      backoff_limit = some (pos 2);
      active_deadline_seconds = some (pos 7200);
      pod_labels = crc_bundle_labels bundle;
      service_account = site.bundle_prep_service_account;
      image = image;
      env =
          (codes "BUNDLE_URL", bundle_url)
          ∷ (codes "SHA256_URL", sha256_url)
          ∷ (codes "NAMESPACE", site.operator_namespace)
          ∷ (codes "BUNDLE_NAME", bundle.meta.name)
          ∷ (codes "BUNDLE_UID", bundle.meta.uid)
          ∷ (codes "SSH_SECRET_NAME", bundle_ssh_key_secret_name version arch)
          ∷ (codes "METADATA_CONFIGMAP_NAME", bundle_metadata_config_map_name version arch)
          ∷ (codes "GOLDEN_DIR", codes "/golden")
          ∷ (codes "SCRATCH_DIR", codes "/work")
          ∷ [];
      mounts = (codes "golden", codes "/golden") ∷ (codes "scratch", codes "/work") ∷ [];
      volumes =
          (codes "golden", golden_pvc_name version arch)
          ∷ (codes "scratch", scratch_pvc_name version arch)
          ∷ [];
      conditions = [];
      failed = pos 0;
      succeeded = pos 0;
    }
