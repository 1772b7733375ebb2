-- ===== src/Tests/BundleExamples.antt =====
-- A bundle whose Job has succeeded, and the theorems about it.
use guestcluster.Api.{Bundle, BundlePhase, Secret, new_bundle_status}
use guestcluster.Base.{
  Bool, Text, [], any_if, codes, false, is_empty, ltb, none, pos, refl, some, text_eq, true, ℕ,
  ◌||◌, ◌∷◌, ◌≡◌, ◌⊎◌,
}
use guestcluster.Bundle.{Claim, ConfigMap, Job, Site}
use guestcluster.Bundle.Build.{bundle_arch}
use guestcluster.Bundle.Failure.{bundle_prep_job_failure-any_if, has_reason, reports_failure}
use guestcluster.Bundle.Moves.{IsFinished, Move}
use guestcluster.Bundle.Phases.{reconcile-IsFinished, reconcile-Move}
use guestcluster.Bundle.Reconcile.{
  bundle_prep_job_failure, pods_exhausted, ready_bundle, reconcile, set_bundle_condition,
}
use guestcluster.Bundle.Steady.{HasParts, Published-steady, prepared, reconcile-finishes}
use guestcluster.Kube.{Meta, done, found, named}
use guestcluster.Resources.{crc_bundle_name}
use guestcluster.Resources.Names.{
  bundle_metadata_config_map_name, bundle_prep_job_name, bundle_ssh_key_secret_name,
  golden_pvc_name,
}
use guestcluster.Tests.BundleWorld.{
  Depot, bundle_name, depot-BundleStore, depot_server, stored_phase,
}
use guestcluster.Tests.World.{world_library}

abbrev site : Site
site = record {
  operator_namespace = codes "guestcluster-system";
  bundle_prep_service_account = codes "bundle-prep";
  crc_agent_image = codes "crc-agent";
}

-- The one size that the operator parses without a check.
abbrev parse_size : Text → ℕ
parse_size t = 40

abbrev in_depot : Text → Meta
in_depot name = named (codes "guestcluster-system") name

abbrev done_job : Job
done_job = record {
  meta = in_depot (codes "crc-4.19.0-amd64-prep");
  backoff_limit = some (pos 2);
  active_deadline_seconds = some (pos 7200);
  pod_labels = [];
  service_account = codes "bundle-prep";
  image = codes "crc-agent";
  env = [];
  mounts = [];
  volumes = [];
  conditions = [];
  failed = pos 1;
  succeeded = pos 1;
}

abbrev preparing_example : Bundle
preparing_example = record {
  meta = named [] bundle_name;
  spec = record {
    version = codes "4.19.0";
    arch = codes "amd64";
    bundle_url = [];
    sha256_url = [];
    storage_class_name = [];
    golden_volume_size = [];
  };
  status = record new_bundle_status { phase = BundlePhase.preparing };
}

abbrev golden : Claim ℕ
golden = record {
  meta = in_depot (codes "crc-4.19.0-amd64-golden");
  storage = 35;
  storage_class_name = none;
}

abbrev metadata : ConfigMap
metadata = record {
  meta = in_depot (codes "crc-4.19.0-amd64-metadata");
  content = (codes "ocpVersion", codes "4.19.0") ∷ [];
}

abbrev ssh_key : Secret
ssh_key = record {
  meta = in_depot (codes "crc-4.19.0-amd64-ssh-key");
  type = codes "Opaque";
  content = [];
}

abbrev depot : Depot
depot = record {
  bundle = preparing_example;
  claims = golden ∷ [];
  jobs = done_job ∷ [];
  config_maps = metadata ∷ [];
  secrets = ssh_key ∷ [];
}

depot-IsFinished : IsFinished depot_server world_library parse_size site depot preparing_example
unfolding text_eq crc_bundle_name bundle_arch bundle_prep_job_name bundle_ssh_key_secret_name
    bundle_metadata_config_map_name bundle_prep_job_failure pods_exhausted is_empty
depot-IsFinished = record {
  was_preparing = refl;
  prepared = record {
    job = done_job;
    config_map = metadata;
    ssh_secret = ssh_key;
    job_found = refl;
    not_failed = refl;
    succeeded = refl;
    config_map_found = refl;
    ssh_secret_found = refl;
  };
  saved = refl;
}

depot_bundle : depot_server.get_bundle bundle_name depot ≡ found preparing_example
unfolding text_eq
depot_bundle = refl

abbrev after : Depot
after = (reconcile depot_server world_library parse_size site bundle_name depot).1

reconcile-finishes_example :
    ((reconcile depot_server world_library parse_size site bundle_name depot).0 ≡ done)
    × (stored_phase after ≡ BundlePhase.ready)
reconcile-finishes_example =
    reconcile-finishes depot_server world_library parse_size site bundle_name depot-BundleStore
      (λ b t n e. refl) preparing_example depot depot_bundle refl depot-IsFinished

reconcile-Move_example :
    (stored_phase after ≡ stored_phase depot)
    ⊎ ((b : Bundle) × (depot_server.get_bundle bundle_name depot ≡ found b)
        × Move depot_server world_library parse_size site depot b (stored_phase after))
reconcile-Move_example =
    reconcile-Move depot_server world_library parse_size site bundle_name depot-BundleStore depot

abbrev has_job : Depot → Bool
has_job w = elim w.jobs [ [] ↦ false | _ ∷ _ ↦ true ]

reconcile-IsFinished_example :
    (has_job after ≡ true)
    ⊎ ((b : Bundle) × (depot_server.get_bundle bundle_name depot ≡ found b)
        × IsFinished depot_server world_library parse_size site depot b)
reconcile-IsFinished_example =
    reconcile-IsFinished depot_server world_library parse_size site bundle_name
      (λ t. has_job t ≡ true) (λ c t r. r) (λ j t r. refl) (λ b t r. r) depot refl

bundle_prep_job_failure-any_if_example :
    has_reason (bundle_prep_job_failure done_job)
    ≡ (any_if reports_failure done_job.conditions || ltb 2 1)
bundle_prep_job_failure-any_if_example = bundle_prep_job_failure-any_if done_job 1 2 refl refl

-- The bundle with the Ready status, as the server keeps it.
abbrev ready_example : Bundle
ready_example = ready_bundle depot_server world_library parse_size site metadata preparing_example

abbrev ready_depot : Depot
ready_depot = record depot { bundle = ready_example }

ready_parts : HasParts depot_server world_library parse_size site ready_example ready_depot
unfolding ready_bundle set_bundle_condition text_eq bundle_arch golden_pvc_name
    bundle_ssh_key_secret_name is_empty
ready_parts = record { golden = golden; secret = ssh_key; golden_found = refl; secret_found = refl }

Published-steady_example :
    reconcile depot_server world_library parse_size site bundle_name ready_depot
    ≡ (done, ready_depot)
unfolding ready_bundle set_bundle_condition text_eq crc_bundle_name bundle_arch is_empty
Published-steady_example =
    Published-steady depot_server world_library parse_size site bundle_name preparing_example
      ready_example ready_depot (prepared metadata refl) refl refl refl ready_parts
