-- ===== src/Bundle/Moves.antt =====
-- The moves between the phases of a CRCBundle, and the writes that a reconcile of one makes.
-- The phases from which preparation starts.
use guestcluster.Api.{Bundle, BundlePhase, Secret}
use guestcluster.Base.{Bool, Text, false, none, some, true, ◌≡◌, ◌⊎◌}
use guestcluster.Bundle.{BundleServer, Claim, ConfigMap, Job, Site}
use guestcluster.Bundle.Reconcile.{
  bundle_prep_job_failure, golden_name, is_zero, job_name, metadata_name, ready_bundle,
  ssh_secret_name,
}
use guestcluster.Kube.{found, not_found, refused}
use guestcluster.Platform.{Library}

abbrev pub awaits_preparation : BundlePhase → Bool
awaits_preparation BundlePhase.ready = false
awaits_preparation BundlePhase.preparing = false
awaits_preparation BundlePhase.failed = false
awaits_preparation BundlePhase.pending = true
awaits_preparation BundlePhase.unset = true
awaits_preparation (BundlePhase.other_phase p) = true

module _ {S Q : Type 0} (srv : BundleServer S Q) (lib : Library Q) (must_parse : Text → Q)
    (site : Site) where
  -- The Job has succeeded, and what it publishes is there.
  pub record IsPrepared (s : S) (b : Bundle) : Type 0 where
    pub job : Job
    pub config_map : ConfigMap
    pub ssh_secret : Secret
    pub job_found :
        srv.get_job site.operator_namespace (job_name srv lib must_parse site b) s ≡ found job
    pub not_failed : bundle_prep_job_failure job ≡ none
    pub succeeded : is_zero job.succeeded ≡ false
    pub config_map_found :
        srv.get_config_map site.operator_namespace (metadata_name srv lib must_parse site b) s
        ≡ found config_map
    pub ssh_secret_found :
        srv.get_secret site.operator_namespace (ssh_secret_name srv lib must_parse site b) s
        ≡ found ssh_secret

  -- A reconcile that reads `b` in the state `s` may write the phase `p`.
  pub data Move (s : S) (b : Bundle) (p : BundlePhase) : Type 0 where
    keeps : p ≡ b.status.phase → Move s b p
    starts : awaits_preparation b.status.phase ≡ true → p ≡ BundlePhase.preparing → Move s b p
    finishes :
        b.status.phase ≡ BundlePhase.preparing → IsPrepared s b → p ≡ BundlePhase.ready → Move s b p
    fails :
        (job : Job) (reason : Text)
        → b.status.phase ≡ BundlePhase.preparing
        → srv.get_job site.operator_namespace (job_name srv lib must_parse site b) s ≡ found job
        → bundle_prep_job_failure job ≡ some reason
        → p ≡ BundlePhase.failed
        → Move s b p
    retries :
        (b.status.phase ≡ BundlePhase.preparing) ⊎ (b.status.phase ≡ BundlePhase.failed)
        → srv.get_job site.operator_namespace (job_name srv lib must_parse site b) s
          ≡ refused not_found
        → p ≡ BundlePhase.pending
        → Move s b p
    resets :
        b.status.phase ≡ BundlePhase.ready
        → (srv.get_claim site.operator_namespace (golden_name srv lib must_parse site b) s
            ≡ refused not_found)
          ⊎ (srv.get_secret site.operator_namespace (ssh_secret_name srv lib must_parse site b) s
              ≡ refused not_found)
        → p ≡ BundlePhase.pending
        → Move s b p

  -- The bundle was prepared, and it was recorded as Ready.
  pub record IsFinished (s : S) (b : Bundle) : Type 0 where
    pub was_preparing : b.status.phase ≡ BundlePhase.preparing
    pub prepared : IsPrepared s b
    pub saved :
        (srv.update_bundle_status (ready_bundle srv lib must_parse site prepared.config_map b) s).0
        ≡ none

  -- The writes of a reconcile that reads `b` in the state `s` keep `R`.
  pub record BundleWritesKeep (s : S) (b : Bundle) (R : S → Type 0) : Type 0 where
    pub claim_new : (c : Claim Q) (t : S) → R t → R (srv.create_claim c t).1
    pub job_new : (j : Job) (t : S) → R t → R (srv.create_job j t).1
    pub status :
        (b' : Bundle) (t : S)
        → b'.meta ≡ b.meta
        → Move s b b'.status.phase
        → R t
        → R (srv.update_bundle_status b' t).1
    pub claim_gone : (c : Claim Q) (t : S) → IsFinished s b → R t → R (srv.delete_claim c t).1
    pub job_gone : (j : Job) (t : S) → IsFinished s b → R t → R (srv.delete_job j t).1
