-- ===== src/Bundle.antt =====
-- What the CRCBundle controller works on: the claims, the preparation Job and the ConfigMap, as far
-- as internal/controller/crcbundle_controller.go and internal/resources/bundleprep.go read or write
-- them, and the API server that stores them.
use guestcluster.Api.{Bundle, Secret}
use guestcluster.Base.{List, Option, Text, ℤ}
use guestcluster.Kube.{ApiError, Labels, Meta, Reply}
pub mod Build
pub mod Await
pub mod Reconcile
pub mod Moves
pub mod Rule
pub mod Phases
pub mod Steady
pub mod Failure

-- corev1.PersistentVolumeClaim; the access mode is always ReadWriteOnce.
pub record Claim (Q : Type 0) : Type 0 where
  pub meta : Meta
  pub storage : Q
  pub storage_class_name : Option Text

-- batchv1.JobCondition.
pub record JobCondition : Type 0 where
  pub type : Text
  pub status : Text
  pub reason : Text

-- batchv1.Job with its single container, whose command and script are constants. `volumes` gives
-- the claim of each volume, `mounts` its path.
pub record Job : Type 0 where
  pub meta : Meta
  pub backoff_limit : Option ℤ
  pub active_deadline_seconds : Option ℤ
  pub pod_labels : Labels
  pub service_account : Text
  pub image : Text
  pub env : List (Text × Text)
  pub mounts : List (Text × Text)
  pub volumes : List (Text × Text)
  pub conditions : List JobCondition
  pub failed : ℤ
  pub succeeded : ℤ

-- corev1.ConfigMap.
pub record ConfigMap : Type 0 where
  pub meta : Meta
  pub content : Labels

-- What the process takes from its environment.
pub record Site : Type 0 where
  pub operator_namespace : Text
  pub bundle_prep_service_account : Text
  pub crc_agent_image : Text

-- The API server, as the CRCBundle controller calls it.
pub record BundleServer (S Q : Type 0) : Type 0 where
  pub get_bundle : Text → S → Reply Bundle
  pub get_claim : Text → Text → S → Reply (Claim Q)
  pub get_job : Text → Text → S → Reply Job
  pub get_config_map : Text → Text → S → Reply ConfigMap
  pub get_secret : Text → Text → S → Reply Secret
  pub create_claim : Claim Q → S → Option ApiError × S
  pub create_job : Job → S → Option ApiError × S
  pub delete_claim : Claim Q → S → Option ApiError × S
  pub delete_job : Job → S → Option ApiError × S
  pub update_bundle_status : Bundle → S → Option ApiError × S
