-- ===== src/Api.antt =====
-- The objects of api/v1alpha1, and the fields of the Kubernetes objects that the controllers read.
use guestcluster.Base.{Bool, List, Option, Text, [], none, pos, ℤ}
use guestcluster.Kube.{Condition, Labels, Meta}

pub data Topology : Type 0 where
  crc hcp : Topology
  other_topology : Text → Topology

pub data AvailabilityPolicy : Type 0 where
  single_replica highly_available : AvailabilityPolicy
  other_policy : Text → AvailabilityPolicy

-- ClusterInstancePhase; `unset` is the zero value "".
pub data Phase : Type 0 where
  unset provisioning ready failed terminating : Phase

-- ClusterLeasePhase.
pub data LeasePhase : Type 0 where
  unset pending bound releasing released failed : LeasePhase

pub record Template : Type 0 where
  pub crc_version : Text
  pub crc_arch : Text
  pub release_image : Text
  pub ocp_version : Text
  pub node_pool_replicas : Option ℤ
  pub controller_availability_policy : Option AvailabilityPolicy
  pub memory : Text
  pub cores : ℤ
  pub root_volume_size : Text
  pub pull_secret_ref : Text
  pub idms_ref : Option Text
  pub bundle_ssh_key_ref : Option Text
  pub hcp_worker_ssh_key_ref : Option Text
  pub vm_node_selector : Labels
  pub storage_class_name : Text

pub record PoolSpec : Type 0 where
  pub topology : Topology
  pub max_size : ℤ
  pub min_size : ℤ
  pub warm_spares : ℤ
  pub template : Template

pub record PoolStatus : Type 0 where
  pub total_instances : ℤ
  pub terminating_instances : ℤ
  pub available_instances : ℤ
  pub leased_instances : ℤ
  pub conditions : List Condition

pub record Pool : Type 0 where
  pub meta : Meta
  pub spec : PoolSpec
  pub status : PoolStatus

pub record InstanceSpec : Type 0 where
  pub topology : Topology
  pub pool_ref : Text
  pub template : Template

pub record CrcBootKeyStatus : Type 0 where
  pub bundle_uid : Text
  pub bundle_sha256 : Text
  pub pvc_namespace : Text
  pub pvc_name : Text
  pub pvc_uid : Text
  pub storage_class_name : Text
  pub secret_namespace : Text
  pub secret_name : Text
  pub secret_uid : Text
  pub key_sha256 : Text

pub record CrcBackingStatus : Type 0 where
  pub vm_uid : Text
  pub data_volume_uid : Text
  pub ssh_endpoint : Text
  pub vmi_uid : Text
  pub boot_key : Option CrcBootKeyStatus

-- `provisioning` holds the time of the ProvisioningAuthorization, if there is one.
pub record InstanceStatus : Type 0 where
  pub provisioning : Option ℤ
  pub phase : Phase
  pub ocp_version : Text
  pub topology : Option Topology
  pub api_endpoint : Text
  pub kubeconfig_secret_ref : Text
  pub lease_ref : Option Text
  pub crc_backing : Option CrcBackingStatus
  pub observed_generation : ℤ
  pub conditions : List Condition

pub record Instance : Type 0 where
  pub meta : Meta
  pub spec : InstanceSpec
  pub status : InstanceStatus

pub record LeaseSpec : Type 0 where
  pub pool_ref : Text
  pub ttl : Option ℤ
  pub requested_by : Text

pub record LeaseStatus : Type 0 where
  pub phase : LeasePhase
  pub instance_ref : Option Text
  pub kubeconfig_secret_ref : Option Text
  pub ocp_version : Text
  pub topology : Option Topology
  pub api_endpoint : Text
  pub bound_time : Option ℤ
  pub conditions : List Condition

pub record Lease : Type 0 where
  pub meta : Meta
  pub spec : LeaseSpec
  pub status : LeaseStatus

pub data BundlePhase : Type 0 where
  unset pending preparing ready failed : BundlePhase
  other_phase : Text → BundlePhase

pub record BundleSpec : Type 0 where
  pub version : Text
  pub arch : Text
  pub bundle_url : Text
  pub sha256_url : Text
  pub storage_class_name : Text
  pub golden_volume_size : Text

pub record BundleStatus : Type 0 where
  pub phase : BundlePhase
  pub disk_image_pvc_ref : Option Text
  pub disk_image_pvc_namespace : Text
  pub ssh_key_secret_ref : Option Text
  pub ocp_version : Text
  pub sha256 : Text
  pub conditions : List Condition

pub record Bundle : Type 0 where
  pub meta : Meta
  pub spec : BundleSpec
  pub status : BundleStatus

-- corev1.Namespace, whose phase is Active or Terminating.
pub record Namespace : Type 0 where
  pub meta : Meta
  pub is_terminating : Bool

-- corev1.ResourceQuota: the hard limits, by resource name.
pub record Quota (Q : Type 0) : Type 0 where
  pub meta : Meta
  pub hard : List (Text × Q)

-- corev1.Secret.
pub record Secret : Type 0 where
  pub meta : Meta
  pub type : Text
  pub content : Labels

-- The statuses that newly created objects carry.
abbrev pub new_instance_status : InstanceStatus
new_instance_status = record {
  provisioning = none;
  phase = Phase.unset;
  ocp_version = [];
  topology = none;
  api_endpoint = [];
  kubeconfig_secret_ref = [];
  lease_ref = none;
  crc_backing = none;
  observed_generation = pos 0;
  conditions = [];
}

abbrev pub new_bundle_status : BundleStatus
new_bundle_status = record {
  phase = BundlePhase.unset;
  disk_image_pvc_ref = none;
  disk_image_pvc_namespace = [];
  ssh_key_secret_ref = none;
  ocp_version = [];
  sha256 = [];
  conditions = [];
}
