-- ===== src/Resources.antt =====
-- internal/resources/common.go: the deterministic names and labels of the objects.
use guestcluster.Base.{Bool, Text, [], codes, text_eq, true, ◌&&◌, ◌++◌, ◌∷◌}
use guestcluster.Kube.{Labels, label_value}
pub mod Names
pub mod DnsLabels
pub mod Hostnames

abbrev pub label_managed_by : Text
label_managed_by = codes "opdev.io/managed-by"

abbrev pub label_instance : Text
label_instance = codes "opdev.io/cluster-instance"

abbrev pub label_pool : Text
label_pool = codes "opdev.io/pool"

abbrev pub manager_name : Text
manager_name = codes "guestcluster-operator"

unfoldable pub common_labels : Text → Labels
common_labels instance_name =
    (label_managed_by, manager_name) ∷ (label_instance, instance_name) ∷ []

unfoldable pub pool_labels : Text → Labels
pool_labels pool_name = (label_managed_by, manager_name) ∷ (label_pool, pool_name) ∷ []

-- The label test of a list call, and of the loop in the pool controller.
unfoldable pub matches_labels : Labels → Labels → Bool
matches_labels [] labels = true
matches_labels ((k, v) ∷ rest) labels =
    text_eq (label_value labels k) v && matches_labels rest labels

unfoldable pub kubeconfig_secret_name : Text → Text
kubeconfig_secret_name instance_name = instance_name ++ codes "-kubeconfig"

unfoldable pub lease_kubeconfig_secret_name : Text → Text
lease_kubeconfig_secret_name lease_name = lease_name ++ codes "-kubeconfig"

abbrev pub default_crc_arch : Text
default_crc_arch = codes "amd64"

unfoldable pub crc_bundle_name : Text → Text → Text
crc_bundle_name version arch = codes "crc-" ++ (version ++ (codes "-" ++ arch))

-- dockerconfigjson is the key that a pull secret must hold.
abbrev pub pull_secret_data_key : Text
pull_secret_data_key = codes ".dockerconfigjson"
