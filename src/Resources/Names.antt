-- ===== src/Resources/Names.antt =====
-- internal/resources/common.go: the names that carry a hash, and the hostnames. crypto/sha256 is
-- the parameter `sha256_hex`, the digest of a text in hexadecimal digits.
use guestcluster.Base.{
  Bool, Text, [], codes, false, if◌then◌else◌, is_empty, leb, length, ltb, not, take, trim_both,
  trim_right, true, ℕ, ◌&&◌, ◌++◌, ◌+◌, ◌-◌, ◌==◌, ◌||◌, ◌∷◌,
}
use guestcluster.Resources.{crc_bundle_name}

-- crc_vm_name and the like: a name with a fixed ending.
unfoldable pub vm_name : Text → Text
vm_name instance_name = instance_name

unfoldable pub data_volume_name : Text → Text
data_volume_name instance_name = instance_name ++ codes "-rootdisk"

unfoldable pub node_pool_name : Text → Text
node_pool_name instance_name = instance_name ++ codes "-workers"

unfoldable pub raw_kubeconfig_secret_name : Text → Text
raw_kubeconfig_secret_name instance_name = instance_name ++ codes "-crc-raw-kubeconfig"

unfoldable pub raw_kubeconfig_secret_name_for_vmi : Text → Text → Text
unfolding raw_kubeconfig_secret_name
raw_kubeconfig_secret_name_for_vmi instance_name vmi_uid =
    raw_kubeconfig_secret_name instance_name ++ b'-' ∷ vmi_uid

unfoldable pub golden_pvc_name : Text → Text → Text
unfolding crc_bundle_name
golden_pvc_name version arch = crc_bundle_name version arch ++ codes "-golden"

unfoldable pub bundle_ssh_key_secret_name : Text → Text → Text
unfolding crc_bundle_name
bundle_ssh_key_secret_name version arch = crc_bundle_name version arch ++ codes "-ssh-key"

unfoldable pub bundle_metadata_config_map_name : Text → Text → Text
unfolding crc_bundle_name
bundle_metadata_config_map_name version arch = crc_bundle_name version arch ++ codes "-metadata"

unfoldable pub bundle_prep_job_name : Text → Text → Text
unfolding crc_bundle_name
bundle_prep_job_name version arch = crc_bundle_name version arch ++ codes "-prep"

abbrev pub mirror_directory : Text
mirror_directory =
    codes "https://mirror.openshift.com/pub/openshift-v4/clients/crc/bundles/openshift/"

unfoldable pub bundle_mirror_url : Text → Text → Text
bundle_mirror_url version arch =
    mirror_directory
    ++ (version
        ++ (codes "/crc_libvirt_" ++ (version ++ (codes "_" ++ (arch ++ codes ".crcbundle")))))

unfoldable pub bundle_mirror_sha256_url : Text → Text
bundle_mirror_sha256_url version = mirror_directory ++ (version ++ codes "/sha256sum.txt")

abbrev pub is_hyphen : ℕ → Bool
is_hyphen c = c == b'-'

abbrev is_upper : ℕ → Bool
is_upper c = leb b'A' c && leb c b'Z'

-- A lower-case letter or a digit.
abbrev pub is_alnum : ℕ → Bool
is_alnum c = (leb b'a' c && leb c b'z') || (leb b'0' c && leb c b'9')

-- The loop of dnsSafeHostnameLabel over the bytes; `last` is lastWasHyphen. The bytes of a rune
-- beyond ASCII all take the last branch, and so leave one hyphen, as the rune does.
unfoldable pub safe_loop : Bool → Text → Text
safe_loop last [] = []
safe_loop last (c ∷ cs) = elim (is_upper c) [
  | true ↦ (c + 32) ∷ safe_loop false cs
  | false ↦ elim (is_alnum c) [
    | true ↦ c ∷ safe_loop false cs
    | false ↦ elim last [ true ↦ safe_loop true cs | false ↦ b'-' ∷ safe_loop true cs ]
  ]
]

unfoldable pub dns_safe_hostname_label : Text → Text
unfolding safe_loop trim_both
dns_safe_hostname_label text = trim_both is_hyphen (safe_loop false text)

-- The text behind the identity hash: namespace, NUL, name.
unfoldable pub identity_text : Text → Text → Text
identity_text namespace name = namespace ++ 0 ∷ name

-- The errors of APIHostname.
pub data HostnameError : Type 0 where
  empty_name empty_namespace bad_name bad_namespace bad_domain no_room bad_hostname : HostnameError

pub data Hostname : Type 0 where
  hostname : Text → Hostname
  rejected : HostnameError → Hostname

-- k8s.io/apimachinery/pkg/util/validation: no problems found.
pub record Validation : Type 0 where
  pub is_dns1123_subdomain : Text → Bool
  pub is_dns1123_label : Text → Bool

module _ (sha256_hex : Text → Text) where
  unfoldable pub hash_hex : Text → ℕ → Text
  hash_hex input n = take n (sha256_hex input)

  -- `maxPrefixLength` is at least 1 for the suffixes in use.
  unfoldable pub hash_suffixed_name : Text → Text → Text → Text
  unfolding hash_hex
  hash_suffixed_name prefix suffix hash_input =
      let digest = hash_hex hash_input 12 in
      let limit = 63 - length suffix - 12 in
      let cut = if ltb limit (length prefix) then take limit prefix else prefix in
      trim_right (λ c. is_hyphen c || c == b'.') cut ++ (suffix ++ digest)

  unfoldable pub crc_agent_job_name : Text → Text → Text
  unfolding hash_suffixed_name
  crc_agent_job_name instance_name vmi_uid =
      hash_suffixed_name instance_name (codes "-crc-agent-") vmi_uid

  -- The readable part of a name, cut to a limit.
  unfoldable pub cut_label : Text → ℕ → Text
  unfolding dns_safe_hostname_label
  cut_label name limit =
      let prefix = dns_safe_hostname_label name in
      if ltb limit (length prefix) then trim_right is_hyphen (take limit prefix) else prefix

  -- `prefixLimit` is 42 less the length of the namespace, and no prefix is left at 0 or below.
  unfoldable pub hosted_cluster_name : Text → Text → Text
  unfolding hash_hex identity_text cut_label
  hosted_cluster_name name namespace =
      let digest = hash_hex (identity_text namespace name) 16 in
      if leb 42 (length namespace)
      then codes "gc-" ++ digest
      else let prefix = cut_label name (42 - length namespace) in
        if is_empty prefix then codes "gc-" ++ digest else codes "gc-" ++ (prefix ++ b'-' ∷ digest)

  -- The longest label in front of the domain.
  unfoldable pub label_limit : Text → ℕ
  label_limit domain = let left = 253 - length domain - 1 in if ltb 63 left then 63 else left

  -- The first label of the hostname.
  unfoldable pub api_label : Text → Text → ℕ → Text
  unfolding hash_hex identity_text cut_label
  api_label name namespace limit =
      codes "api-"
      ++ (cut_label name (limit - 21) ++ b'-' ∷ hash_hex (identity_text namespace name) 16)

  unfoldable pub api_hostname : Validation → Text → Text → Text → Hostname
  unfolding label_limit api_label
  api_hostname v name namespace domain =
      if is_empty name
      then rejected empty_name
      else if is_empty namespace
      then rejected empty_namespace
      else if not (v.is_dns1123_subdomain name)
      then rejected bad_name
      else if not (v.is_dns1123_label namespace)
      then rejected bad_namespace
      else if not (v.is_dns1123_subdomain domain)
      then rejected bad_domain
      else if ltb (label_limit domain) 21
      then rejected no_room
      else let host = api_label name namespace (label_limit domain) ++ b'.' ∷ domain in
        if v.is_dns1123_subdomain host then hostname host else rejected bad_hostname
