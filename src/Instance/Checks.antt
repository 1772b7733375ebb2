-- ===== src/Instance/Checks.antt =====
-- The checks of internal/controller/clusterinstance_controller.go before anything is created, and
-- deleteIfExists of internal/controller/helpers.go. An error is on the left.
use guestcluster.Api.{Instance, Secret, Template}
use guestcluster.Base.{
  Bool, List, Option, String, Text, [], codes, false, if◌then◌else◌, inl, inr, is_empty, none, not,
  some, true, ◌∷◌, ◌⊎◌,
}
use guestcluster.Kube.{
  ApiError, Error, Labels, Reply, api, found, label_value, message, not_found, refused, wrapped,
}
use guestcluster.Platform.{Library, Server}
use guestcluster.Resources.{pull_secret_data_key}

abbrev pub cluster_pull_secret_name : Text
cluster_pull_secret_name = codes "pull-secret"

-- The keys of a bundle's SSH key, in the order in which they are tried.
abbrev pub bundle_ssh_key_data_keys : List Text
bundle_ssh_key_data_keys = codes "id_ecdsa" ∷ codes "ssh-privatekey" ∷ codes "id_rsa" ∷ []

-- The text of an error depends on whether the template names the Secret.
abbrev by_reference : Text → String → String → String
by_reference ref default_text named_text = if is_empty ref then default_text else named_text

unfoldable pub pull_secret_of : Text → Text → Reply Secret → Error ⊎ Text
unfolding is_empty
pull_secret_of ref name (refused not_found) = inl (
    message (
      by_reference ref "template.pullSecretRef is unset and default pull secret was not found"
        "pull secret not found"))
pull_secret_of ref name (refused e) =
    inl (wrapped (by_reference ref "getting default pull secret" "getting pull secret") (api e))
pull_secret_of ref name (found secret) =
    if is_empty (label_value secret.content pull_secret_data_key)
    then inl (
        message (
          by_reference ref "default pull secret is missing data key"
            "pull secret is missing data key"))
    else inr name

-- The first key that holds something.
unfoldable pub first_key : List Text → Labels → Option Text
unfolding is_empty
first_key [] content = none
first_key (k ∷ ks) content =
    let rest = first_key ks content in
    if not (is_empty (label_value content k)) then some k else rest

unfoldable pub bundle_ssh_key_of : Reply Secret → Error ⊎ Text
unfolding first_key
bundle_ssh_key_of (refused not_found) = inl (message "bundle SSH key secret not found")
bundle_ssh_key_of (refused e) = inl (wrapped "getting bundle SSH key secret" (api e))
bundle_ssh_key_of (found secret) = elim (first_key bundle_ssh_key_data_keys secret.content) [
  | none ↦ inl (message "bundle SSH key secret does not contain any of the expected data keys")
  | some key ↦ inr key
]

module _ {S Q : Type 0} (srv : Server S Q) (lib : Library Q) where
  unfoldable pub resolve_pull_secret : Instance → S → Error ⊎ Text
  unfolding pull_secret_of is_empty
  resolve_pull_secret i s =
      let ref = i.spec.template.pull_secret_ref in
      let name = if is_empty ref then cluster_pull_secret_name else ref in
      pull_secret_of ref name (srv.cached_secret i.meta.namespace name s)

  -- `none` is no error.
  unfoldable pub validate_template_quantities : Template → Option Error
  unfolding is_empty
  validate_template_quantities template = elim (lib.parse_quantity template.memory) [
    | none ↦ some (message "template.memory")
    | some memory_size ↦
        if is_empty template.root_volume_size
        then none
        else elim (lib.parse_quantity template.root_volume_size) [
          | none ↦ some (message "template.rootVolumeSize")
          | some volume_size ↦ none
        ]
  ]

  unfoldable pub validate_bundle_ssh_key : Instance → S → Error ⊎ Text
  unfolding bundle_ssh_key_of is_empty
  validate_bundle_ssh_key i s = elim i.spec.template.bundle_ssh_key_ref [
    | none ↦ inl (message "template.bundleSSHKeyRef is required for topology=crc but not set")
    | some ref ↦
        if is_empty ref
        then inl (message "template.bundleSSHKeyRef is required for topology=crc but not set")
        else bundle_ssh_key_of (srv.cached_secret i.meta.namespace ref s)
  ]

-- The read after a delete: whether the object is still there.
unfoldable pub still_there : {A : Type 0} → Reply A → Error ⊎ Bool
still_there (found a) = inr true
still_there (refused not_found) = inr false
still_there (refused e) = inl (wrapped "checking after delete" (api e))

-- deleteIfExists, over the delete and the read of one object.
unfoldable pub delete_if_exists :
    {S A : Type 0} → (S → Option ApiError × S) → (S → Reply A) → S → (Error ⊎ Bool) × S
unfolding still_there
delete_if_exists delete_it get_it s =
    let r = delete_it s in
    elim r.0 [
      | none ↦ (still_there (get_it r.1), r.1)
      | some not_found ↦ (inr false, r.1)
      | some e ↦ (inl (wrapped "deleting for teardown" (api e)), r.1)
    ]
