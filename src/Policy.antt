-- ===== src/Policy.antt =====
-- internal/controller/namespace_policy.go: which namespaces may take new allocations.
use guestcluster.Api.{Namespace}
use guestcluster.Base.{Bool, Text, codes, false, if◌then◌else◌, text_eq, true, ℤ, ◌||◌}
use guestcluster.Kube.{
  Condition, M, Message, Reason, api, condition_of, fail, found, go_on, is_deleting, label_value,
  namespace_disabled, namespace_enabled, namespace_terminating, namespace_unavailable, not_found,
  plain, provisioning_allowed, refused, return, wrapped,
}
use guestcluster.Platform.{Server}

pub record NamespacePolicy : Type 0 where
  pub enabled : Bool
  pub is_terminating : Bool
  pub reason : Reason
  pub message : Message

abbrev pub namespace_enabled_label : Text
namespace_enabled_label = codes "guestcluster.opdev.io/enabled"

abbrev pub namespace_enabled_value : Text
namespace_enabled_value = codes "true"

-- The policy of a namespace that was read.
unfoldable pub policy_of : Namespace → NamespacePolicy
policy_of ns =
    if is_deleting ns.meta || ns.is_terminating
    then record {
      enabled = false;
      is_terminating = true;
      reason = namespace_terminating;
      message = plain "Source namespace is terminating; new allocations are disabled";
    }
    else if text_eq (label_value ns.meta.labels namespace_enabled_label) namespace_enabled_value
    then record {
      enabled = true;
      is_terminating = false;
      reason = namespace_enabled;
      message = plain "Source namespace permits new provisioning";
    }
    else record {
      enabled = false;
      is_terminating = false;
      reason = namespace_disabled;
      message = plain "New provisioning requires namespace label guestcluster.opdev.io/enabled";
    }

-- The policy of a namespace that is gone.
abbrev pub missing_policy : NamespacePolicy
missing_policy = record {
  enabled = false;
  is_terminating = true;
  reason = namespace_unavailable;
  message = plain "Source namespace no longer exists";
}

unfoldable pub read_namespace_policy : {S Q : Type 0} → Server S Q → Text → M S NamespacePolicy
read_namespace_policy srv namespace s = elim (srv.get_namespace namespace s) [
  | found ns ↦ (go_on (policy_of ns), s)
  | refused not_found ↦ (go_on missing_policy, s)
  | refused e ↦ (return (fail (wrapped "reading source namespace policy" (api e))), s)
]

-- The ProvisioningAllowed condition.
unfoldable pub policy_condition : NamespacePolicy → ℤ → Condition
policy_condition p generation =
    condition_of provisioning_allowed p.enabled p.reason p.message generation
