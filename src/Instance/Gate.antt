-- ===== src/Instance/Gate.antt =====
-- gateNamespaceProvisioning of internal/controller/namespace_policy.go, and
-- readNamespaceResourceQuotaViolation of internal/controller/namespace_capacity.go.
use guestcluster.Api.{Instance, Phase, Quota}
use guestcluster.Base.{List, Option, String, false, if◌then◌else◌, none, not, some, true, ℤ}
use guestcluster.Capacity.{Amounts, QuotaViolation, namespace_resource_limits}
use guestcluster.Capacity.Usage.{has_limits, resource_violation}
use guestcluster.Instance.Status.{hold}
use guestcluster.Kube.{
  ConditionType, Error, M, Message, Reason, Reply, api, condition_of, fail, found, go_on, message,
  namespace_resource_quota_exceeded, plain, provisioning_authorized, refused, return, return_with,
  value, wrapped, ◌>>=◌,
}
use guestcluster.Platform.{Library, Server}
use guestcluster.Policy.{NamespacePolicy, policy_condition, read_namespace_policy}
use guestcluster.Pool.Accounting.{violation_message}

abbrev authorized_policy : NamespacePolicy
authorized_policy = record {
  enabled = true;
  is_terminating = false;
  reason = provisioning_authorized;
  message =
      plain
        "Provisioning authorization is recorded; namespace opt-out does not revoke existing work";
}

module _ {Q : Type 0} (lib : Library Q) where
  -- The instance with the ProvisioningAllowed condition.
  unfoldable pub noted : NamespacePolicy → Instance → Instance
  noted policy i = record i {
    status = record i.status {
      conditions =
          lib.set_condition i.status.conditions (policy_condition policy i.meta.generation);
    };
  }

  -- The instance that is kept from provisioning: phase Provisioning, and not Ready for a reason.
  unfoldable pub blocked : NamespacePolicy → Reason → Message → Instance → Instance
  unfolding noted
  blocked policy reason msg i =
      let i' = noted policy i in
      record i' {
        status = record i'.status {
          phase = Phase.provisioning;
          conditions =
              lib.set_condition i'.status.conditions
                (condition_of ConditionType.ready false reason msg i.meta.generation);
        };
      }

  -- The instance with its authorization.
  unfoldable pub authorized : ℤ → Instance → Instance
  unfolding noted
  authorized now i =
      noted authorized_policy (record i { status = record i.status { provisioning = some now } })

module _ {S Q : Type 0} (srv : Server S Q) (lib : Library Q) where
  abbrev accounting_error : Error
  accounting_error =
      wrapped "checking namespace Guestcluster resource quota"
        (message "namespace Guestcluster resource accounting")

  -- A read whose error is wrapped twice.
  abbrev pub checked_read : {A : Type 0} → String → (S → Reply A) → M S A
  checked_read context get s = elim (get s) [
    | found a ↦ (go_on a, s)
    | refused e ↦ (
      return (
          fail
            (wrapped "checking namespace Guestcluster resource quota" (wrapped context (api e)))),
      s,
    )
  ]

  unfoldable pub instance_violation :
      Instance → Amounts (Option Q) → List Instance → M S (Option (QuotaViolation Q))
  instance_violation i limits all = elim (resource_violation lib all limits i) [
    | none ↦ return_with (fail accounting_error)
    | some violation ↦ value violation
  ]

  unfoldable pub limits_violation : Instance → List (Quota Q) → M S (Option (QuotaViolation Q))
  unfolding instance_violation
  limits_violation i quotas = elim (namespace_resource_limits lib quotas) [
    | none ↦ return_with (fail accounting_error)
    | some limits ↦
        if not (has_limits limits)
        then value none
        else checked_read "listing ClusterInstances in namespace"
            (srv.list_instances i.meta.namespace)
          >>= instance_violation i limits
  ]

  unfoldable pub read_resource_quota_violation : Instance → M S (Option (QuotaViolation Q))
  unfolding limits_violation
  read_resource_quota_violation i =
      checked_read "listing ResourceQuotas in namespace" (srv.list_quotas i.meta.namespace)
      >>= limits_violation i

  -- The decision, once the quotas are evaluated.
  unfoldable pub authorize :
      ℤ → NamespacePolicy → Instance → Option (QuotaViolation Q) → M S (Unit {0})
  unfolding hold blocked authorized
  authorize now policy i violation = elim violation [
    | some v ↦
        hold srv lib "recording namespace resource quota block" i.status
          (blocked lib policy namespace_resource_quota_exceeded (violation_message v) i)
    | none ↦ hold srv lib "recording provisioning authorization" i.status (authorized lib now i)
  ]

  -- The decision, once the policy is read; going on is `nil, nil`.
  unfoldable pub gate_by_policy : ℤ → Instance → NamespacePolicy → M S (Unit {0})
  unfolding hold noted blocked authorize read_resource_quota_violation
  gate_by_policy now i policy =
      if policy.is_terminating
      then hold srv lib "recording namespace termination" i.status (noted lib policy i)
      else elim i.status.provisioning [
        | some t ↦ value tt
        | none ↦
            if policy.enabled
            then read_resource_quota_violation i >>= authorize now policy i
            else hold srv lib "recording namespace provisioning block" i.status
                (blocked lib policy policy.reason policy.message i)
      ]

  unfoldable pub gate_namespace_provisioning : ℤ → Instance → M S (Unit {0})
  unfolding gate_by_policy
  gate_namespace_provisioning now i =
      read_namespace_policy srv i.meta.namespace >>= gate_by_policy now i
