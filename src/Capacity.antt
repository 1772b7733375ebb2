-- ===== src/Capacity.antt =====
-- internal/controller/namespace_capacity.go: the limits that the ResourceQuotas of a namespace put
-- on its ClusterInstances, their number and the cores, memory and storage that they ask for.
use guestcluster.Api.{Quota}
use guestcluster.Base.{
  Bool, List, Option, Text, [], codes, false, if◌then◌else◌, leb_ℤ, ltb_ℤ, none, pos, some, text_eq,
  true, ℕ, ℤ, ◌&&◌, ◌∷◌,
}
use guestcluster.Platform.{Library}
pub mod Usage
pub mod Lowest
pub mod Limits
pub mod Budget

abbrev pub cluster_instance_count_quota : Text
cluster_instance_count_quota = codes "count/clusterinstances.guestcluster.opdev.io"

-- namespaceResourceQuotaDimensions, in the order of the array.
pub data Dimension : Type 0 where
  cpu memory storage : Dimension

unfoldable pub quota_key : Dimension → Text
quota_key cpu = codes "requests.guestcluster.opdev.io/cpu"
quota_key memory = codes "requests.guestcluster.opdev.io/memory"
quota_key storage = codes "requests.guestcluster.opdev.io/storage"

-- The labels of namespaceResourceQuotaDimensions.
abbrev pub quota_label : Dimension → Text
quota_label cpu = codes "CPU"
quota_label memory = codes "memory"
quota_label storage = codes "storage"

-- A corev1.ResourceList that holds at most the three dimensions.
pub record Amounts (A : Type 0) : Type 0 where
  pub cpu_amount : A
  pub memory_amount : A
  pub storage_amount : A

abbrev pub amount_of : {A : Type 0} → Amounts A → Dimension → A
amount_of r cpu = r.cpu_amount
amount_of r memory = r.memory_amount
amount_of r storage = r.storage_amount

unfoldable pub lookup_quantity : {Q : Type 0} → List (Text × Q) → Text → Option Q
lookup_quantity [] key = none
lookup_quantity ((k, q) ∷ rest) key = if text_eq k key then some q else lookup_quantity rest key

pub record NamespaceInstanceCapacity : Type 0 where
  pub total : ℤ
  pub limit : ℤ
  pub limited : Bool

unfoldable pub at_limit : NamespaceInstanceCapacity → Bool
at_limit c = c.limited && leb_ℤ c.limit c.total

pub record QuotaViolation (Q : Type 0) : Type 0 where
  pub dimension : Dimension
  pub used : Q
  pub requested : Q
  pub limit : Q

abbrev pub capacity_of : ℕ → Option ℤ → NamespaceInstanceCapacity
capacity_of count none = record { total = pos count; limit = pos 0; limited = false }
capacity_of count (some l) = record { total = pos count; limit = l; limited = true }

module _ {Q : Type 0} (lib : Library Q) where
  -- One quota: the lower of the limit so far and its own; `none` while no quota limits the count.
  unfoldable pub lower_count_limit : Option ℤ → Quota Q → Option ℤ
  lower_count_limit limit quota = elim (lookup_quantity quota.hard cluster_instance_count_quota) [
    | none ↦ limit
    | some q ↦ elim limit [
      | none ↦ some (lib.quantity_value q)
      | some l ↦ some (if ltb_ℤ (lib.quantity_value q) l then lib.quantity_value q else l)
    ]
  ]

  -- The loop of namespaceClusterInstanceLimit.
  unfoldable pub instance_limit_loop : Option ℤ → List (Quota Q) → Option ℤ
  unfolding lower_count_limit
  instance_limit_loop limit [] = limit
  instance_limit_loop limit (quota ∷ rest) =
      instance_limit_loop (lower_count_limit limit quota) rest

  unfoldable pub namespace_instance_limit : List (Quota Q) → Option ℤ
  unfolding instance_limit_loop
  namespace_instance_limit quotas = instance_limit_loop none quotas

  -- One dimension of one quota: the lower of the limit so far and this one, or the error.
  unfoldable pub lower_limit : Dimension → Option Q → Quota Q → Option (Option Q)
  lower_limit d current quota = elim (lookup_quantity quota.hard (quota_key d)) [
    | none ↦ some current
    | some q ↦ elim (lib.as_int64 q) [
      | none ↦ none
      | some v ↦ if ltb_ℤ v (pos 0) then none else elim current [
        | none ↦ some (some q)
        | some c ↦ some (some (if lib.quantity_lt q c then q else c))
      ]
    ]
  ]

  -- The loop of namespaceClusterInstanceResourceLimits. `none` is its error: a limit that is not a
  -- whole number of units, or is below 0.
  unfoldable pub resource_limits_loop :
      Amounts (Option Q) → List (Quota Q) → Option (Amounts (Option Q))
  resource_limits_loop limits [] = some limits
  resource_limits_loop limits (quota ∷ rest) = elim (lower_limit cpu limits.cpu_amount quota) [
    | none ↦ none
    | some c ↦ elim (lower_limit memory limits.memory_amount quota) [
      | none ↦ none
      | some m ↦ elim (lower_limit storage limits.storage_amount quota) [
        | none ↦ none
        | some d ↦
            resource_limits_loop (record { cpu_amount = c; memory_amount = m; storage_amount = d })
              rest
      ]
    ]
  ]

  abbrev pub no_limits : Amounts (Option Q)
  no_limits = record { cpu_amount = none; memory_amount = none; storage_amount = none }

  unfoldable pub namespace_resource_limits : List (Quota Q) → Option (Amounts (Option Q))
  unfolding resource_limits_loop
  namespace_resource_limits quotas = resource_limits_loop no_limits quotas
