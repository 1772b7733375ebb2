-- ===== src/Pool/Accounting.antt =====
-- computeLeaseAccounting, computeInstanceAccounting and capacityCondition of
-- internal/controller/clusterpool_controller.go.
use guestcluster.Api.{Instance, Lease, LeasePhase, Phase, Pool, PoolSpec}
use guestcluster.Base.{
  Bool, List, Option, Text, [], false, if◌then◌else◌, inc32, ltb_ℤ, max_ℤ, none, not, pos, some,
  text_eq, true, wrap32, ℤ, ◌&&◌, ◌++◌, ◌+ℤ◌, ◌-₃₂◌, ◌||◌, ◌∷◌,
}
use guestcluster.Capacity.{NamespaceInstanceCapacity, QuotaViolation, at_limit, quota_label}
use guestcluster.Kube.{
  Condition, Message, at_capacity, capacity_available, capacity_sufficient, condition_of,
  is_deleting, max_size_too_small, namespace_at_capacity, namespace_resource_quota_exceeded, plain,
}
pub mod Counts

-- `claimed` is the key set of a map[string]bool in which every value is true.
pub record LeaseAccounting : Type 0 where
  pub claimed : List Text
  pub pending_demand : ℤ

unfoldable pub is_claimed : List Text → Text → Bool
is_claimed [] name = false
is_claimed (c ∷ cs) name = text_eq c name || is_claimed cs name

unfoldable pub add_claim : Option Text → List Text → List Text
add_claim none claimed = claimed
add_claim (some name) claimed = name ∷ claimed

-- The switch on the phase: only "" and Pending are demand.
abbrev pub phase_waits : LeasePhase → Bool
phase_waits LeasePhase.bound = false
phase_waits LeasePhase.releasing = false
phase_waits LeasePhase.released = false
phase_waits LeasePhase.failed = false
phase_waits LeasePhase.unset = true
phase_waits LeasePhase.pending = true

-- One round of the loop over the leases.
unfoldable pub account_lease : Text → LeaseAccounting → Lease → LeaseAccounting
unfolding add_claim
account_lease pool_name acc l =
    let claimed = add_claim l.status.instance_ref acc.claimed in
    if is_deleting l.meta
    then record acc { claimed = claimed }
    else if not (text_eq l.spec.pool_ref pool_name)
    then record acc { claimed = claimed }
    else if phase_waits l.status.phase
    then record acc { claimed = claimed; pending_demand = inc32 acc.pending_demand }
    else record acc { claimed = claimed }

unfoldable pub lease_accounting_loop : Text → LeaseAccounting → List Lease → LeaseAccounting
unfolding account_lease
lease_accounting_loop pool_name acc [] = acc
lease_accounting_loop pool_name acc (l ∷ ls) =
    lease_accounting_loop pool_name (account_lease pool_name acc l) ls

unfoldable pub compute_lease_accounting : List Lease → Text → LeaseAccounting
unfolding lease_accounting_loop
compute_lease_accounting leases pool_name =
    lease_accounting_loop pool_name (record { claimed = []; pending_demand = pos 0 }) leases

-- The six results of computeInstanceAccounting.
pub record Supply : Type 0 where
  pub total : ℤ
  pub available : ℤ
  pub leased : ℤ
  pub pending : ℤ
  pub terminating : ℤ
  pub available_instances : List Instance

-- The switch on the phase of an instance that is not being deleted.
unfoldable pub account_phase : List Text → Supply → Instance → Phase → Supply
account_phase claimed acc i Phase.ready =
    if is_claimed claimed i.meta.name
    then record acc { leased = inc32 acc.leased }
    else record acc {
      available = inc32 acc.available;
      available_instances = acc.available_instances ++ i ∷ [];
    }
account_phase claimed acc i Phase.failed = acc
account_phase claimed acc i Phase.unset = record acc { pending = inc32 acc.pending }
account_phase claimed acc i Phase.provisioning = record acc { pending = inc32 acc.pending }
account_phase claimed acc i Phase.terminating = record acc { pending = inc32 acc.pending }

-- One round of the loop over the instances.
unfoldable pub account_instance : List Text → Supply → Instance → Supply
unfolding account_phase
account_instance claimed acc i =
    let counted = record acc { total = inc32 acc.total } in
    if is_deleting i.meta
    then record counted { pending = inc32 acc.pending; terminating = inc32 acc.terminating }
    else account_phase claimed counted i i.status.phase

unfoldable pub instance_accounting_loop : List Text → Supply → List Instance → Supply
unfolding account_instance
instance_accounting_loop claimed acc [] = acc
instance_accounting_loop claimed acc (i ∷ is_) =
    instance_accounting_loop claimed (account_instance claimed acc i) is_

abbrev pub no_supply : Supply
no_supply = record {
  total = pos 0;
  available = pos 0;
  leased = pos 0;
  pending = pos 0;
  terminating = pos 0;
  available_instances = [];
}

unfoldable pub compute_instance_accounting : List Instance → List Text → Supply
unfolding instance_accounting_loop
compute_instance_accounting instances claimed = instance_accounting_loop claimed no_supply instances

-- The deficit against the largest of the three floors, and the room under maxSize.
unfoldable pub pool_need : PoolSpec → Supply → ℤ → ℤ
pool_need spec supply pending_demand =
    let coming = wrap32 (supply.available +ℤ supply.pending) in
    let min_size_need = spec.min_size -₃₂ supply.total in
    let warm_spare_need = spec.warm_spares -₃₂ coming in
    let demand_need = pending_demand -₃₂ coming in
    max_ℤ (max_ℤ min_size_need warm_spare_need) demand_need

unfoldable pub pool_room : PoolSpec → Supply → ℤ
pool_room spec supply = spec.max_size -₃₂ supply.total

unfoldable pub is_positive : ℤ → Bool
is_positive a = ltb_ℤ (pos 0) a

-- namespaceLimitCondition (internal/controller/namespace_capacity.go).
unfoldable pub namespace_limit_condition : ℤ → NamespaceInstanceCapacity → Condition
namespace_limit_condition generation capacity =
    condition_of capacity_available false namespace_at_capacity
      (if capacity.limited
        then record {
          format = "namespace ClusterInstance limit reached: %d of %d instances exist";
          numbers = capacity.total ∷ capacity.limit ∷ [];
          names = [];
        }
        else plain "ResourceQuota blocks creation of another ClusterInstance in this namespace")
      generation

abbrev sufficient_condition : ℤ → Condition
sufficient_condition generation =
    condition_of capacity_available true capacity_sufficient
      (plain "pool has capacity to satisfy minSize/warmSpares and pending lease demand") generation

module _ {Q : Type 0} where
  -- The message of a violation: the quantities are printed by the library, and are not kept.
  unfoldable pub violation_message : QuotaViolation Q → Message
  violation_message v = record {
    format = "namespace Guestcluster %s quota exceeded";
    numbers = [];
    names = quota_label v.dimension ∷ [];
  }

  -- namespaceResourceQuotaCondition (internal/controller/namespace_capacity.go).
  unfoldable pub namespace_resource_quota_condition : ℤ → QuotaViolation Q → Condition
  unfolding violation_message
  namespace_resource_quota_condition generation v =
      condition_of capacity_available false namespace_resource_quota_exceeded (violation_message v)
        generation

  unfoldable pub capacity_condition :
      Pool → ℤ → ℤ → ℤ → NamespaceInstanceCapacity → Option (QuotaViolation Q) → Condition
  unfolding namespace_limit_condition namespace_resource_quota_condition is_positive
  capacity_condition pool need room pending_demand capacity violation =
      if ltb_ℤ pool.spec.max_size pool.spec.min_size
        || ltb_ℤ pool.spec.max_size pool.spec.warm_spares
      then condition_of capacity_available false max_size_too_small
          (record {
            format =
                "maxSize (%d) is below minSize (%d) and/or warmSpares (%d): pool cannot reach its configured floors";
            numbers = pool.spec.max_size ∷ pool.spec.min_size ∷ pool.spec.warm_spares ∷ [];
            names = [];
          })
          pool.meta.generation
      else if is_positive need && at_limit capacity
      then namespace_limit_condition pool.meta.generation capacity
      else if is_positive need && not (is_positive room)
      then condition_of capacity_available false at_capacity
          (record {
            format = "pool is at maxSize (%d); unmet deficit of %d instance(s) (pendingDemand=%d)";
            numbers = pool.spec.max_size ∷ need ∷ pending_demand ∷ [];
            names = [];
          })
          pool.meta.generation
      else if is_positive need
      then elim violation [
        | none ↦ sufficient_condition pool.meta.generation
        | some v ↦ namespace_resource_quota_condition pool.meta.generation v
      ]
      else sufficient_condition pool.meta.generation
