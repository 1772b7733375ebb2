-- ===== src/Tests/BudgetExamples.antt =====
-- The quota check of the concrete world.
use guestcluster.Api.{Instance, Phase, Quota}
use guestcluster.Base.{
  All, Option, [], atoi, codes, none, refl, some, text_eq, ℕ, ◌+◌, ◌<◌, ◌∷◌, ◌≡◌, ◌≤◌,
}
use guestcluster.Capacity.{
  Amounts, QuotaViolation, amount_of, lookup_quantity, lower_limit, memory,
  namespace_resource_limits, quota_key,
}
use guestcluster.Capacity.Budget.{asked, reserved, resource_violation-some, within_quotas}
use guestcluster.Capacity.Usage.{
  add_usage, counts_against, first_violation, instance_resource_usage, resource_violation,
  usage_loop,
}
use guestcluster.Kube.{named}
use guestcluster.Platform.{QuantityLaws}
use guestcluster.Tests.PoolExamples.{claimed_instance, instance_called}
use guestcluster.Tests.World.{home, world_library}

abbrev world_amount : ℕ → ℕ
world_amount q = q

world-QuantityLaws : QuantityLaws world_library world_amount
world-QuantityLaws = record {
  lt_amount = λ a b. refl;
  add_amount = λ a b. refl;
  zero_amount = refl;
}

-- At most 40 of memory may be asked for.
abbrev memory_quota : Quota ℕ
memory_quota = record {
  meta = named home (codes "q");
  hard = (codes "requests.guestcluster.opdev.io/memory", 40) ∷ [];
}

abbrev memory_limit : Amounts (Option ℕ)
memory_limit = record { cpu_amount = none; memory_amount = some 40; storage_amount = none }

abbrev second : Instance
second = instance_called (codes "p-1") Phase.unset

abbrev third : Instance
third = instance_called (codes "p-2") Phase.unset

memory_limits : namespace_resource_limits world_library (memory_quota ∷ []) ≡ some memory_limit
unfolding namespace_resource_limits lookup_quantity quota_key text_eq lower_limit
memory_limits = refl

abbrev memory_violation : QuotaViolation ℕ
memory_violation = record { dimension = memory; used = 32; requested = 16; limit = 40 }

second_fits :
    resource_violation world_library (claimed_instance ∷ second ∷ []) memory_limit second
    ≡ some none
unfolding resource_violation usage_loop counts_against instance_resource_usage text_eq atoi
    first_violation add_usage
second_fits = refl

third_breaks :
    resource_violation world_library (claimed_instance ∷ second ∷ third ∷ []) memory_limit third
    ≡ some (some memory_violation)
unfolding resource_violation usage_loop counts_against instance_resource_usage text_eq atoi
    first_violation add_usage
third_breaks = refl

within_quotas_example :
    All
      (λ quota.
        (q : ℕ)
        → lookup_quantity quota.hard (quota_key memory) ≡ some q
        → reserved world_library world_amount world-QuantityLaws second memory
              (claimed_instance ∷ second ∷ [])
            + asked world_library world_amount world-QuantityLaws second memory
          ≤ world_amount q)
      (memory_quota ∷ [])
within_quotas_example =
    within_quotas world_library world_amount world-QuantityLaws (memory_quota ∷ []) memory_limit
      (claimed_instance ∷ second ∷ []) second memory memory_limits second_fits

resource_violation-some_example :
    (amount_of memory_limit memory_violation.dimension ≡ some memory_violation.limit)
    × (world_amount memory_violation.limit
        < reserved world_library world_amount world-QuantityLaws third memory_violation.dimension
            (claimed_instance ∷ second ∷ third ∷ [])
          + asked world_library world_amount world-QuantityLaws third memory_violation.dimension)
resource_violation-some_example =
    resource_violation-some world_library world_amount world-QuantityLaws
      (claimed_instance ∷ second ∷ third ∷ []) memory_limit third memory_violation third_breaks
