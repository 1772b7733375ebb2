-- ===== src/Tests/PoolRuns.antt =====
-- A reconcile that fills a pool and one that trims it, in the concrete world.
use guestcluster.Api.{Instance, Lease, Phase, Pool}
use guestcluster.Base.{
  Bool-cases, IsInt32, List, [], arith, atoi, codes, count_if, cut_prefix, decimal, false, inl, inr,
  keep_if, length, none, pos, refl, some, text_eq, text_eq→eq, true, wrap32, ℕ, ◌+ℤ◌, ◌+◌, ◌-₃₂◌,
  ◌-ℤ◌, ◌∷◌, ◌≡◌,
}
use guestcluster.Capacity.{at_limit, namespace_instance_limit, namespace_resource_limits}
use guestcluster.Kube.{Meta, found, label_value}
use guestcluster.Pool.Accounting.{add_claim, is_claimed, is_positive, pool_need, pool_room}
use guestcluster.Pool.Accounting.Counts.{claims_of, is_coming, is_free, is_waiting}
use guestcluster.Pool.Census.{census}
use guestcluster.Pool.Convergence.{has_excess, has_room, missing, needs, with_new}
use guestcluster.Pool.Filling.{IsOpen, OwnerKeeps, Turn, pass, pass-census, passes, passes-census}
use guestcluster.Pool.Naming.{is_used, next_instance_name}
use guestcluster.Pool.Reconcile.{Observation, observe, pool_instances, quota_check, reconcile}
use guestcluster.Pool.Scaling.{new_instance, pool_excess, with_owner}
use guestcluster.Pool.Trimming.{AreDistinct, reconcile-no_need}
use guestcluster.Resources.{matches_labels, pool_labels}
use guestcluster.Tests.PoolExamples.{
  bound_to, claimed_instance, instance_called, pool, pool_sizes, world, world_fits,
}
use guestcluster.Tests.World.{World, home, stored, world-InstanceStore, world_library, world_server}
use Prim.Native.Nat.{min}

world-OwnerKeeps : OwnerKeeps world_library
world-OwnerKeeps = record { labels = λ o m w h. cc h; namespace = λ o m w h. cc h }

abbrev turn : Turn
turn = record { now = pos 0; previous = pool.status; status = pool.status }

-- The leases of the world.
abbrev bound : List Lease
bound = bound_to (codes "p-0") ∷ []

no_quotas :
    (all : List Instance) (o : Observation ℕ) → quota_check world_library pool all [] o ≡ some none
unfolding quota_check namespace_resource_limits
no_quotas all o = ground arith

below : (all : List Instance) → at_limit (observe world_library pool all [] bound).capacity ≡ false
unfolding observe at_limit namespace_instance_limit
below all = refl

-- The instance that the pool creates, with its owner.
abbrev owned : Meta
owned = record (new_instance pool (pool_instances (codes "p") (stored world))).meta {
  owners = codes "p" ∷ [];
}

owner_set :
    world_library.set_controller_reference pool.meta
      (new_instance pool (pool_instances (codes "p") (stored world))).meta
    ≡ some owned
unfolding new_instance
owner_set = refl

accepted :
    (world_server.create_instance
      (with_owner pool (pool_instances (codes "p") (stored world)) owned)
      world).0
    ≡ none
unfolding new_instance keep_if text_eq matches_labels pool_labels label_value next_instance_name
    decimal is_used cut_prefix atoi
accepted = refl

world-IsOpen : IsOpen world_server world_library world-InstanceStore pool bound world
unfolding keep_if text_eq
world-IsOpen = record {
  quotas = [];
  owned = owned;
  instances_read = refl;
  quotas_read = refl;
  leases_read = refl;
  fits = omega arith;
  leases_fit = omega arith;
  below = below (stored world);
  checked = no_quotas (stored world) _;
  owner_set = owner_set;
  accepted = accepted;
}

needs_one : needs pool.spec (census (codes "p") bound (stored world)) ≡ true
unfolding census count_if keep_if text_eq matches_labels pool_labels label_value is_free is_coming
    is_claimed claims_of add_claim is_waiting is_positive pool_need ◌-₃₂◌ wrap32 ◌-ℤ◌ ◌+ℤ◌
needs_one = refl

has_room_for_one : has_room pool.spec (census (codes "p") bound (stored world)) ≡ true
unfolding census count_if keep_if text_eq matches_labels pool_labels label_value is_positive
    pool_room ◌-₃₂◌ wrap32 ◌-ℤ◌ ◌+ℤ◌
has_room_for_one = refl

no_excess : has_excess pool.spec (census (codes "p") bound (stored world)) ≡ false
unfolding census count_if keep_if text_eq matches_labels pool_labels label_value is_free is_coming
    is_claimed claims_of add_claim is_waiting is_positive pool_excess ◌-₃₂◌ wrap32 ◌-ℤ◌ ◌+ℤ◌
no_excess = refl

abbrev run : List Turn → World → World
run = passes world_server world_library world-InstanceStore world-OwnerKeeps pool bound refl

pass-census_example :
    census (codes "p") bound (
      stored (
        pass world_server world_library world-InstanceStore world-OwnerKeeps pool bound refl turn
          world))
    ≡ with_new (census (codes "p") bound (stored world))
pass-census_example =
    pass-census world_server world_library world-InstanceStore world-OwnerKeeps pool bound refl turn
      world world-IsOpen needs_one has_room_for_one

passes-census_example :
    let c = census (codes "p") bound (stored world) in
    let c' = census (codes "p") bound (stored (run (turn ∷ []) world)) in
    let created = min 1 (missing pool.spec 2 1 1 pool_sizes c) in
    (c'.total ≡ c.total + created)
    × (c'.pending ≡ c.pending + created)
    × (c'.available ≡ c.available)
    × (c'.waiting ≡ c.waiting)
passes-census_example =
    passes-census world_server world_library world-InstanceStore world-OwnerKeeps pool bound refl 2
      1 1 pool_sizes (turn ∷ []) world (world-IsOpen, tt) no_excess world_fits (omega arith)

-- Two free instances, where one would do.
abbrev spare_world : World
spare_world = record world {
  instances = claimed_instance ∷ instance_called (codes "p-1") Phase.ready ∷ [];
  leases = [];
}

spare_excess : has_excess pool.spec (census (codes "p") [] (stored spare_world)) ≡ true
unfolding census count_if keep_if text_eq matches_labels pool_labels label_value is_free is_coming
    is_claimed claims_of is_positive pool_excess ◌-₃₂◌ wrap32 ◌-ℤ◌ ◌+ℤ◌
spare_excess = refl

spare_fits : IsInt32 (length (stored spare_world))
unfolding keep_if text_eq
spare_fits = omega arith

spare-AreDistinct : AreDistinct (stored spare_world)
unfolding keep_if text_eq count_if
spare-AreDistinct n = elim (Bool-cases (text_eq (codes "p-0") n)) [
  | inl e ↦ rw (← text_eq→eq (codes "p-0") n e) (omega arith)
  | inr e ↦ rw e (ground arith)
]

found_pool : (p : Pool) → world_server.cached_pool home (codes "p") spare_world ≡ found p → pool ≡ p
unfolding text_eq
found_pool p h = cc h

reconcile-no_need_example :
    needs pool.spec (
      census
        (codes "p")
        []
        (stored (reconcile world_server world_library (pos 0) home (codes "p") spare_world).1))
    ≡ false
reconcile-no_need_example =
    reconcile-no_need world_server world_library world-InstanceStore (codes "p") [] pool.spec 2 1 1
      pool_sizes spare_world spare_fits (omega arith) spare-AreDistinct spare_excess (pos 0)
      pool_spec (λ ls h. cc h)
  where
    pool_spec :
        (p : Pool)
        → world_server.cached_pool home (codes "p") spare_world ≡ found p
        → p.spec ≡ pool.spec
    pool_spec p h = rw (← found_pool p h) refl
