-- ===== src/Tests/ManagerExamples.antt =====
-- Steps of the manager from a world in which a lease waits.
use guestcluster.Api.{Instance, Lease, Pool}
use guestcluster.Base.{
  Bool, IsInt32, List, Text, [], arith, codes, count_if, keep_if, length, not, pos, refl, text_eq,
  ◌∷◌, ◌≡◌, ◌≤◌,
}
use guestcluster.Kube.{found, label_value}
use guestcluster.Lease.Choice.{claims_in}
use guestcluster.Lease.Claims.{claims}
use guestcluster.Manager.{Apart, IsSound, Reach, Reach-IsSound, here, lease_pass, next, pool_pass}
use guestcluster.Pool.Accounting.Counts.{names_instance}
use guestcluster.Pool.Scaling.Deficit.{HasSizes}
use guestcluster.Resources.{matches_labels, pool_labels}
use guestcluster.Tests.LeaseExamples.{two_leases}
use guestcluster.Tests.LeaseWorld.{held, world-LeaseStore}
use guestcluster.Tests.PoolExamples.{bound_to, found_pool_sizes}
use guestcluster.Tests.World.{
  World, count_if-delete, home, in_namespace, is_called, stored, world-InstanceStore, world_library,
  world_server,
}
use guestcluster.Pool.Reconcile.{reconcile as pool_reconcile}
use guestcluster.Lease.Reconcile.{reconcile as lease_reconcile}

world-Apart : Apart world_server stored held
world-Apart = record {
  instance_created = λ i w. created_leases i w;
  instance_deleted = λ m n w. refl;
  pool_status = λ p w. refl;
  bundle_created = λ b w. refl;
  lease_updated = λ l w. refl;
  lease_status = λ l w. refl;
  lease_deleted = λ l w. refl;
  secret_created = λ x w. refl;
  secret_updated = λ x w. refl;
  deletes_add_none = λ m n w q.
      count_if-delete (λ i. q i.meta.labels) (in_namespace home) (λ i. not (is_called m n i))
        w.instances;
}
  where
    created_leases : (i : Instance) (w : World) → held (world_server.create_instance i w).1 ≡ held w
    created_leases i w = ground arith

abbrev p_name : Text
p_name = codes "p"

count_if-length : (q : Lease → Bool) (ls : List Lease) → count_if q ls ≤ length ls
unfolding count_if
count_if-length q [] = omega arith
count_if-length q (l ∷ ls) = ground (arith, count_if-length q ls)

-- The waiting lease names no instance.
one_claim : (n : Text) → claims p_name n two_leases.leases ≤ 1
unfolding count_if names_instance text_eq
one_claim n = count_if-length (claims_in p_name n) (bound_to (codes "p-0") ∷ [])

abbrev IsSoundWorld : World → Type 0
IsSoundWorld w =
    IsSound world_server world_library world-InstanceStore world-LeaseStore world-Apart p_name 2 1 1
      w

two_leases-IsSoundWorld : IsSoundWorld two_leases
unfolding count_if keep_if text_eq matches_labels pool_labels label_value
two_leases-IsSoundWorld = record { within_max = omega arith; exclusive = one_claim }

two_leases_fit : IsInt32 (length (stored two_leases))
unfolding keep_if text_eq
two_leases_fit = omega arith

abbrev after_pool : World
after_pool = (pool_reconcile world_server world_library (pos 0) home p_name two_leases).1

abbrev after_lease : World
after_lease = (lease_reconcile world_server world_library (pos 1) home (codes "l") after_pool).1

two_steps :
    Reach world_server world_library world-InstanceStore world-LeaseStore world-Apart p_name 2 1 1
      two_leases after_lease
two_steps =
    next (next here (pool_pass (pos 0) two_leases_fit two_leases_sizes refl))
      (lease_pass (pos 1) (codes "l") refl)
  where
    two_leases_sizes :
        (p : Pool)
        → world_server.cached_pool home p_name two_leases ≡ found p
        → HasSizes p.spec 2 1 1
    two_leases_sizes p h = found_pool_sizes p h

Reach-IsSound_example : IsSoundWorld after_lease
Reach-IsSound_example =
    Reach-IsSound world_server world_library world-InstanceStore world-LeaseStore world-Apart p_name
      2 1 1 two_leases-IsSoundWorld two_steps
