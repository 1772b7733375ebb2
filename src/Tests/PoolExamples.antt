-- ===== src/Tests/PoolExamples.antt =====
-- A pool of at most two instances in the concrete world, and the theorems about it.
use guestcluster.Api.{
  Instance, Lease, LeasePhase, Phase, Pool, Quota, Template, crc, new_instance_status,
}
use guestcluster.Base.{
  All, IsInt32, List, Text, [], any_if, arith, codes, count_if, false, keep_if, length, none, pos,
  refl, some, suc, text_eq, true, wrap32, ℕ, ◌+ℤ◌, ◌-₃₂◌, ◌-ℤ◌, ◌↔◌, ◌∷◌, ◌≡◌, ◌≤◌, ◌⊎◌,
}
use guestcluster.Capacity.{
  at_limit, capacity_of, cluster_instance_count_quota, namespace_instance_limit,
}
use guestcluster.Capacity.Lowest.{AllowsOneMore, at_limit-AllowsOneMore}
use guestcluster.Kube.{found, is_deleting, named}
use guestcluster.Pool.Accounting.{
  compute_instance_accounting, compute_lease_accounting, is_claimed, is_positive, pool_need,
}
use guestcluster.Pool.Accounting.Counts.{
  compute_instance_accounting-supply_of, compute_instance_accounting-total,
  compute_lease_accounting-any_if, is_broken, is_coming, is_free, is_in_use, is_waiting,
  names_instance, supply_of,
}
use guestcluster.Pool.Census.{census, observe-census}
use guestcluster.Pool.Convergence.{Census, Fits, create_causes_no_trim, has_excess, has_room, needs}
use guestcluster.Pool.Naming.{next_instance_name}
use guestcluster.Pool.Naming.Fresh.{next_instance_name-fresh}
use guestcluster.Pool.Reconcile.{observe, reconcile}
use guestcluster.Pool.Safety.{reconcile-max_size, reconcile-quota, reconcile-spares_claimed}
use guestcluster.Pool.Scaling.{pool_excess}
use guestcluster.Pool.Scaling.Deficit.{HasSizes}
use guestcluster.Resources.{matches_labels, pool_labels}
use guestcluster.Store.{tally}
use guestcluster.Tests.World.{World, home, stored, world-InstanceStore, world_library, world_server}

abbrev pub template : Template
template = record {
  crc_version = codes "4.19.0";
  crc_arch = [];
  release_image = [];
  ocp_version = [];
  node_pool_replicas = none;
  controller_availability_policy = none;
  memory = codes "16";
  cores = pos 4;
  root_volume_size = codes "64";
  pull_secret_ref = [];
  idms_ref = none;
  bundle_ssh_key_ref = none;
  hcp_worker_ssh_key_ref = none;
  vm_node_selector = [];
  storage_class_name = [];
}

abbrev pub pool : Pool
pool = record {
  meta = named home (codes "p");
  spec = record {
    topology = crc;
    max_size = pos 2;
    min_size = pos 1;
    warm_spares = pos 1;
    template = template;
  };
  status = record {
    total_instances = pos 0;
    terminating_instances = pos 0;
    available_instances = pos 0;
    leased_instances = pos 0;
    conditions = [];
  };
}

abbrev pub instance_called : Text → Phase → Instance
instance_called name phase = record {
  meta = record (named home name) { labels = pool_labels (codes "p") };
  spec = record { topology = crc; pool_ref = codes "p"; template = template };
  status = record new_instance_status { phase = phase };
}

abbrev pub bound_to : Text → Lease
bound_to name = record {
  meta = named home (codes "l");
  spec = record { pool_ref = codes "p"; ttl = none; requested_by = [] };
  status = record {
    phase = LeasePhase.bound;
    instance_ref = some name;
    kubeconfig_secret_ref = none;
    ocp_version = [];
    topology = none;
    api_endpoint = [];
    bound_time = none;
    conditions = [];
  };
}

abbrev pub waiting_lease : Lease
waiting_lease = record (bound_to []) {
  status = record (bound_to []).status { phase = LeasePhase.pending; instance_ref = none };
}

abbrev pub claimed_instance : Instance
claimed_instance = instance_called (codes "p-0") Phase.ready

-- One claimed instance; its pool may grow to two.
abbrev pub world : World
world = record {
  instances = claimed_instance ∷ [];
  leases = bound_to (codes "p-0") ∷ [];
  pools = pool ∷ [];
  secrets = [];
}

pub pool_sizes : HasSizes pool.spec 2 1 1
pool_sizes = record {
  max_eq = refl;
  min_eq = refl;
  spares_eq = refl;
  max_fits = omega arith;
  min_fits = omega arith;
  spares_fit = omega arith;
}

pub world_fits : IsInt32 (length (stored world))
unfolding keep_if text_eq
world_fits = omega arith

pub found_pool_sizes :
    (p : Pool) → world_server.cached_pool home (codes "p") world ≡ found p → HasSizes p.spec 2 1 1
unfolding text_eq
found_pool_sizes p h = let same_pool : pool ≡ p = cc h in rw (← same_pool) pool_sizes

reconcile-max_size_example :
    let mine = matches_labels (pool_labels (codes "p")) in
    let s' = (reconcile world_server world_library (pos 0) home (codes "p") world).1 in
    (tally stored mine s' ≤ tally stored mine world) ⊎ (tally stored mine s' ≤ 2)
reconcile-max_size_example =
    reconcile-max_size world_server world_library world-InstanceStore (pos 0) (codes "p") world 2 1
      1 world_fits found_pool_sizes

reconcile-quota_example :
    let s' = (reconcile world_server world_library (pos 0) home (codes "p") world).1 in
    (length (stored s') ≤ length (stored world))
    ⊎ ((length (stored s') ≤ suc (length (stored world)))
        × All (AllowsOneMore world_library (length (stored world))) [])
reconcile-quota_example =
    reconcile-quota world_server world_library world-InstanceStore (pos 0) (codes "p") world []
      world_fits no_quotas
  where
    no_quotas : (qs : List (Quota ℕ)) → world_server.list_quotas home world ≡ found qs → qs ≡ []
    no_quotas qs h = cc h

world_leases :
    (ls : List Lease) → world_server.list_leases home world ≡ found ls → ls ≡ world.leases
world_leases ls h = cc h

p_0_claimed :
    (i : Instance)
    → text_eq (codes "p-0") i.meta.name ≡ true
    → any_if (names_instance i.meta.name) world.leases ≡ true
unfolding names_instance
p_0_claimed i h = rw h refl

reconcile-spares_claimed_example :
    count_if (λ i. text_eq (codes "p-0") i.meta.name) (stored world)
    ≤ count_if
        (λ i. text_eq (codes "p-0") i.meta.name)
        (stored (reconcile world_server world_library (pos 0) home (codes "p") world).1)
reconcile-spares_claimed_example =
    reconcile-spares_claimed world_server world_library world-InstanceStore (pos 0) (codes "p")
      world world.leases (λ i. text_eq (codes "p-0") i.meta.name) world_fits world_leases
      p_0_claimed

-- A pool with one free instance, one that is coming, and no waiting lease.
abbrev census_of : ℕ → ℕ → ℕ → ℕ → Census
census_of t a p w = record { total = t; available = a; pending = p; waiting = w }

small-Fits : Fits (census_of 0 0 0 2)
small-Fits = record { parts = omega arith; total_fits = omega arith; waiting_fits = omega arith }

needs_test : needs pool.spec (census_of 0 0 0 2) ≡ true
unfolding is_positive pool_need ◌-₃₂◌ wrap32 ◌-ℤ◌ ◌+ℤ◌
needs_test = refl

create_causes_no_trim_example : has_excess pool.spec (census_of 0 0 0 2) ≡ false
create_causes_no_trim_example =
    create_causes_no_trim pool.spec 2 1 1 pool_sizes (census_of 0 0 0 2) small-Fits needs_test

observe-census_example :
    let o = observe world_library pool (stored world) [] world.leases in
    let c = census (codes "p") world.leases (stored world) in
    (is_positive o.need ≡ needs pool.spec c)
    × (is_positive o.room ≡ has_room pool.spec c)
    × (is_positive (pool_excess pool.spec o.supply o.pending_demand) ≡ has_excess pool.spec c)
observe-census_example =
    observe-census world_library pool (stored world) world.leases [] world_fits (omega arith)

compute_instance_accounting-supply_of_example :
    compute_instance_accounting (claimed_instance ∷ []) (codes "p-0" ∷ [])
    ≡ supply_of
        (length (claimed_instance ∷ []))
        (count_if (is_free (codes "p-0" ∷ [])) (claimed_instance ∷ []))
        (count_if (is_in_use (codes "p-0" ∷ [])) (claimed_instance ∷ []))
        (count_if is_coming (claimed_instance ∷ []))
        (count_if (λ i. is_deleting i.meta) (claimed_instance ∷ []))
        (keep_if (is_free (codes "p-0" ∷ [])) (claimed_instance ∷ []))
compute_instance_accounting-supply_of_example =
    compute_instance_accounting-supply_of (claimed_instance ∷ []) (codes "p-0" ∷ []) (omega arith)

compute_lease_accounting-any_if_example :
    let accounting = compute_lease_accounting (waiting_lease ∷ []) (codes "p") in
    (is_claimed accounting.claimed (codes "p-0")
      ≡ any_if (names_instance (codes "p-0")) (waiting_lease ∷ []))
    × (accounting.pending_demand ≡ pos (count_if (is_waiting (codes "p")) (waiting_lease ∷ [])))
compute_lease_accounting-any_if_example =
    compute_lease_accounting-any_if (waiting_lease ∷ []) (codes "p") (codes "p-0") (omega arith)

compute_instance_accounting-total_example :
    let supply = compute_instance_accounting (claimed_instance ∷ []) (codes "p-0" ∷ []) in
    supply.total
    ≡ supply.available
      +ℤ supply.leased
      +ℤ supply.pending
      +ℤ pos (count_if is_broken (claimed_instance ∷ []))
compute_instance_accounting-total_example =
    compute_instance_accounting-total (claimed_instance ∷ []) (codes "p-0" ∷ []) (omega arith)

next_instance_name-fresh_example :
    any_if
      (λ i. text_eq i.meta.name (next_instance_name (codes "p") (claimed_instance ∷ [])))
      (claimed_instance ∷ [])
    ≡ false
next_instance_name-fresh_example =
    next_instance_name-fresh (codes "p") (claimed_instance ∷ []) (omega arith)

abbrev two_instances : Quota ℕ
two_instances = record {
  meta = named home (codes "quota");
  hard = (cluster_instance_count_quota, 2) ∷ [];
}

at_limit-AllowsOneMore_example :
    (at_limit (capacity_of 1 (namespace_instance_limit world_library (two_instances ∷ []))) ≡ false)
    ↔ All (AllowsOneMore world_library 1) (two_instances ∷ [])
at_limit-AllowsOneMore_example = at_limit-AllowsOneMore world_library 1 (two_instances ∷ [])
