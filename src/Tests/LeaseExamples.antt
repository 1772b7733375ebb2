-- ===== src/Tests/LeaseExamples.antt =====
-- A lease that waits in the concrete world, and the theorems about it.
use guestcluster.Api.{Lease, Secret}
use guestcluster.Base.{
  Bool, List, Text, [], any_if, arith, codes, count_if, false, inl, inr, keep_if, pos, refl, some,
  true, ◌∷◌, ◌≡◌, ◌≤◌, ◌⊎◌,
}
use guestcluster.Kube.{Meta, contains_finalizer, named, requeue, return}
use guestcluster.Lease.Bind.{bind}
use guestcluster.Lease.Choice.{candidate_loop-first, claims_in, first, is_claimed-claimed_loop}
use guestcluster.Lease.Claims.{claims, reconcile-claims}
use guestcluster.Lease.Deadline.{reconcile_bound-deadline}
use guestcluster.Lease.Match.{candidate_loop, claimed_loop}
use guestcluster.Lease.Reconcile.{reconcile, reconcile_bound}
use guestcluster.Lease.Secrets.{bind-spares_foreign}
use guestcluster.Pool.Accounting.{is_claimed}
use guestcluster.Pool.Accounting.Counts.{is_free}
use guestcluster.Tests.LeaseWorld.{held, kept_secrets, world-LeaseStore, world-SecretStore}
use guestcluster.Tests.PoolExamples.{bound_to, claimed_instance, waiting_lease, world}
use guestcluster.Tests.World.{World, home, world_library, world_server}

abbrev pub two_leases : World
two_leases = record world { leases = waiting_lease ∷ bound_to (codes "p-0") ∷ [] }

candidate_loop-first_example :
    candidate_loop [] (claimed_instance ∷ []) ≡ first (keep_if (is_free []) (claimed_instance ∷ []))
candidate_loop-first_example = candidate_loop-first [] (claimed_instance ∷ [])

is_claimed-claimed_loop_example :
    is_claimed (claimed_loop (codes "p") [] world.leases) (codes "p-0")
    ≡ any_if (claims_in (codes "p") (codes "p-0")) world.leases
is_claimed-claimed_loop_example = is_claimed-claimed_loop (codes "p") world.leases (codes "p-0")

reconcile-claims_example :
    let s' = (reconcile world_server world_library (pos 0) home (codes "l") two_leases).1 in
    (claims (codes "p") (codes "p-0") (held s')
      ≤ claims (codes "p") (codes "p-0") (held two_leases))
    ⊎ (claims (codes "p") (codes "p-0") (held s') ≤ 1)
reconcile-claims_example =
    reconcile-claims world_server world_library world-LeaseStore (pos 0) (codes "l") (codes "p")
      (codes "p-0") two_leases

abbrev dated_lease : Lease
dated_lease = record (bound_to (codes "p-0")) {
  spec = record (bound_to (codes "p-0")).spec { ttl = some (pos 100) };
  status = record (bound_to (codes "p-0")).status { bound_time = some (pos 1000) };
}

reconcile_bound-deadline_example :
    reconcile_bound world_server world_library (pos 1040) dated_lease world
    ≡ (return (requeue (pos 60)), world)
reconcile_bound-deadline_example =
    reconcile_bound-deadline world_server world_library dated_lease world 1000 100 1040 refl refl
      (omega arith) (omega arith) (omega arith)

abbrev foreign_secret : Secret
foreign_secret = record {
  meta = named home (codes "l-kubeconfig");
  type = codes "Opaque";
  content = [];
}

abbrev with_foreign_secret : World
with_foreign_secret = record two_leases { secrets = foreign_secret ∷ [] }

abbrev pub has_no_owner : Secret → Bool
has_no_owner x = elim x.meta.owners [ [] ↦ true | _ ∷ _ ↦ false ]

pub no_owner-uncontrolled :
    (m : Meta) (x : Secret)
    → has_no_owner x ≡ true
    → world_library.is_controlled_by x.meta m ≡ false
unfolding contains_finalizer
no_owner-uncontrolled m x h = elim (owner_cases x.meta.owners) [
  | inl e ↦ rw e refl
  | inr (o, os, e) ↦ ground arith
]
  where
    owner_cases : (xs : List Text) → (xs ≡ []) ⊎ ((o : Text) × (os : List Text) × (xs ≡ o ∷ os))
    owner_cases [] = inl refl
    owner_cases (o ∷ os) = inr (o, os, refl)

bind-spares_foreign_example :
    count_if has_no_owner (kept_secrets with_foreign_secret)
    ≤ count_if has_no_owner (
        kept_secrets
          (bind world_server world_library
            (pos 0)
            waiting_lease
            claimed_instance
            with_foreign_secret).1)
bind-spares_foreign_example =
    bind-spares_foreign world_server world_library world-SecretStore waiting_lease has_no_owner
      (no_owner-uncontrolled waiting_lease.meta) (pos 0) claimed_instance with_foreign_secret
