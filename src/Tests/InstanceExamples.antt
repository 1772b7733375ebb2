-- ===== src/Tests/InstanceExamples.antt =====
-- The deletion and the gate of an instance in the concrete world.
use guestcluster.Api.{Instance}
use guestcluster.Base.{none, pos, refl, some, text_eq, ◌≡◌, ◌≢◌}
use guestcluster.Instance.Cleanup.{gate-authorized, reconcile_instance_delete-holds}
use guestcluster.Instance.Delete.{Teardown, reconcile_instance_delete, waiting}
use guestcluster.Instance.Gate.{gate_namespace_provisioning}
use guestcluster.Instance.Projection.{holder, project_lease_ref-settles, projected}
use guestcluster.Instance.Status.{project_lease_ref}
use guestcluster.Kube.{done, go_on, label_value, return}
use guestcluster.Policy.{policy_of, read_namespace_policy}
use guestcluster.Tests.PoolExamples.{claimed_instance, world}
use guestcluster.Tests.World.{World, stored, world_library, world_server}

-- A teardown that waits.
abbrev busy_teardown : Instance → World → Teardown × Instance × World
busy_teardown i w = (waiting, i, w)

reconcile_instance_delete-holds_example :
    stored
      (reconcile_instance_delete world_server world_library busy_teardown
        (pos 0)
        claimed_instance
        world).1
    ≡ stored world
reconcile_instance_delete-holds_example =
    reconcile_instance_delete-holds world_server world_library busy_teardown stored (λ j t. refl)
      (λ j t. refl) (pos 0) claimed_instance world (λ j t e f h. cc h)

abbrev authorized_instance : Instance
authorized_instance = record claimed_instance {
  status = record claimed_instance.status { provisioning = some (pos 7) };
}

gate_test :
    (gate_namespace_provisioning world_server world_library (pos 0) authorized_instance world).0
    ≡ go_on tt
unfolding gate_namespace_provisioning read_namespace_policy policy_of label_value text_eq
gate_test = refl

gate-authorized_example :
    (authorized_instance.status.provisioning ≢ none)
    × ((gate_namespace_provisioning world_server world_library (pos 0) authorized_instance world).1
        ≡ world)
gate-authorized_example =
    gate-authorized world_server world_library (pos 0) authorized_instance world gate_test

project_lease_ref-settles_example :
    ((claimed_instance.status.lease_ref ≡ holder world.leases)
      → project_lease_ref world_server claimed_instance world.leases world ≡ (return done, world))
    × ((claimed_instance.status.lease_ref ≢ holder world.leases)
        → (project_lease_ref world_server claimed_instance world.leases world).1
          ≡ (world_server.update_instance_status
              (projected world_server claimed_instance world.leases)
              world).1)
project_lease_ref-settles_example =
    project_lease_ref-settles world_server claimed_instance world.leases world
