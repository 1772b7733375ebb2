-- ===== src/Pool/Scaling.antt =====
-- scaleUpIfNeeded, scaleDownExcess and what they call, of
-- internal/controller/clusterpool_controller.go. Returning from the handler is `handled == true`;
-- going on is `handled == false`.
use guestcluster.Api.{Instance, Pool, PoolSpec, PoolStatus, new_instance_status}
use guestcluster.Base.{
  Bool, List, Option, [], codes, contains_text, false, if◌then◌else◌, leb_ℤ, ltb_ℤ, max_ℤ, none,
  not, pos, some, sub_time, ℤ, ◌&&◌, ◌++◌, ◌-₃₂◌, ◌-₆₄◌, ◌||◌, ◌∷◌,
}
use guestcluster.Capacity.{
  NamespaceInstanceCapacity, QuotaViolation, at_limit, cluster_instance_count_quota,
}
use guestcluster.Kube.{
  Condition, ConditionType, Error, M, Meta, api, cause, fail, forbidden, go_on, message, named,
  return, return_with, seconds, unless_exists, unless_missing, value, wrapped, ◌>>=◌,
}
use guestcluster.Platform.{Library, Server}
use guestcluster.Pool.Accounting.{Supply, is_positive, namespace_limit_condition}
use guestcluster.Pool.Naming.{next_instance_name}
use guestcluster.Resources.{pool_labels}
pub mod Deficit
pub mod Victims

-- requeueInterval and scaleDownStabilityPeriod.
abbrev pub requeue_interval : ℤ
requeue_interval = seconds 20

abbrev pub scale_down_stability_period : ℤ
scale_down_stability_period = seconds 120

-- isClusterInstanceQuotaExceeded (internal/controller/namespace_capacity.go).
unfoldable pub is_instance_quota_exceeded : Error → Bool
unfolding cause
is_instance_quota_exceeded e = elim (cause e) [
  | some (forbidden m) ↦
      contains_text m (codes "exceeded quota:") && contains_text m cluster_instance_count_quota
  | _ ↦ false
]

-- The time since which an instance is idle: the first Ready condition's, or else its creation.
unfoldable pub idle_since_loop : ℤ → List Condition → ℤ
idle_since_loop created [] = created
idle_since_loop created (c ∷ cs) = elim c.kind [
  | ConditionType.ready ↦ c.last_transition_time
  | _ ↦ idle_since_loop created cs
]

unfoldable pub instance_idle_since : Instance → ℤ
unfolding idle_since_loop
instance_idle_since i = idle_since_loop i.meta.creation_timestamp i.status.conditions

-- newestInstance of `newest ∷ candidates`.
unfoldable pub newest_instance : Instance → List Instance → Instance
newest_instance newest [] = newest
newest_instance newest (c ∷ cs) =
    newest_instance
      (if ltb_ℤ newest.meta.creation_timestamp c.meta.creation_timestamp then c else newest) cs

-- The two results of the loop over the stability window.
pub record Window : Type 0 where
  pub eligible : List Instance
  pub min_remaining : ℤ

unfoldable pub watch_instance : ℤ → Window → Instance → Window
watch_instance now w i =
    let age = sub_time now (instance_idle_since i) in
    if leb_ℤ scale_down_stability_period age
    then record w { eligible = w.eligible ++ i ∷ [] }
    else if ltb_ℤ (scale_down_stability_period -₆₄ age) w.min_remaining
    then record w { min_remaining = scale_down_stability_period -₆₄ age }
    else w

unfoldable pub window_loop : ℤ → Window → List Instance → Window
unfolding watch_instance
window_loop now w [] = w
window_loop now w (i ∷ is_) = window_loop now (watch_instance now w i) is_

abbrev pub open_window : Window
open_window = record { eligible = []; min_remaining = scale_down_stability_period }

-- What each floor allows to trim, and the smaller of the two.
unfoldable pub pool_excess : PoolSpec → Supply → ℤ → ℤ
pool_excess spec supply pending_demand =
    let spare_floor = max_ℤ spec.warm_spares pending_demand in
    let excess_by_spare = supply.available -₃₂ spare_floor in
    let excess_by_total = supply.total -₃₂ spec.min_size in
    if ltb_ℤ excess_by_total excess_by_spare then excess_by_total else excess_by_spare

-- The object that createInstance builds, but for the owner reference.
unfoldable pub new_instance : Pool → List Instance → Instance
new_instance pool instances = record {
  meta = record (named pool.meta.namespace (next_instance_name pool.meta.name instances)) {
    labels = pool_labels pool.meta.name;
  };
  spec = record {
    topology = pool.spec.topology;
    pool_ref = pool.meta.name;
    template = pool.spec.template;
  };
  status = new_instance_status;
}

abbrev pub with_owner : Pool → List Instance → Meta → Instance
with_owner pool instances owned = record (new_instance pool instances) { meta = owned }

module _ {S Q : Type 0} (srv : Server S Q) (lib : Library Q) where
  -- updateStatusIfChanged: `none` is no error.
  unfoldable pub update_status_if_changed : PoolStatus → Pool → S → Option Error × S
  update_status_if_changed previous pool s =
      if lib.same_pool_status previous pool.status
      then (none, s)
      else let r = srv.update_pool_status pool s in
        elim r.0 [
          | none ↦ (none, r.1)
          | some e ↦ (some (wrapped "updating ClusterPool status" (api e)), r.1)
        ]

  -- `return ctrl.Result{RequeueAfter: d}, r.updateStatusIfChanged(...)`.
  unfoldable pub report : {A : Type 0} → ℤ → PoolStatus → Pool → M S A
  unfolding update_status_if_changed
  report d previous pool s =
      let r = update_status_if_changed previous pool s in
      (return (record { requeue_after = d; error = r.0 }), r.1)

  -- An instance that already exists under the name counts as created.
  unfoldable pub create_instance_for : Pool → List Instance → M S (Option Error)
  create_instance_for pool instances s =
      elim (lib.set_controller_reference pool.meta (new_instance pool instances).meta) [
        | none ↦ (go_on (some (message "setting owner reference")), s)
        | some owned ↦
            let r = srv.create_instance (with_owner pool instances owned) s in
            (go_on (unless_exists r.0), r.1)
      ]

  -- What scaleUpIfNeeded does with the error of createInstance.
  unfoldable pub after_create : PoolStatus → Pool → Option Error → M S (Unit {0})
  unfolding report
  after_create previous pool none = report (pos 0) previous pool
  after_create previous pool (some e) =
      if is_instance_quota_exceeded e
      then report requeue_interval previous (record pool {
        status = record pool.status {
          conditions = lib.set_condition pool.status.conditions (
              namespace_limit_condition pool.meta.generation
                (record { total = pos 0; limit = pos 0; limited = false }));
        };
      })
      else return_with (fail (wrapped "creating ClusterInstance for pool" e))

  unfoldable pub scale_up_if_needed :
      Pool
      → PoolStatus
      → List Instance
      → ℤ
      → ℤ
      → NamespaceInstanceCapacity
      → Option (QuotaViolation Q)
      → M S (Unit {0})
  unfolding create_instance_for after_create
  scale_up_if_needed pool previous instances need room capacity violation =
      if not (is_positive need) || not (is_positive room)
      then value tt
      else if at_limit capacity
      then report requeue_interval previous pool
      else elim violation [
        | some v ↦ report requeue_interval previous pool
        | none ↦ create_instance_for pool instances >>= after_create previous pool
      ]

  -- What scaleDownExcess does with the error of the delete.
  unfoldable pub after_delete : PoolStatus → Pool → Option Error → M S (Unit {0})
  unfolding report
  after_delete previous pool none = report (pos 0) previous pool
  after_delete previous pool (some e) =
      return_with (fail (wrapped "deleting excess ClusterInstance" e))

  -- The end of scaleDownExcess, once the eligible instances are known.
  unfoldable pub trim : Pool → PoolStatus → Window → M S (Unit {0})
  unfolding report after_delete
  trim pool previous w = elim w.eligible [
    | [] ↦ report w.min_remaining previous pool
    | first ∷ more ↦ λ s.
        let victim = newest_instance first more in
        let r = srv.delete_instance victim.meta.namespace victim.meta.name s in
        after_delete previous pool (unless_missing r.0) r.1
  ]

  unfoldable pub scale_down_excess : ℤ → Pool → PoolStatus → Supply → ℤ → M S (Unit {0})
  unfolding trim
  scale_down_excess now pool previous supply pending_demand =
      if not (is_positive (pool_excess pool.spec supply pending_demand))
      then value tt
      else trim pool previous (window_loop now open_window supply.available_instances)
