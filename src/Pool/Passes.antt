-- ===== src/Pool/Passes.antt =====
-- One reconcile of a pool as one change of the stored instances: the rule by which the properties of
-- a whole reconcile are proved.
use guestcluster.Api.{Instance, Pool, PoolStatus}
use guestcluster.Base.{All, Bool, List, Option, Text, arith, false, pos, refl, true, ℤ, ◌∙◌, ◌≡◌}
use guestcluster.Capacity.{NamespaceInstanceCapacity, QuotaViolation}
use guestcluster.Kube.{M, Outcome, bind-final, go_on, ◌>>◌}
use guestcluster.Platform.{Library, Server}
use guestcluster.Pool.Effects.{
  ScaledDown, ScaledUp, scale_down-ScaledDown, scale_up-ScaledUp, update_status-stored,
}
use guestcluster.Pool.Reconcile.{Observation, act}
use guestcluster.Pool.Scaling.{
  after_create, create_instance_for, pool_excess, report, scale_down_excess, scale_up_if_needed,
}
use guestcluster.Store.{InstanceStore}

module _ {S Q : Type 0} (srv : Server S Q) (lib : Library Q) {ns : Text}
    {stored : S → List Instance} (store : InstanceStore srv ns stored) where
  scale_up_goes_on :
      (pool : Pool) (previous : PoolStatus) (is_ : List Instance) (need room : ℤ)
      (capacity : NamespaceInstanceCapacity) (violation : Option (QuotaViolation Q)) (s : S)
      (u : Unit {0})
      → (scale_up_if_needed srv lib pool previous is_ need room capacity violation s).0 ≡ go_on u
      → (scale_up_if_needed srv lib pool previous is_ need room capacity violation s).1 ≡ s
  unfolding scale_up_if_needed create_instance_for after_create report
  scale_up_goes_on pool previous is_ need room capacity violation s u h = ground arith

  -- What a reconcile does once it has observed the pool: it keeps the instances, or adds one, or
  -- deletes one.
  pub data Change (P : Instance → Type 0) (now : ℤ) (pool : Pool) (o : Observation Q)
      (violation : Option (QuotaViolation Q)) (s s' : S) : Type 0 where
    up :
        ScaledUp srv lib store pool o.instances o.need o.room o.capacity violation s s'
        → Change P now pool o violation s s'
    down :
        ScaledDown srv lib store P now (pool_excess pool.spec o.supply o.pending_demand) s s'
        → Change P now pool o violation s s'

  module _ (P : Instance → Type 0) (now : ℤ) (previous : PoolStatus) (pool : Pool)
      (o : Observation Q) (violation : Option (QuotaViolation Q)) (s : S)
      (free : All P o.supply.available_instances) where
    down_part : M S Outcome
    down_part =
        scale_down_excess srv lib now pool previous o.supply o.pending_demand
        >> report srv lib (pos 0) previous pool

    ScaledDown-report :
        {t t' : S}
        → ScaledDown srv lib store P now (pool_excess pool.spec o.supply o.pending_demand) s t
        → stored t' ≡ stored t
        → ScaledDown srv lib store P now (pool_excess pool.spec o.supply o.pending_demand) s t'
    ScaledDown-report (ScaledDown.same e) k = ScaledDown.same (k ∙ e)
    ScaledDown-report (ScaledDown.one v p st x e) k = ScaledDown.one v p st x (k ∙ e)

    down_part-ScaledDown :
        ScaledDown srv lib store P now
          (pool_excess pool.spec o.supply o.pending_demand)
          s
          (down_part s).1
    unfolding down_part report
    down_part-ScaledDown =
        let x = pool_excess pool.spec o.supply o.pending_demand in
        let d =
          scale_down-ScaledDown srv lib store P now x pool previous s o.supply o.pending_demand refl
            free in
        bind-final (ScaledDown srv lib store P now x s)
          (scale_down_excess srv lib now pool previous o.supply o.pending_demand)
          (λ u. report srv lib {A = Outcome} (pos 0) previous pool) s
          (λ u e. ScaledDown-report d (update_status-stored srv lib store previous pool _))
          (λ r e. d)

    pub act-Change :
        (enabled : Bool)
        → Change P now pool o violation s (act srv lib now enabled previous pool o violation s).1
    unfolding act report down_part
    act-Change false = up (ScaledUp.same (update_status-stored srv lib store previous pool s))
    act-Change true =
        bind-final (Change P now pool o violation s)
          (scale_up_if_needed srv lib pool previous o.instances o.need o.room o.capacity violation)
          (λ u. down_part) s
          (λ x e.
            rw (scale_up_goes_on pool previous o.instances o.need o.room o.capacity violation s x e)
              (down down_part-ScaledDown))
          (λ r e. up (
            scale_up-ScaledUp srv lib store pool previous o.instances o.need o.room o.capacity s
              violation))
