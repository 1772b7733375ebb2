-- ===== src/Pool/Acts.antt =====
-- What the decisions of a pool do that nothing blocks: they create, or leave the instances.
use guestcluster.Api.{Instance, Pool, PoolStatus}
use guestcluster.Base.{
  Bool-cases, List, Text, ap, arith, false, inl, inr, none, pos, refl, some, true, ℤ, ◌&&◌, ◌∙◌,
  ◌≡◌,
}
use guestcluster.Capacity.{at_limit}
use guestcluster.Kube.{M, Meta, Outcome, Step, go_on, return, unless_exists, ◌>>=◌, ◌>>◌}
use guestcluster.Platform.{Library, Server}
use guestcluster.Pool.Accounting.{is_positive}
use guestcluster.Pool.Effects.{update_status-stored}
use guestcluster.Pool.Reconcile.{Observation, act}
use guestcluster.Pool.Scaling.{
  after_create, create_instance_for, new_instance, pool_excess, report, scale_down_excess,
  scale_up_if_needed, with_owner,
}
use guestcluster.Store.{InstanceStore}

bind-goes_on :
    {S A B : Type 0} (m : M S A) (f : A → M S B) (s : S) {a : A} {t : S}
    → m s ≡ (go_on a, t)
    → (m >>= f) s ≡ f a t
bind-goes_on {S} {A} m f s e = ap (λ (r : Step A × S). ◌>>=◌ {A = A} (λ (_ : S). r) f s) e

bind-returns :
    {S A B : Type 0} (m : M S A) (f : A → M S B) (s : S) {o : Outcome} {t : S}
    → m s ≡ (return o, t)
    → ((m >>= f) s).1 ≡ t
bind-returns {S} {A} m f s e = ap (λ (r : Step A × S). (◌>>=◌ {A = A} (λ (_ : S). r) f s).1) e

module _ {S Q : Type 0} (srv : Server S Q) (lib : Library Q) {ns : Text}
    {stored : S → List Instance} (store : InstanceStore srv ns stored) where
  module _ (now : ℤ) (previous : PoolStatus) (pool : Pool) (o : Observation Q) (s : S) where
    -- With a need, room and no limit in the way, the instance is created.
    pub act-creates :
        (owned : Meta)
        → is_positive o.need ≡ true
        → is_positive o.room ≡ true
        → at_limit o.capacity ≡ false
        → lib.set_controller_reference pool.meta (new_instance pool o.instances).meta ≡ some owned
        → (srv.create_instance (with_owner pool o.instances owned) s).0 ≡ none
        → stored (act srv lib now true previous pool o none s).1
          ≡ stored (srv.create_instance (with_owner pool o.instances owned) s).1
    unfolding act scale_up_if_needed create_instance_for after_create report unless_exists
    act-creates owned n r c w ok =
        let t = (srv.create_instance (with_owner pool o.instances owned) s).1 in
        let created : create_instance_for srv lib pool o.instances s ≡ (go_on none, t) =
          rw (w, create_instance_for) (rw ok refl) in
        let scaled : scale_up_if_needed srv lib pool previous o.instances o.need o.room o.capacity
              none s
            ≡ after_create srv lib previous pool none t =
          rw (n, r, c, scale_up_if_needed)
            (bind-goes_on (create_instance_for srv lib pool o.instances)
              (after_create srv lib previous pool) s created) in
        ap stored (
          bind-returns
            (scale_up_if_needed srv lib pool previous o.instances o.need o.room o.capacity none)
            (λ u.
              scale_down_excess srv lib now pool previous o.supply o.pending_demand
              >> report srv lib (pos 0) previous pool)
            s scaled)
        ∙ update_status-stored srv lib store previous pool t

    -- With nothing to create and no excess, the instances stay.
    pub act-stays :
        (is_positive o.need && is_positive o.room) ≡ false
        → is_positive (pool_excess pool.spec o.supply o.pending_demand) ≡ false
        → stored (act srv lib now true previous pool o none s).1 ≡ stored s
    unfolding act scale_up_if_needed scale_down_excess report
    act-stays n x = elim (Bool-cases (is_positive o.need)) [
      | inl e ↦
          let full : is_positive o.room ≡ false = ground arith in
          rw (e, full, act, scale_up_if_needed)
            (rw (x, scale_down_excess) (update_status-stored srv lib store previous pool s))
      | inr e ↦
          rw (e, act, scale_up_if_needed)
            (rw (x, scale_down_excess) (update_status-stored srv lib store previous pool s))
    ]
