-- ===== src/Pool/Effects.antt =====
-- What each write of the pool controller does to the stored instances, from the laws of the store.
use guestcluster.Api.{Instance, Pool, PoolStatus}
use guestcluster.Base.{
  All, Bool-cases, List, Option, Option-cases, Text, [], arith, false, inl, inr, none, refl, some,
  true, ℤ, ◌∷◌, ◌≡◌,
}
use guestcluster.Capacity.{NamespaceInstanceCapacity, QuotaViolation, at_limit}
use guestcluster.Kube.{Error, Meta, message, ◌>>=◌}
use guestcluster.Platform.{Library, Server}
use guestcluster.Pool.Accounting.{Supply, is_positive}
use guestcluster.Pool.Scaling.{
  Window, after_create, after_delete, create_instance_for, is_instance_quota_exceeded, new_instance,
  newest_instance, open_window, pool_excess, report, scale_down_excess, scale_up_if_needed, trim,
  update_status_if_changed, with_owner,
}
use guestcluster.Pool.Scaling.Victims.{IsStable, newest_instance-All, window_loop-All}
use guestcluster.Store.{InstanceStore}

module _ {S Q : Type 0} (srv : Server S Q) (lib : Library Q) {ns : Text}
    {stored : S → List Instance} (store : InstanceStore srv ns stored) where
  pub update_status-stored :
      (previous : PoolStatus) (pool : Pool) (s : S)
      → stored (update_status_if_changed srv lib previous pool s).1 ≡ stored s
  unfolding update_status_if_changed
  update_status-stored previous pool s = ground (arith, store.pool_status_keeps pool s)

  after_create-stored :
      (previous : PoolStatus) (pool : Pool) (r : Option Error) (s : S)
      → stored (after_create srv lib previous pool r s).1 ≡ stored s
  unfolding after_create report
  after_create-stored previous pool none s = update_status-stored previous pool s
  after_create-stored previous pool (some e) s = elim (Bool-cases (is_instance_quota_exceeded e)) [
    | inl quota ↦ rw quota (update_status-stored previous _ s)
    | inr no_quota ↦ rw no_quota refl
  ]

  -- What a scale-up does: nothing, or one create, where need and room are positive, the number of
  -- instances is below the limit and no other quota is violated.
  pub data ScaledUp (pool : Pool) (is_ : List Instance) (need room : ℤ)
      (capacity : NamespaceInstanceCapacity) (violation : Option (QuotaViolation Q)) (s s' : S)
      : Type 0 where
    same : stored s' ≡ stored s → ScaledUp pool is_ need room capacity violation s s'
    one :
        (owned : Meta)
        → is_positive need ≡ true
        → is_positive room ≡ true
        → at_limit capacity ≡ false
        → violation ≡ none
        → stored s' ≡ stored (srv.create_instance (with_owner pool is_ owned) s).1
        → ScaledUp pool is_ need room capacity violation s s'

  module _ (pool : Pool) (previous : PoolStatus) (is_ : List Instance) (need room : ℤ)
      (capacity : NamespaceInstanceCapacity) (s : S) where
    create-ScaledUp :
        is_positive need ≡ true
        → is_positive room ≡ true
        → at_limit capacity ≡ false
        → ScaledUp pool is_ need room capacity none s
            ((create_instance_for srv lib pool is_ >>= after_create srv lib previous pool) s).1
    unfolding create_instance_for
    create-ScaledUp n r c =
        elim (Option-cases (lib.set_controller_reference pool.meta (new_instance pool is_).meta)) [
          | inl e ↦
              rw (e, create_instance_for)
                (same
                  (after_create-stored previous pool (some (message "setting owner reference")) s))
          | inr (owned, e) ↦
              rw (e, create_instance_for)
                (one owned n r c refl (after_create-stored previous pool _ _))
        ]

    pub scale_up-ScaledUp :
        (violation : Option (QuotaViolation Q))
        → ScaledUp pool is_ need room capacity violation s
            (scale_up_if_needed srv lib pool previous is_ need room capacity violation s).1
    unfolding scale_up_if_needed report
    scale_up-ScaledUp violation = elim (Bool-cases (is_positive need)) [
      | inr n ↦ rw (n, scale_up_if_needed) (same refl)
      | inl n ↦ elim (Bool-cases (is_positive room)) [
        | inr r ↦ rw (n, r, scale_up_if_needed) (same refl)
        | inl r ↦ elim (Bool-cases (at_limit capacity)) [
          | inl c ↦ rw (n, r, c, scale_up_if_needed) (same (update_status-stored previous pool s))
          | inr c ↦ elim (Option-cases violation) [
            | inl v ↦ rw (n, r, c, v, scale_up_if_needed) (create-ScaledUp n r c)
            | inr (v, e) ↦
                rw (n, r, c, e, scale_up_if_needed) (same (update_status-stored previous pool s))
          ]
        ]
      ]
    ]

  -- What a scale-down does: nothing, or one delete of a stable instance for which `P` holds, where
  -- the excess is positive.
  pub data ScaledDown (P : Instance → Type 0) (now excess : ℤ) (s s' : S) : Type 0 where
    same : stored s' ≡ stored s → ScaledDown P now excess s s'
    one :
        (v : Instance)
        → P v
        → IsStable now v
        → is_positive excess ≡ true
        → stored s' ≡ stored (srv.delete_instance v.meta.namespace v.meta.name s).1
        → ScaledDown P now excess s s'

  module _ (P : Instance → Type 0) (now excess : ℤ) (pool : Pool) (previous : PoolStatus)
      (s : S) where
    after_delete-stored :
        (r : Option Error) (t : S) → stored (after_delete srv lib previous pool r t).1 ≡ stored t
    unfolding after_delete report
    after_delete-stored none t = update_status-stored previous pool t
    after_delete-stored (some e) t = refl

    trim-ScaledDown :
        (w : Window) (es : List Instance)
        → w.eligible ≡ es
        → All (λ i. P i × IsStable now i) es
        → is_positive excess ≡ true
        → ScaledDown P now excess s (trim srv lib pool previous w s).1
    unfolding trim report
    trim-ScaledDown w [] e all x = rw (e, trim) (same (update_status-stored previous pool s))
    trim-ScaledDown w (first ∷ more) e all x =
        rw (e, trim)
          (let v = newest_instance first more in
            let good = newest_instance-All (λ i. P i × IsStable now i) first more all.0 all.1 in
            one v good.0 good.1 x (after_delete-stored _ _))

    pub scale_down-ScaledDown :
        (supply : Supply) (pending_demand : ℤ)
        → pool_excess pool.spec supply pending_demand ≡ excess
        → All P supply.available_instances
        → ScaledDown P now excess s
            (scale_down_excess srv lib now pool previous supply pending_demand s).1
    unfolding scale_down_excess
    scale_down-ScaledDown supply pending_demand e all = elim (Bool-cases (is_positive excess)) [
      | inr x ↦ rw (e, x, scale_down_excess) (same refl)
      | inl x ↦
          rw (e, x, scale_down_excess)
            (trim-ScaledDown _ _ refl (window_loop-All P now open_window _ all tt) x)
    ]
