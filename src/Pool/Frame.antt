-- ===== src/Pool/Frame.antt =====
-- What every write of the pool controller keeps, a whole reconcile keeps.
use guestcluster.Api.{Bundle, Instance, Lease, Pool, PoolStatus, Quota}
use guestcluster.Base.{
  Bool, Bool-cases, List, Option, Option-cases, Text, [], arith, false, inl, inr, none, not, pos,
  some, subst, sym, true, ℤ, ◌||◌, ◌∷◌, ◌≡◌,
}
use guestcluster.Capacity.{NamespaceInstanceCapacity, QuotaViolation, at_limit}
use guestcluster.Kube.{
  ApiError, Error, M, Outcome, Reply-cases, bind-final, is_deleting, read, read-final, refused,
  unless_missing, ◌>>=◌,
}
use guestcluster.Platform.{Library, Server}
use guestcluster.Policy.{NamespacePolicy, read_namespace_policy}
use guestcluster.Pool.Accounting.{Supply, is_positive}
use guestcluster.Pool.Reconcile.{
  Observation, act, decide, ensure_crc_bundle, labelled_pool, observe, observed_pool,
  prepare_bundle, quota_check, reconcile, reconcile_pool, reconcile_supply, wanted_bundle,
}
use guestcluster.Pool.Scaling.{
  after_create, after_delete, create_instance_for, is_instance_quota_exceeded, new_instance,
  newest_instance, open_window, pool_excess, report, requeue_interval, scale_down_excess,
  scale_up_if_needed, trim, update_status_if_changed, window_loop,
}

-- The writes of the pool controller keep `R`.
pub record PoolWritesKeep {S Q : Type 0} (srv : Server S Q) (R : S → Type 0) : Type 0 where
  pub created : (i : Instance) (t : S) → R t → R (srv.create_instance i t).1
  pub deleted : (ns n : Text) (t : S) → R t → R (srv.delete_instance ns n t).1
  pub status : (p : Pool) (t : S) → R t → R (srv.update_pool_status p t).1
  pub bundle : (b : Bundle) (t : S) → R t → R (srv.create_bundle b t).1

module _ {S Q : Type 0} (srv : Server S Q) (lib : Library Q) (R : S → Type 0)
    (keep : PoolWritesKeep srv R) where
  status-kept :
      (previous : PoolStatus) (p : Pool) (t : S)
      → R t
      → R (update_status_if_changed srv lib previous p t).1
  unfolding update_status_if_changed
  status-kept previous p t r = ground (arith, keep.status p t)

  create-kept :
      (p : Pool) (is_ : List Instance) (t : S) → R t → R (create_instance_for srv lib p is_ t).1
  unfolding create_instance_for
  create-kept p is_ t r =
      elim (Option-cases (lib.set_controller_reference p.meta (new_instance p is_).meta)) [
        | inl e ↦ rw (e, create_instance_for) r
        | inr (owned, e) ↦ rw (e, create_instance_for) (keep.created _ t r)
      ]

  after_create-kept :
      (previous : PoolStatus) (p : Pool) (x : Option Error) (t : S)
      → R t
      → R (after_create srv lib previous p x t).1
  unfolding after_create report
  after_create-kept previous p none t r = status-kept previous p t r
  after_create-kept previous p (some e) t r = elim (Bool-cases (is_instance_quota_exceeded e)) [
    | inl q ↦ rw q (status-kept previous _ t r)
    | inr q ↦ rw q r
  ]

  scale_up-kept :
      (p : Pool) (previous : PoolStatus) (is_ : List Instance) (need room : ℤ)
      (capacity : NamespaceInstanceCapacity) (violation : Option (QuotaViolation Q)) (t : S)
      → R t
      → R (scale_up_if_needed srv lib p previous is_ need room capacity violation t).1
  unfolding scale_up_if_needed report
  scale_up-kept p previous is_ need room capacity violation t r =
      elim (Bool-cases (not (is_positive need) || not (is_positive room))) [
        | inl e ↦ rw e r
        | inr e ↦ rw e (elim (Bool-cases (at_limit capacity)) [
          | inl f ↦ rw f (status-kept previous p t r)
          | inr f ↦ rw f (by_violation violation)
        ])
      ]
    where
      by_violation :
          (v : Option (QuotaViolation Q))
          → R
              ((elim v as (λ _. M S (Unit {0})) [
                | some w ↦ report srv lib requeue_interval previous p
                | none ↦ create_instance_for srv lib p is_ >>= after_create srv lib previous p
              ])
                t).1
      by_violation (some w) = status-kept previous p t r
      by_violation none =
          bind-final R (create_instance_for srv lib p is_) (after_create srv lib previous p) t
            (λ x _. after_create-kept previous p x _ (create-kept p is_ t r))
            (λ _ _. create-kept p is_ t r)

  after_delete-kept :
      (previous : PoolStatus) (p : Pool) (x : Option Error) (t : S)
      → R t
      → R (after_delete srv lib previous p x t).1
  unfolding after_delete report
  after_delete-kept previous p none t r = status-kept previous p t r
  after_delete-kept previous p (some e) t r = r

  trim-kept :
      (p : Pool) (previous : PoolStatus) (min_remaining : ℤ) (eligible : List Instance) (t : S)
      → R t
      → R
          (trim srv lib p previous
            (record { eligible = eligible; min_remaining = min_remaining })
            t).1
  unfolding trim report
  trim-kept p previous d [] t r = status-kept previous p t r
  trim-kept p previous d (first ∷ more) t r =
      let victim = newest_instance first more in
      let u = srv.delete_instance victim.meta.namespace victim.meta.name t in
      after_delete-kept previous p (unless_missing u.0) u.1
        (keep.deleted victim.meta.namespace victim.meta.name t r)

  scale_down-kept :
      (now : ℤ) (p : Pool) (previous : PoolStatus) (supply : Supply) (demand : ℤ) (t : S)
      → R t
      → R (scale_down_excess srv lib now p previous supply demand t).1
  unfolding scale_down_excess
  scale_down-kept now p previous supply demand t r =
      elim (Bool-cases (is_positive (pool_excess p.spec supply demand))) [
        | inl e ↦ rw e (
            let w = window_loop now open_window supply.available_instances in
            trim-kept p previous w.min_remaining w.eligible t r)
        | inr e ↦ rw e r
      ]

  act-kept :
      (now : ℤ) (enabled : Bool) (previous : PoolStatus) (p : Pool) (o : Observation Q)
      (violation : Option (QuotaViolation Q)) (t : S)
      → R t
      → R (act srv lib now enabled previous p o violation t).1
  unfolding act report
  act-kept now false previous p o violation t r = status-kept previous p t r
  act-kept now true previous p o violation t r =
      let finish = λ (u : Unit {0}). report srv lib {A = Outcome} (pos 0) previous p in
      let down = λ (u : Unit {0}).
        scale_down_excess srv lib now p previous o.supply o.pending_demand >>= finish in
      let up =
        scale_up_if_needed srv lib p previous o.instances o.need o.room o.capacity violation in
      let r1 = scale_up-kept p previous o.instances o.need o.room o.capacity violation t r in
      bind-final R up down t
        (λ _ _.
          let r2 = scale_down-kept now p previous o.supply o.pending_demand (up t).1 r1 in
          bind-final R (scale_down_excess srv lib now p previous o.supply o.pending_demand) finish
            (up t).1 (λ _ _. status-kept previous p _ r2) (λ _ _. r2))
        (λ _ _. r1)

  decide-kept :
      (now : ℤ) (enabled : Bool) (previous : PoolStatus) (p : Pool) (all : List Instance)
      (quotas : List (Quota Q)) (leases : List Lease) (t : S)
      → R t
      → R (decide srv lib now enabled previous p all quotas leases t).1
  unfolding decide
  decide-kept now enabled previous p all quotas leases t r =
      let o = observe lib p all quotas leases in
      elim (Option-cases (quota_check lib p all quotas o)) [
        | inl c ↦ rw (c, decide) r
        | inr (v, c) ↦
            rw (c, decide) (act-kept now enabled previous (observed_pool lib p o v) o v t r)
      ]

  bundle-kept : (enabled : Bool) (p : Pool) (t : S) → R t → R (prepare_bundle srv lib enabled p t).1
  unfolding prepare_bundle ensure_crc_bundle
  bundle-kept enabled p t r = ground (arith, keep.bundle (wanted_bundle p) t r)

  policy-state : (n : Text) (t : S) → (read_namespace_policy srv n t).1 ≡ t
  unfolding read_namespace_policy
  policy-state n t = ground arith

  supply-kept :
      (now : ℤ) (enabled : Bool) (previous : PoolStatus) (p : Pool) (t : S)
      → R t
      → R (reconcile_supply srv lib now enabled previous p t).1
  unfolding reconcile_supply
  supply-kept now enabled previous p t r =
      let act_on = λ (all : List Instance) (quotas : List (Quota Q)) (leases : List Lease).
        decide srv lib now enabled previous p all quotas leases in
      let read_leases = λ (all : List Instance) (quotas : List (Quota Q)).
        read "listing ClusterLeases" (srv.list_leases p.meta.namespace) >>= act_on all quotas in
      let read_quotas = λ (all : List Instance).
        read "listing ResourceQuotas in namespace" (srv.list_quotas p.meta.namespace)
        >>= read_leases all in
      read-final R "listing ClusterInstances in namespace" (srv.list_instances p.meta.namespace)
        read_quotas t
        (λ all _.
          read-final R "listing ResourceQuotas in namespace" (srv.list_quotas p.meta.namespace)
            (read_leases all) t
            (λ quotas _.
              read-final R "listing ClusterLeases" (srv.list_leases p.meta.namespace)
                (act_on all quotas) t
                (λ leases _. decide-kept now enabled previous p all quotas leases t r) (λ _ _. r))
            (λ _ _. r))
        (λ _ _. r)

  pool-kept : (now : ℤ) (p : Pool) (t : S) → R t → R (reconcile_pool srv lib now p t).1
  unfolding reconcile_pool
  pool-kept now p t r =
      let supply_part = λ (policy : NamespacePolicy) (u : Unit {0}).
        reconcile_supply srv lib now policy.enabled p.status (labelled_pool lib policy p) in
      let bundle_part = λ (policy : NamespacePolicy).
        prepare_bundle srv lib policy.enabled (labelled_pool lib policy p) >>= supply_part policy in
      let r1 = subst R (sym (policy-state p.meta.namespace t)) r in
      bind-final R (read_namespace_policy srv p.meta.namespace) bundle_part t
        (λ policy _.
          let r2 = bundle-kept policy.enabled (labelled_pool lib policy p) _ r1 in
          bind-final R (prepare_bundle srv lib policy.enabled (labelled_pool lib policy p))
            (supply_part policy) _
            (λ _ _. supply-kept now policy.enabled p.status (labelled_pool lib policy p) _ r2)
            (λ _ _. r2))
        (λ _ _. r1)

  -- A reconcile of a pool keeps what each of its writes keeps.
  pub reconcile-kept :
      (now : ℤ) (ns name : Text) (t : S) → R t → R (reconcile srv lib now ns name t).1
  unfolding reconcile
  reconcile-kept now ns name t r = elim (Reply-cases (srv.cached_pool ns name t)) [
    | inl (p, h) ↦
        rw (h, reconcile)
          (elim (Bool-cases (is_deleting p.meta)) [
            | inl d ↦ rw d r
            | inr d ↦ rw d (pool-kept now p t r)
          ])
    | inr (e, h) ↦ subst R (sym (stays e h)) r
  ]
    where
      stays :
          (e : ApiError)
          → srv.cached_pool ns name t ≡ refused e
          → (reconcile srv lib now ns name t).1 ≡ t
      stays e h = ground arith
