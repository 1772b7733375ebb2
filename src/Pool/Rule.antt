-- ===== src/Pool/Rule.antt =====
-- The rule for a whole reconcile: whatever holds of the state before, is kept by writes that leave
-- the instances alone, and by one change, holds of the state after.
use guestcluster.Api.{Instance, Lease, Pool, PoolStatus, Quota}
use guestcluster.Base.{
  All, All-and, All-keep_if, Bool, Bool-cases, IsInt32, List, Option, Option-cases, Text, [], ap,
  arith, count_if-le, inl, inr, keep_if-All, length, length-keep_if, refl, some, subst, sym, true,
  ℤ, ◌∙◌, ◌≡◌,
}
use guestcluster.Capacity.{QuotaViolation}
use guestcluster.Kube.{
  ApiError, Reply-cases, bind-final, found, is_deleting, read, read-final, refused, ◌>>=◌,
}
use guestcluster.Platform.{Library, Server}
use guestcluster.Policy.{NamespacePolicy, read_namespace_policy}
use guestcluster.Pool.Accounting.Counts.{
  claims_of, compute_instance_accounting-supply_of, compute_lease_accounting-claimed, is_free,
}
use guestcluster.Pool.Passes.{Change, act-Change}
use guestcluster.Pool.Reconcile.{
  decide, ensure_crc_bundle, labelled_pool, observe, observed_pool, pool_instances, prepare_bundle,
  quota_check, reconcile, reconcile_pool, reconcile_supply, wanted_bundle,
}
use guestcluster.Resources.{matches_labels, pool_labels}
use guestcluster.Store.{InstanceStore}

-- What is known of an instance that a scale-down may pick: it is an instance of the namespace,
-- it is Ready and not being deleted, and no lease names it.
abbrev pub Pickable : Text → List Lease → Instance → Type 0
Pickable ns leases i = (i.meta.namespace ≡ ns) × (is_free (claims_of [] leases) i ≡ true)

module _ {S Q : Type 0} (srv : Server S Q) (lib : Library Q) {ns : Text}
    {stored : S → List Instance} (store : InstanceStore srv ns stored) where
  -- The change that follows an observation of the pool `p` in the state `t`.
  pub record Passed (now : ℤ) (p : Pool) (s t t' : S) : Type 0 where
    pub quotas : List (Quota Q)
    pub leases : List Lease
    pub violation : Option (QuotaViolation Q)
    pub kept : stored t ≡ stored s
    pub quotas_read : srv.list_quotas ns s ≡ found quotas
    pub leases_read : srv.list_leases ns s ≡ found leases
    pub checked :
        quota_check lib p (stored s) quotas (observe lib p (stored s) quotas leases)
        ≡ some violation
    pub change :
        Change srv lib store
          (Pickable ns leases)
          now
          (observed_pool lib p (observe lib p (stored s) quotas leases) violation)
          (observe lib p (stored s) quotas leases)
          violation
          t
          t'

  observe-Pickable :
      (p : Pool) (s : S) (quotas : List (Quota Q)) (leases : List Lease)
      → IsInt32 (length (stored s))
      → All (Pickable ns leases) (observe lib p (stored s) quotas leases).supply.available_instances
  unfolding observe
  observe-Pickable p s quotas leases h =
      let mine = pool_instances p.meta.name (stored s) in
      let q = λ (i : Instance). matches_labels (pool_labels p.meta.name) i.meta.labels in
      rw (compute_lease_accounting-claimed leases p.meta.name) (
        rw
          (compute_instance_accounting-supply_of mine (claims_of [] leases)
            (omega (arith, length-keep_if q (stored s), count_if-le q (stored s))))
          (All-and (λ i. i.meta.namespace ≡ ns) (λ i. is_free (claims_of [] leases) i ≡ true) _
            (All-keep_if (λ i. i.meta.namespace ≡ ns) (is_free (claims_of [] leases)) mine
              (All-keep_if (λ i. i.meta.namespace ≡ ns) q (stored s) (store.homed s)))
            (keep_if-All (is_free (claims_of [] leases)) mine)))

  module _ (R : S → Type 0) (now : ℤ) (s : S) (fits : IsInt32 (length (stored s)))
      (keep : (t : S) → stored t ≡ stored s → R t) where
    -- What the lists that a reconcile reads have to be in a state before its change.
    abbrev SameLists : S → Type 0
    SameLists t =
        (stored t ≡ stored s)
        × (srv.list_quotas ns t ≡ srv.list_quotas ns s)
        × (srv.list_leases ns t ≡ srv.list_leases ns s)

    checked_rule :
        (enabled : Bool) (previous : PoolStatus) (p : Pool) (t : S) (quotas : List (Quota Q))
        (leases : List Lease)
        → stored t ≡ stored s
        → srv.list_quotas ns s ≡ found quotas
        → srv.list_leases ns s ≡ found leases
        → ((t' : S) → Passed now p s t t' → R t')
        → R (decide srv lib now enabled previous p (stored s) quotas leases t).1
    unfolding decide
    checked_rule enabled previous p t quotas leases k q l step =
        let o = observe lib p (stored s) quotas leases in
        elim (Option-cases (quota_check lib p (stored s) quotas o)) [
          | inl c ↦ rw (c, decide) (keep t k)
          | inr (v, c) ↦
              rw (c, decide)
                (step _ (record {
                  quotas = quotas;
                  leases = leases;
                  violation = v;
                  kept = k;
                  quotas_read = q;
                  leases_read = l;
                  checked = c;
                  change =
                      act-Change srv lib store (Pickable ns leases) now previous
                        (observed_pool lib p o v) o v t (observe-Pickable p s quotas leases fits)
                        enabled;
                }))
        ]

    supply_rule :
        (enabled : Bool) (previous : PoolStatus) (p : Pool) (t : S)
        → p.meta.namespace ≡ ns
        → SameLists t
        → ((t' : S) → Passed now p s t t' → R t')
        → R (reconcile_supply srv lib now enabled previous p t).1
    unfolding reconcile_supply
    supply_rule enabled previous p t e k step =
        let act_on = λ (all : List Instance) (quotas : List (Quota Q)) (leases : List Lease).
          decide srv lib now enabled previous p all quotas leases in
        let read_leases = λ (all : List Instance) (quotas : List (Quota Q)).
          read "listing ClusterLeases" (srv.list_leases p.meta.namespace) >>= act_on all quotas in
        let read_quotas = λ (all : List Instance).
          read "listing ResourceQuotas in namespace" (srv.list_quotas p.meta.namespace)
          >>= read_leases all in
        read-final R "listing ClusterInstances in namespace" (srv.list_instances p.meta.namespace)
          read_quotas t
          (λ all found_all.
            read-final R "listing ResourceQuotas in namespace" (srv.list_quotas p.meta.namespace)
              (read_leases all) t
              (λ quotas found_quotas.
                read-final R "listing ClusterLeases" (srv.list_leases p.meta.namespace)
                  (act_on all quotas) t
                  (λ leases found_leases.
                    subst (λ xs. R (act_on xs quotas leases t).1)
                      (sym (store.listed t all (rw e at found_all) ∙ k.0))
                      (checked_rule enabled previous p t quotas leases k.0
                        (sym k.1 ∙ rw e at found_quotas) (sym k.2 ∙ rw e at found_leases) step))
                  (λ _ _. keep t k.0))
              (λ _ _. keep t k.0))
          (λ _ _. keep t k.0)

    bundle-SameLists :
        (enabled : Bool) (p : Pool) (t : S)
        → SameLists t
        → SameLists (prepare_bundle srv lib enabled p t).1
    unfolding prepare_bundle ensure_crc_bundle
    bundle-SameLists enabled p t k =
        let bundle = wanted_bundle p in
        (
          ground (arith, store.bundle_keeps bundle t, k.0),
          ground (arith, store.bundle_keeps_quotas bundle t, k.1),
          ground (arith, store.bundle_keeps_leases bundle t, k.2),
        )

    policy-state : (n : Text) (t : S) → (read_namespace_policy srv n t).1 ≡ t
    unfolding read_namespace_policy
    policy-state n t = ground arith

    pool_rule :
        (p : Pool) (t : S)
        → p.meta.namespace ≡ ns
        → SameLists t
        → ((p' : Pool) (u t' : S)
            → p'.meta ≡ p.meta
            → p'.spec ≡ p.spec
            → Passed now p' s u t'
            → R t')
        → R (reconcile_pool srv lib now p t).1
    unfolding reconcile_pool
    pool_rule p t e k step =
        let supply_part = λ (policy : NamespacePolicy) (u : Unit {0}).
          reconcile_supply srv lib now policy.enabled p.status (labelled_pool lib policy p) in
        let bundle_part = λ (policy : NamespacePolicy).
          prepare_bundle srv lib policy.enabled (labelled_pool lib policy p)
          >>= supply_part policy in
        let k1 = subst SameLists (sym (policy-state p.meta.namespace t)) k in
        bind-final R (read_namespace_policy srv p.meta.namespace) bundle_part t
          (λ policy _.
            let t1 = (read_namespace_policy srv p.meta.namespace t).1 in
            let k2 = bundle-SameLists policy.enabled (labelled_pool lib policy p) t1 k1 in
            bind-final R (prepare_bundle srv lib policy.enabled (labelled_pool lib policy p))
              (supply_part policy) t1
              (λ _ _.
                supply_rule policy.enabled p.status (labelled_pool lib policy p) _ e k2
                  (λ t'. step (labelled_pool lib policy p) _ t' refl refl))
              (λ _ _. keep _ k2.0))
          (λ _ _. keep _ k1.0)

    refused_state :
        (name : Text) (e : ApiError)
        → srv.cached_pool ns name s ≡ refused e
        → (reconcile srv lib now ns name s).1 ≡ s
    unfolding reconcile
    refused_state name e h = ground arith

    pub reconcile_rule :
        (name : Text)
        → ((p p' : Pool) (u t' : S)
            → srv.cached_pool ns name s ≡ found p
            → p'.meta ≡ p.meta
            → p'.spec ≡ p.spec
            → Passed now p' s u t'
            → R t')
        → R (reconcile srv lib now ns name s).1
    unfolding reconcile
    reconcile_rule name step = elim (Reply-cases (srv.cached_pool ns name s)) [
      | inr (e, h) ↦ keep _ (ap stored (refused_state name e h))
      | inl (p, h) ↦ elim (Bool-cases (is_deleting p.meta)) [
        | inl d ↦ rw (h, reconcile) (rw d (keep s refl))
        | inr d ↦
            rw (h, reconcile)
              (rw d (
                pool_rule p s (store.pool_key name s p h).0 (refl, refl, refl)
                  (λ p' u t'. step p p' u t' h)))
      ]
    ]
