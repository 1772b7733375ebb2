-- ===== src/Pool/Safety.antt =====
-- The bounds that no reconcile of a pool oversteps, and the instances that it never touches.
use guestcluster.Api.{Instance, Lease, Pool, Quota}
use guestcluster.Base.{
  All, Bool, Bool-cases, IsInt32, List, Option, Text, [], any_if, ap, arith, count_if, count_if-le,
  count_if-true, false, inl, inr, keep_if, length, length-keep_if, ltb→lt, subst, suc, sym, text_eq,
  text_eq→eq, true, ℕ, ℤ, ◌<◌, ◌∙◌, ◌≡◌, ◌≤◌, ◌⊎◌,
}
use guestcluster.Capacity.{QuotaViolation, at_limit}
use guestcluster.Capacity.Lowest.{AllowsOneMore, at_limit-AllowsOneMore}
use guestcluster.Kube.{Labels, found}
use guestcluster.Platform.{Library, Server}
use guestcluster.Pool.Accounting.{compute_lease_accounting, is_positive, pool_room}
use guestcluster.Pool.Accounting.Counts.{
  claims_of, compute_instance_accounting-supply_of, is_claimed-claims_of, is_free, names_instance,
}
use guestcluster.Pool.Effects.{ScaledDown, ScaledUp}
use guestcluster.Pool.Passes.{Change, down, up}
use guestcluster.Pool.Reconcile.{Observation, observe, reconcile}
use guestcluster.Pool.Rule.{Passed, Pickable, reconcile_rule}
use guestcluster.Pool.Scaling.Deficit.{HasSizes, pool_room_positive}
use guestcluster.Resources.{matches_labels, pool_labels}
use guestcluster.Store.{InstanceStore, tally}

module _ {S Q : Type 0} (srv : Server S Q) (lib : Library Q) {ns : Text}
    {stored : S → List Instance} (store : InstanceStore srv ns stored) where
  -- The tally of a change: at most one more, and only where there was need, room and no limit.
  Change-tally :
      (leases : List Lease) (now : ℤ) (p : Pool) (o : Observation Q)
      (violation : Option (QuotaViolation Q)) (s s' : S) (q : Labels → Bool)
      → Change srv lib store (Pickable ns leases) now p o violation s s'
      → (tally stored q s' ≤ tally stored q s)
        ⊎ ((is_positive o.room ≡ true)
            × (at_limit o.capacity ≡ false)
            × (tally stored q s' ≤ suc (tally stored q s)))
  Change-tally leases now p o violation s s' q (up (ScaledUp.same e)) = inl (rw e (omega arith))
  Change-tally leases now p o violation s s' q (up (ScaledUp.one owned n r c v e)) =
      inr (r, c, rw e (store.create_adds_one _ s q))
  Change-tally leases now p o violation s s' q (down (ScaledDown.same e)) = inl (rw e (omega arith))
  Change-tally leases now p o violation s s' q (down (ScaledDown.one v pv st x e)) =
      inl (rw (e, pv.0) (store.delete_adds_none v.meta.name s q))

  room-lt :
      (p : Pool) (all : List Instance) (quotas : List (Quota Q)) (leases : List Lease)
      (mx mn ws : ℕ)
      → HasSizes p.spec mx mn ws
      → IsInt32 (length all)
      → is_positive (observe lib p all quotas leases).room ≡ true
      → count_if (λ i. matches_labels (pool_labels p.meta.name) i.meta.labels) all < mx
  unfolding observe
  room-lt p all quotas leases mx mn ws sizes fits r =
      let q = λ (i : Instance). matches_labels (pool_labels p.meta.name) i.meta.labels in
      let claimed = (compute_lease_accounting leases p.meta.name).claimed in
      let fits' : IsInt32 (length (keep_if q all)) =
        omega (arith, length-keep_if q all, count_if-le q all) in
      let room =
        ap (λ supply. is_positive (pool_room p.spec supply))
          (compute_instance_accounting-supply_of (keep_if q all) claimed fits')
        ∙ pool_room_positive p.spec mx mn ws (length (keep_if q all)) _ _ _ _ 0 _ sizes fits' in
      rw (← length-keep_if q all) (ltb→lt _ _ (sym room ∙ r))

  max_size-step :
      (now : ℤ) (name : Text) (s : S) (mx mn ws : ℕ)
      → IsInt32 (length (stored s))
      → (t t' : S) (p : Pool) → p.meta.name ≡ name
      → HasSizes p.spec mx mn ws
      → Passed srv lib store now p s t t'
      → (tally stored (matches_labels (pool_labels name)) t'
          ≤ tally stored (matches_labels (pool_labels name)) s)
        ⊎ (tally stored (matches_labels (pool_labels name)) t' ≤ mx)
  max_size-step now name s mx mn ws fits t t' p en sizes passed =
      let q = λ (i : Instance). matches_labels (pool_labels name) i.meta.labels in
      let same_tally = ap (count_if q) passed.kept in
      elim (Change-tally passed.leases now _ _ passed.violation t t'
        (matches_labels (pool_labels name)) passed.change) [
          | inl le ↦ inl (omega (arith, same_tally))
          | inr (r, c, le) ↦ inr (
              omega (
                arith,
                same_tally,
                rw en at (room-lt p (stored s) passed.quotas passed.leases mx mn ws sizes fits r),
              ))
        ]

  -- For a namespace whose instances fit an int32 and a pool whose sizes are natural numbers in
  -- int32, a reconcile of the pool, whatever it reads and whichever writes fail, leaves the
  -- number of the pool's instances where it was or lower, or else at most at maxSize.
  pub reconcile-max_size :
      (now : ℤ) (name : Text) (s : S) (mx mn ws : ℕ)
      → IsInt32 (length (stored s))
      → ((p : Pool) → srv.cached_pool ns name s ≡ found p → HasSizes p.spec mx mn ws)
      → let mine = matches_labels (pool_labels name) in
        let s' = (reconcile srv lib now ns name s).1 in
        (tally stored mine s' ≤ tally stored mine s) ⊎ (tally stored mine s' ≤ mx)
  reconcile-max_size now name s mx mn ws fits sizes =
      let mine = matches_labels (pool_labels name) in
      let q = λ (i : Instance). mine i.meta.labels in
      reconcile_rule srv lib store
        (λ t. (tally stored mine t ≤ tally stored mine s) ⊎ (tally stored mine t ≤ mx)) now s fits
        (λ t k. inl (rw k (omega arith))) name
        (λ p p' t t' h em es passed.
          max_size-step now name s mx mn ws fits t t' p'
            (ap (λ m. m.name) em ∙ (store.pool_key name s p h).1)
            (subst (λ sp. HasSizes sp mx mn ws) (sym es) (sizes p h)) passed)

  quota-step :
      (now : ℤ) (s : S) (quotas : List (Quota Q)) (t t' : S) (p : Pool)
      (passed : Passed srv lib store now p s t t')
      → passed.quotas ≡ quotas
      → (length (stored t') ≤ length (stored s))
        ⊎ ((length (stored t') ≤ suc (length (stored s)))
            × All (AllowsOneMore lib (length (stored s))) quotas)
  unfolding observe
  quota-step now s quotas t t' p passed e =
      let same_length = ap length passed.kept in
      elim (Change-tally passed.leases now _ _ passed.violation t t' (λ ls. true) passed.change) [
        | inl le ↦
            inl (omega (arith, same_length, count_if-true (stored t), count_if-true (stored t')))
        | inr (r, c, le) ↦ inr (
          omega (arith, same_length, count_if-true (stored t), count_if-true (stored t')),
          subst (All (AllowsOneMore lib (length (stored s)))) e
              ((at_limit-AllowsOneMore lib (length (stored s)) passed.quotas).0 c),
        )
      ]

  -- For a namespace whose instances fit an int32, with the given ResourceQuotas listed, a
  -- reconcile of a pool keeps or lowers the number of the namespace's instances, or else adds at
  -- most one where every quota that limits the count of instances allows one more.
  pub reconcile-quota :
      (now : ℤ) (name : Text) (s : S) (quotas : List (Quota Q))
      → IsInt32 (length (stored s))
      → ((qs : List (Quota Q)) → srv.list_quotas ns s ≡ found qs → qs ≡ quotas)
      → let s' = (reconcile srv lib now ns name s).1 in
        (length (stored s') ≤ length (stored s))
        ⊎ ((length (stored s') ≤ suc (length (stored s)))
            × All (AllowsOneMore lib (length (stored s))) quotas)
  reconcile-quota now name s quotas fits same_quotas =
      reconcile_rule srv lib store
        (λ t.
          (length (stored t) ≤ length (stored s))
          ⊎ ((length (stored t) ≤ suc (length (stored s)))
              × All (AllowsOneMore lib (length (stored s))) quotas))
        now s fits (λ t k. inl (rw k (omega arith))) name
        (λ p p' t t' h em es passed.
          quota-step now s quotas t t' p' passed (same_quotas _ passed.quotas_read))

  free_not_named :
      (leases : List Lease) (v : Instance)
      → is_free (claims_of [] leases) v ≡ true
      → any_if (names_instance v.meta.name) leases ≡ false
  unfolding is_free
  free_not_named leases v h = rw (← is_claimed-claims_of leases v.meta.name) (ground arith)

  claimed-step :
      (leases : List Lease) (now : ℤ) (p : Pool) (o : Observation Q)
      (violation : Option (QuotaViolation Q)) (s s' : S) (q : Instance → Bool)
      → ((i : Instance) → q i ≡ true → any_if (names_instance i.meta.name) leases ≡ true)
      → Change srv lib store (Pickable ns leases) now p o violation s s'
      → count_if q (stored s) ≤ count_if q (stored s')
  claimed-step leases now p o violation s s' q claimed (up (ScaledUp.same e)) = rw e (omega arith)
  claimed-step leases now p o violation s s' q claimed (up (ScaledUp.one owned n r c v e)) =
      rw e (store.create_keeps _ s q)
  claimed-step leases now p o violation s s' q claimed (down (ScaledDown.same e)) =
      rw e (omega arith)
  claimed-step leases now p o violation s s' q claimed (down (ScaledDown.one v pv st x e)) =
      rw (e, pv.0) (omega (arith, store.delete_keeps_others v.meta.name s q others))
    where
      others : (i : Instance) → q i ≡ true → text_eq i.meta.name v.meta.name ≡ false
      others i qi = elim (Bool-cases (text_eq i.meta.name v.meta.name)) [
        | inr no_ ↦ no_
        | inl same_name ↦ cc (
          free_not_named leases v pv.1,
          claimed i qi,
          text_eq→eq i.meta.name v.meta.name same_name,
        )
      ]

  -- For a namespace whose instances fit an int32, with the given leases listed, a reconcile of a
  -- pool deletes no instance that some lease names: a Boolean test that only instances named by a
  -- lease pass holds of at least as many instances after the reconcile as before.
  pub reconcile-spares_claimed :
      (now : ℤ) (name : Text) (s : S) (leases : List Lease) (q : Instance → Bool)
      → IsInt32 (length (stored s))
      → ((ls : List Lease) → srv.list_leases ns s ≡ found ls → ls ≡ leases)
      → ((i : Instance) → q i ≡ true → any_if (names_instance i.meta.name) leases ≡ true)
      → count_if q (stored s) ≤ count_if q (stored (reconcile srv lib now ns name s).1)
  reconcile-spares_claimed now name s leases q fits same_leases claimed =
      reconcile_rule srv lib store (λ t. count_if q (stored s) ≤ count_if q (stored t)) now s fits
        (λ t k. rw k (omega arith)) name
        (λ p p' t t' h em es passed.
          subst (λ xs. count_if q xs ≤ count_if q (stored t')) passed.kept
            (claimed-step passed.leases now _ _ passed.violation t t' q
              (λ i qi.
                subst (λ ls. any_if (names_instance i.meta.name) ls ≡ true)
                  (sym (same_leases _ passed.leases_read)) (claimed i qi))
              passed.change))
