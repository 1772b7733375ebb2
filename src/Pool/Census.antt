-- ===== src/Pool/Census.antt =====
-- The census of a pool that a reconcile takes, and how a create of the pool moves it.
use guestcluster.Api.{Instance, Lease, Pool, Quota}
use guestcluster.Base.{
  Bool, IsInt32, List, SameItems, Text, [], arith, count_if, count_if-keep_if, count_if-le, false,
  length, length-keep_if, refl, suc, text_eq, text_eq_refl, true, ◌&&◌, ◌+◌, ◌∷◌, ◌≡◌, ◌≤◌,
}
use guestcluster.Kube.{Meta, label_value}
use guestcluster.Platform.{Library}
use guestcluster.Pool.Accounting.{is_positive, pool_need, pool_room}
use guestcluster.Pool.Accounting.Counts.{
  claims_of, compute_instance_accounting-supply_of, compute_lease_accounting-counts, is_coming,
  is_free, is_waiting,
}
use guestcluster.Pool.Convergence.{Census, Fits, has_excess, has_room, needs, with_new}
use guestcluster.Pool.Reconcile.{observe, pool_instances}
use guestcluster.Pool.Scaling.{pool_excess, with_owner}
use guestcluster.Resources.{matches_labels, pool_labels}
use guestcluster.Store.{IsFresh}

abbrev pub is_mine : Text → Instance → Bool
is_mine pool_name i = matches_labels (pool_labels pool_name) i.meta.labels

unfoldable pub census : Text → List Lease → List Instance → Census
census pool_name leases all = record {
  total = count_if (is_mine pool_name) all;
  available = count_if (λ i. is_mine pool_name i && is_free (claims_of [] leases) i) all;
  pending = count_if (λ i. is_mine pool_name i && is_coming i) all;
  waiting = count_if (is_waiting pool_name) leases;
}

module _ {Q : Type 0} (lib : Library Q) (p : Pool) (all : List Instance) (leases : List Lease) where
  -- If the instances and the leases of the namespace fit an int32, a reconcile that reads them
  -- sees a need, room and an excess exactly where the census of the pool says so: the counts of
  -- its instances, of the free ones, of those that come or go, and of its waiting leases.
  pub observe-census :
      (quotas : List (Quota Q))
      → IsInt32 (length all)
      → IsInt32 (length leases)
      → let o = observe lib p all quotas leases in
        let c = census p.meta.name leases all in
        (is_positive o.need ≡ needs p.spec c)
        × (is_positive o.room ≡ has_room p.spec c)
        × (is_positive (pool_excess p.spec o.supply o.pending_demand) ≡ has_excess p.spec c)
  unfolding observe census pool_need pool_room pool_excess
  observe-census quotas fits leases_fit =
      let mine = pool_instances p.meta.name all in
      let claimed = claims_of [] leases in
      let q = is_mine p.meta.name in
      let fits' : IsInt32 (length mine) = omega (arith, length-keep_if q all, count_if-le q all) in
      rw (compute_lease_accounting-counts leases p.meta.name leases_fit) (
        rw (compute_instance_accounting-supply_of mine claimed fits') (
          rw
            (
              length-keep_if q all,
              count_if-keep_if (is_free claimed) q all,
              count_if-keep_if is_coming q all,
            )
            (refl, refl, refl)))

-- Free and coming instances are different ones.
free_and_coming :
    (q : Instance → Bool) (claimed : List Text) (all : List Instance)
    → count_if (λ i. q i && is_free claimed i) all + count_if (λ i. q i && is_coming i) all
      ≤ count_if q all
unfolding count_if is_free is_coming
free_and_coming q claimed [] = omega arith
free_and_coming q claimed (i ∷ is_) = ground (arith, free_and_coming q claimed is_)

-- The census of lists that fit an int32 fits one.
pub census-Fits :
    (pool_name : Text) (leases : List Lease) (all : List Instance)
    → IsInt32 (length all)
    → IsInt32 (length leases)
    → Fits (census pool_name leases all)
unfolding census
census-Fits pool_name leases all fits leases_fit = record {
  parts = free_and_coming (is_mine pool_name) (claims_of [] leases) all;
  total_fits = omega (arith, count_if-le (is_mine pool_name) all);
  waiting_fits = omega (arith, count_if-le (is_waiting pool_name) leases);
}

pool_labels_match : (n : Text) → matches_labels (pool_labels n) (pool_labels n) ≡ true
unfolding matches_labels pool_labels label_value text_eq
pool_labels_match n = rw (text_eq_refl n) refl

count_if-new :
    (q : Instance → Bool) (j : Instance) (xs : List Instance)
    → q j ≡ true
    → count_if q (j ∷ xs) ≡ suc (count_if q xs)
unfolding count_if
count_if-new q j xs h = rw h refl

count_if-other :
    (q : Instance → Bool) (j : Instance) (xs : List Instance)
    → q j ≡ false
    → count_if q (j ∷ xs) ≡ count_if q xs
unfolding count_if
count_if-other q j xs h = rw h refl

-- An instance that the server stores fresh for a create of the pool, with the pool's labels, adds
-- one to the pool's instances and to those that are coming, and changes neither the free ones nor
-- the waiting leases.
pub created-census :
    (pool : Pool) (is_ all all' : List Instance) (leases : List Lease) (owned : Meta) (j : Instance)
    → owned.labels ≡ pool_labels pool.meta.name
    → IsFresh (with_owner pool is_ owned) j
    → SameItems all' (j ∷ all)
    → census pool.meta.name leases all' ≡ with_new (census pool.meta.name leases all)
unfolding census is_free is_coming
created-census pool is_ all all' leases owned j labels fresh items =
    let n = pool.meta.name in
    let mine : is_mine n j ≡ true = rw (fresh.same_labels, labels) (pool_labels_match n) in
    let free : (is_mine n j && is_free (claims_of [] leases) j) ≡ false =
      rw (mine, fresh.no_deletion, fresh.unset_phase) refl in
    let coming : (is_mine n j && is_coming j) ≡ true =
      rw (mine, fresh.no_deletion, fresh.unset_phase) refl in
    rw
      (
        items (is_mine n),
        items (λ i. is_mine n i && is_free (claims_of [] leases) i),
        items (λ i. is_mine n i && is_coming i),
        count_if-new (is_mine n) j all mine,
        count_if-other (λ i. is_mine n i && is_free (claims_of [] leases) i) j all free,
        count_if-new (λ i. is_mine n i && is_coming i) j all coming,
      )
      refl
