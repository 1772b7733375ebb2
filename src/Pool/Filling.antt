-- ===== src/Pool/Filling.antt =====
-- Reconciles of a pool that nothing blocks, one after another, from the reads of its namespace on
-- (reconcile_supply): what they create.
use guestcluster.Api.{Instance, Lease, Pool, PoolStatus, Quota}
use guestcluster.Base.{
  Bool-cases, IsInt32, List, String, Text, [], ap, arith, false, inl, inr, length, none, refl, some,
  true, ℕ, ℤ, ◌&&◌, ◌+◌, ◌∙◌, ◌∷◌, ◌≡◌,
}
use guestcluster.Capacity.{at_limit}
use guestcluster.Kube.{M, Meta, Reply, found, read, ◌>>=◌}
use guestcluster.Platform.{Library, Server}
use guestcluster.Pool.Acts.{act-creates, act-stays}
use guestcluster.Pool.Census.{census, census-Fits, created-census, observe-census}
use guestcluster.Pool.Convergence.{
  Census, has_excess, has_room, missing, needs, top_up, top_up-stays, top_up_exact, with_new,
  with_new-no_excess,
}
use guestcluster.Pool.Reconcile.{
  act, decide, observe, observed_pool, pool_instances, quota_check, reconcile_supply,
}
use guestcluster.Pool.Scaling.{new_instance, with_owner}
use guestcluster.Pool.Scaling.Deficit.{HasSizes}
use guestcluster.Store.{InstanceStore}
use Prim.Native.Nat.{min}

-- Setting the owner of an object keeps its labels and its namespace.
pub record OwnerKeeps {Q : Type 0} (lib : Library Q) : Type 0 where
  pub labels :
      (owner m owned : Meta)
      → lib.set_controller_reference owner m ≡ some owned
      → owned.labels ≡ m.labels
  pub namespace :
      (owner m owned : Meta)
      → lib.set_controller_reference owner m ≡ some owned
      → owned.namespace ≡ m.namespace

-- What differs from one reconcile of a pool to the next: the time, the status that was read, and
-- the one that it is compared with.
pub record Turn : Type 0 where
  pub now : ℤ
  pub previous : PoolStatus
  pub status : PoolStatus

read-goes_on :
    {S A B : Type 0} (context : String) (get : S → Reply A) (f : A → M S B) (s : S) {a : A}
    → get s ≡ found a
    → (read context get >>= f) s ≡ f a s
read-goes_on {S} {A} context get f s e =
    ap (λ (r : Reply A). ◌>>=◌ {S = S} (read context (λ _. r)) f s) e

module _ {S Q : Type 0} (srv : Server S Q) (lib : Library Q) {ns : Text}
    {stored : S → List Instance} (store : InstanceStore srv ns stored) where
  -- What a reconcile of the pool reads in the state `s`, and that nothing blocks its create: the
  -- lists are read and fit an int32, no limit is reached and no quota violated, the owner can be
  -- set, and the server accepts the instance.
  pub record IsOpen (pool : Pool) (leases : List Lease) (s : S) : Type 0 where
    pub quotas : List (Quota Q)
    pub owned : Meta
    pub instances_read : srv.list_instances pool.meta.namespace s ≡ found (stored s)
    pub quotas_read : srv.list_quotas pool.meta.namespace s ≡ found quotas
    pub leases_read : srv.list_leases pool.meta.namespace s ≡ found leases
    pub fits : IsInt32 (length (stored s))
    pub leases_fit : IsInt32 (length leases)
    pub below : at_limit (observe lib pool (stored s) quotas leases).capacity ≡ false
    pub checked :
        quota_check lib pool (stored s) quotas (observe lib pool (stored s) quotas leases)
        ≡ some none
    pub owner_set :
        lib.set_controller_reference pool.meta
          (new_instance pool (pool_instances pool.meta.name (stored s))).meta
        ≡ some owned
    pub accepted :
        (srv.create_instance (with_owner pool (pool_instances pool.meta.name (stored s)) owned) s).0
        ≡ none

  module _ (owner : OwnerKeeps lib) (pool : Pool) (leases : List Lease)
      (at_home : pool.meta.namespace ≡ ns) where
    abbrev counted : S → Census
    counted s = census pool.meta.name leases (stored s)

    -- One reconcile of the pool, from the reads on.
    unfoldable pub pass : Turn → S → S
    unfolding reconcile_supply
    pass turn s =
        (reconcile_supply srv lib turn.now true turn.previous (record pool { status = turn.status })
          s).1

    pass-decide :
        (turn : Turn) (s : S) (opened : IsOpen pool leases s)
        → pass turn s
          ≡ (decide srv lib turn.now true turn.previous
              (record pool { status = turn.status })
              (stored s)
              opened.quotas
              leases
              s).1
    unfolding pass reconcile_supply
    pass-decide turn s opened =
        let ns' = pool.meta.namespace in
        let on = λ (all : List Instance) (quotas : List (Quota Q)) (ls : List Lease).
          decide srv lib turn.now true turn.previous (record pool { status = turn.status }) all
            quotas ls in
        let read_leases = λ (all : List Instance) (quotas : List (Quota Q)).
          read "listing ClusterLeases" (srv.list_leases ns') >>= on all quotas in
        let read_quotas = λ (all : List Instance).
          read "listing ResourceQuotas in namespace" (srv.list_quotas ns') >>= read_leases all in
        ap (λ r. r.1)
          (read-goes_on "listing ClusterInstances in namespace" (srv.list_instances ns') read_quotas
              s opened.instances_read
            ∙ read-goes_on "listing ResourceQuotas in namespace" (srv.list_quotas ns')
                (read_leases (stored s)) s opened.quotas_read
            ∙ read-goes_on "listing ClusterLeases" (srv.list_leases ns')
                (on (stored s) opened.quotas) s opened.leases_read)

    decide-acts :
        (turn : Turn) (p : Pool) (s : S) (quotas : List (Quota Q))
        → quota_check lib p (stored s) quotas (observe lib p (stored s) quotas leases) ≡ some none
        → decide srv lib turn.now true turn.previous p (stored s) quotas leases s ≡ (
            let o = observe lib p (stored s) quotas leases in
            act srv lib turn.now true turn.previous (observed_pool lib p o none) o none s)
    unfolding decide
    decide-acts turn p s quotas c = rw (c, decide) refl

    pass-act :
        (turn : Turn) (s : S) (opened : IsOpen pool leases s)
        → let o = observe lib pool (stored s) opened.quotas leases in
          pass turn s
          ≡ (act srv lib turn.now true turn.previous
              (observed_pool lib (record pool { status = turn.status }) o none)
              o
              none
              s).1
    unfolding observe quota_check
    pass-act turn s opened =
        pass-decide turn s opened
        ∙ ap (λ r. r.1)
            (decide-acts turn (record pool { status = turn.status }) s opened.quotas opened.checked)

    -- If the census of a pool shows a need and room, a reconcile from the reads on, with
    -- provisioning allowed and not blocked (the lists are read and fit an int32, no limit is
    -- reached, no quota violated, the owner set with its labels and namespace kept, the instance
    -- accepted), adds exactly one to the pool's instances and to those that are coming, and
    -- changes neither the free ones nor the waiting leases: what it creates counts for the pool.
    pub pass-census :
        (turn : Turn) (s : S) (opened : IsOpen pool leases s)
        → needs pool.spec (counted s) ≡ true
        → has_room pool.spec (counted s) ≡ true
        → counted (pass turn s) ≡ with_new (counted s)
    unfolding observe observed_pool new_instance
    pass-census turn s opened n r =
        let all = stored s in
        let o = observe lib pool all opened.quotas leases in
        let is_ = pool_instances pool.meta.name all in
        let seen = observe-census lib pool all leases opened.quotas opened.fits opened.leases_fit in
        let p = observed_pool lib (record pool { status = turn.status }) o none in
        let m = (new_instance pool is_).meta in
        let kept = owner.namespace pool.meta m opened.owned opened.owner_set in
        let fresh =
          store.created (with_owner pool is_ opened.owned) s opened.accepted (kept ∙ at_home) in
        ap (λ t. counted t) (pass-act turn s opened)
        ∙ ap (λ xs. census pool.meta.name leases xs)
            (act-creates srv lib store turn.now turn.previous p o s opened.owned (seen.0 ∙ n)
              (seen.1 ∙ r) opened.below opened.owner_set opened.accepted)
        ∙ created-census pool is_ all _ leases opened.owned fresh.0
            (owner.labels pool.meta m opened.owned opened.owner_set) fresh.1 fresh.2

    -- A pass with nothing to create and no excess leaves the census.
    stays-census :
        (turn : Turn) (s : S) (opened : IsOpen pool leases s)
        → (needs pool.spec (counted s) && has_room pool.spec (counted s)) ≡ false
        → has_excess pool.spec (counted s) ≡ false
        → counted (pass turn s) ≡ counted s
    unfolding observe observed_pool
    stays-census turn s opened n x =
        let all = stored s in
        let o = observe lib pool all opened.quotas leases in
        let seen = observe-census lib pool all leases opened.quotas opened.fits opened.leases_fit in
        let p = observed_pool lib (record pool { status = turn.status }) o none in
        ap (λ t. counted t) (pass-act turn s opened)
        ∙ ap (λ xs. census pool.meta.name leases xs)
            (act-stays srv lib store turn.now turn.previous p o s (rw (seen.0, seen.1) n)
              (seen.2 ∙ x))

    -- Reconciles of the pool, one after another.
    unfoldable pub passes : List Turn → S → S
    unfolding pass
    passes [] s = s
    passes (turn ∷ turns) s = passes turns (pass turn s)

    -- Nothing blocks any of the reconciles.
    abbrev pub AllOpen : List Turn → S → Type 0
    AllOpen [] s = Unit
    AllOpen (turn ∷ turns) s = IsOpen pool leases s × AllOpen turns (pass turn s)

    module _ (mx mn ws : ℕ) (sizes : HasSizes pool.spec mx mn ws) where
      passes-top_up :
          (turns : List Turn) (s : S)
          → AllOpen turns s
          → has_excess pool.spec (counted s) ≡ false
          → counted (passes turns s) ≡ top_up pool.spec mx mn ws sizes (length turns) (counted s)
      unfolding passes top_up
      passes-top_up [] s opened x = refl
      passes-top_up (turn ∷ turns) s opened x =
          let c = counted s in
          let fits =
            census-Fits pool.meta.name leases (stored s) opened.0.fits opened.0.leases_fit in
          elim (Bool-cases (needs pool.spec c && has_room pool.spec c)) [
            | inl e ↦
                let n : needs pool.spec c ≡ true = ground arith in
                let r : has_room pool.spec c ≡ true = ground arith in
                let step = pass-census turn s opened.0 n r in
                let x' =
                  ap (λ d. has_excess pool.spec d) step
                  ∙ with_new-no_excess pool.spec mx mn ws sizes c fits n r in
                rw (e, top_up)
                  (passes-top_up turns (pass turn s) opened.1 x'
                    ∙ ap (λ d. top_up pool.spec mx mn ws sizes (length turns) d) step)
            | inr e ↦
                let step = stays-census turn s opened.0 e x in
                let x' = ap (λ d. has_excess pool.spec d) step ∙ x in
                rw (e, top_up)
                  (passes-top_up turns (pass turn s) opened.1 x'
                    ∙ ap (λ d. top_up pool.spec mx mn ws sizes (length turns) d) step
                    ∙ top_up-stays pool.spec mx mn ws sizes (length turns) c e)
          ]

      -- For a pool with sizes in int32 and no excess, in a namespace whose lists fit an int32,
      -- reconciles one after another from the reads on, with provisioning allowed, the same
      -- leases read by all, nothing between them and none of them blocked (the lists are read and
      -- fit, no limit is reached, no quota violated, the owner set with its labels and namespace
      -- kept, the instance accepted), create exactly the smaller of their number and what is
      -- missing: what minSize, warmSpares and the waiting leases need more, capped by the room
      -- below maxSize. The free instances and the waiting leases stay as they were.
      pub passes-census :
          (turns : List Turn) (s : S)
          → AllOpen turns s
          → has_excess pool.spec (counted s) ≡ false
          → IsInt32 (length (stored s))
          → IsInt32 (length leases)
          → let c = counted s in
            let c' = counted (passes turns s) in
            let created = min (length turns) (missing pool.spec mx mn ws sizes c) in
            (c'.total ≡ c.total + created)
            × (c'.pending ≡ c.pending + created)
            × (c'.available ≡ c.available)
            × (c'.waiting ≡ c.waiting)
      passes-census turns s opened x fits leases_fit = rw (passes-top_up turns s opened x) (
          top_up_exact pool.spec mx mn ws sizes (length turns) (counted s)
            (census-Fits pool.meta.name leases (stored s) fits leases_fit))
