-- ===== src/Pool/Trimming.antt =====
-- A reconcile of a pool that has an excess leaves no need.
use guestcluster.Api.{Instance, Lease, Pool, PoolSpec}
use guestcluster.Base.{
  Bool, IsInt32, List, Text, [], ap, arith, count_if, count_if-true, false, length, not, refl,
  subst, suc, sym, text_eq, true, ℕ, ℤ, ◌&&◌, ◌+◌, ◌||◌, ◌∙◌, ◌∷◌, ◌≡◌, ◌≤◌,
}
use guestcluster.Kube.{found}
use guestcluster.Platform.{Library, Server}
use guestcluster.Pool.Accounting.{is_positive}
use guestcluster.Pool.Accounting.Counts.{claims_of, is_coming, is_free}
use guestcluster.Pool.Census.{census, census-Fits, is_mine, observe-census}
use guestcluster.Pool.Convergence.{excess-no_need, has_excess, needs, trimmed-no_need}
use guestcluster.Pool.Effects.{ScaledDown, ScaledUp}
use guestcluster.Pool.Passes.{Change, down, up}
use guestcluster.Pool.Reconcile.{Observation, observe, observed_pool, reconcile}
use guestcluster.Pool.Rule.{Passed, Pickable, reconcile_rule}
use guestcluster.Pool.Scaling.Deficit.{HasSizes}
use guestcluster.Store.{InstanceStore}

-- At most one instance of the list has the name.
abbrev pub AreDistinct : List Instance → Type 0
AreDistinct xs = (n : Text) → count_if (λ i. text_eq i.meta.name n) xs ≤ 1

abbrev not_called : Text → (Instance → Bool) → Instance → Bool
not_called n q i = not (text_eq i.meta.name n) && q i

-- A test holds of at most one instance more than those with another name.
count_if-not_called :
    (n : Text) (q : Instance → Bool) (xs : List Instance)
    → count_if q xs ≤ count_if (not_called n q) xs + count_if (λ i. text_eq i.meta.name n) xs
unfolding count_if
count_if-not_called n q [] = omega arith
count_if-not_called n q (i ∷ is_) = ground (arith, count_if-not_called n q is_)

count_if-le_of :
    (n : Text) (q : Instance → Bool) (xs : List Instance)
    → count_if (not_called n q) xs ≤ count_if q xs
unfolding count_if
count_if-le_of n q [] = omega arith
count_if-le_of n q (i ∷ is_) = ground (arith, count_if-le_of n q is_)

-- The free and the coming instances of a pool, together.
abbrev counts_for : Text → List Text → Instance → Bool
counts_for pool_name claimed i = is_mine pool_name i && (is_free claimed i || is_coming i)

count_if-counts_for :
    (pool_name : Text) (claimed : List Text) (xs : List Instance)
    → count_if (counts_for pool_name claimed) xs
      ≡ count_if (λ i. is_mine pool_name i && is_free claimed i) xs
        + count_if (λ i. is_mine pool_name i && is_coming i) xs
unfolding count_if is_free is_coming
count_if-counts_for pool_name claimed [] = refl
count_if-counts_for pool_name claimed (i ∷ is_) =
    ground (arith, count_if-counts_for pool_name claimed is_)

module _ {S Q : Type 0} (srv : Server S Q) (lib : Library Q) {ns : Text}
    {stored : S → List Instance} (store : InstanceStore srv ns stored) where
  -- A delete takes at most one instance from what a test counts.
  delete-takes_one :
      (n : Text) (s : S) (q : Instance → Bool)
      → AreDistinct (stored s)
      → count_if q (stored s) ≤ suc (count_if q (stored (srv.delete_instance ns n s).1))
  delete-takes_one n s q distinct =
      let t = (srv.delete_instance ns n s).1 in
      let others = store.delete_keeps_others n s (not_called n q) (λ i h. ground arith) in
      omega (
        arith,
        count_if-not_called n q (stored s),
        distinct n,
        others,
        count_if-le_of n q (stored t),
      )

  module _ (name : Text) (leases : List Lease) (spec : PoolSpec) (mx mn ws : ℕ)
      (sizes : HasSizes spec mx mn ws) (s : S) (fits : IsInt32 (length (stored s)))
      (leases_fit : IsInt32 (length leases)) (distinct : AreDistinct (stored s))
      (excess : has_excess spec (census name leases (stored s)) ≡ true) where
    NoNeed : S → Type 0
    NoNeed t = needs spec (census name leases (stored t)) ≡ false

    kept-NoNeed : (t : S) → stored t ≡ stored s → NoNeed t
    unfolding NoNeed
    kept-NoNeed t k = rw k (
        excess-no_need spec mx mn ws sizes (census name leases (stored s))
          (census-Fits name leases (stored s) fits leases_fit) excess)

    delete-NoNeed : (n : Text) (t : S) → stored t ≡ stored s → NoNeed (srv.delete_instance ns n t).1
    unfolding NoNeed census
    delete-NoNeed n t k =
        let u = (srv.delete_instance ns n t).1 in
        let claimed = claims_of [] leases in
        let distinct' : AreDistinct (stored t) = rw k distinct in
        let shorter = store.delete_adds_none n t (λ ls. true) in
        let fits' : IsInt32 (length (stored u)) =
          omega (arith, ap length k, shorter, count_if-true (stored t), count_if-true (stored u)) in
        trimmed-no_need spec mx mn ws sizes (census name leases (stored t))
          (census name leases (stored u))
          (census-Fits name leases (stored t) (rw k fits) leases_fit)
          (census-Fits name leases (stored u) fits' leases_fit)
          (ap (λ xs. has_excess spec (census name leases xs)) k ∙ excess)
          (delete-takes_one n t (is_mine name) distinct')
          (omega (
            arith,
            delete-takes_one n t (counts_for name claimed) distinct',
            count_if-counts_for name claimed (stored t),
            count_if-counts_for name claimed (stored u),
          ))
          refl

    step-NoNeed :
        (now : ℤ) (p : Pool) (t t' : S)
        → p.meta.name ≡ name
        → p.spec ≡ spec
        → (passed : Passed srv lib store now p s t t') → passed.leases ≡ leases
        → NoNeed t'
    unfolding NoNeed
    step-NoNeed now p t t' en es passed el = by_change passed.change
      where
        o : Observation Q
        o = observe lib p (stored s) passed.quotas passed.leases

        no_need : is_positive o.need ≡ false
        no_need =
            (observe-census lib p (stored s) passed.leases passed.quotas fits (rw el leases_fit)).0
            ∙ rw (en, es, el) (kept-NoNeed s refl)

        by_change :
            Change srv lib store
              (Pickable ns passed.leases)
              now
              (observed_pool lib p o passed.violation)
              o
              passed.violation
              t
              t'
            → NoNeed t'
        by_change (up (ScaledUp.same e)) = kept-NoNeed t' (e ∙ passed.kept)
        by_change (up (ScaledUp.one owned n r c v e)) = cc (n, no_need)
        by_change (down (ScaledDown.same e)) = kept-NoNeed t' (e ∙ passed.kept)
        by_change (down (ScaledDown.one v pv st x e)) =
            subst (λ xs. needs spec (census name leases xs) ≡ false)
              (sym (e ∙ ap (λ n. stored (srv.delete_instance n v.meta.name t).1) pv.0))
              (delete-NoNeed v.meta.name t passed.kept)

    -- For a pool with sizes in int32, in a namespace whose instances have distinct names, where
    -- these and the given leases, which are the ones listed, fit an int32, a reconcile at which
    -- the census of the pool shows an excess, whatever else it reads and whichever writes fail,
    -- leaves a census that shows no need: a trim causes no create.
    pub reconcile-no_need :
        (now : ℤ)
        → ((p : Pool) → srv.cached_pool ns name s ≡ found p → p.spec ≡ spec)
        → ((ls : List Lease) → srv.list_leases ns s ≡ found ls → ls ≡ leases)
        → needs spec (census name leases (stored (reconcile srv lib now ns name s).1)) ≡ false
    unfolding NoNeed
    reconcile-no_need now same_spec same_leases =
        reconcile_rule srv lib store NoNeed now s fits kept-NoNeed name (λ p p' t t' h em es passed.
          step-NoNeed now p' t t' (ap (λ m. m.name) em ∙ (store.pool_key name s p h).1)
            (es ∙ same_spec p h) passed (same_leases _ passed.leases_read))
