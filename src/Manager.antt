-- ===== src/Manager.antt =====
-- The manager: the pool controller and the lease controller at work on one pool, with everything
-- else that happens to the objects of its namespace in between. A reconcile of either is one step,
-- since both hold clusterInstanceReservation (internal/controller/clusterinstance_reservation.go)
-- from their first live read to their last write.
use guestcluster.Api.{Bundle, Instance, Lease, Pool, Secret}
use guestcluster.Base.{
  Bool, IsInt32, List, Text, ap, arith, count_if, inl, inr, length, refl, subst, sym, ℕ, ℤ, ◌∙◌,
  ◌≡◌, ◌≤◌, ◌⊎◌,
}
use guestcluster.Kube.{Labels, found}
use guestcluster.Lease.Claims.{claims, reconcile-claims}
use guestcluster.Lease.Laws.{LeaseStore}
use guestcluster.Platform.{Library, Server}
use guestcluster.Pool.Safety.{reconcile-max_size}
use guestcluster.Pool.Scaling.Deficit.{HasSizes}
use guestcluster.Resources.{matches_labels, pool_labels}
use guestcluster.Store.{InstanceStore, tally}
use guestcluster.Pool.Reconcile.{reconcile as pool_reconcile}
use guestcluster.Pool.Frame.{reconcile-kept as pool-kept}
use guestcluster.Lease.Reconcile.{reconcile as lease_reconcile}
use guestcluster.Lease.Frame.{reconcile-kept as lease-kept}

-- Leases and instances are stored apart: a write of one kind leaves the other alone.
pub record Apart {S Q : Type 0} (srv : Server S Q) (stored : S → List Instance)
    (leases : S → List Lease) : Type 0 where
  pub instance_created : (i : Instance) (s : S) → leases (srv.create_instance i s).1 ≡ leases s
  pub instance_deleted : (m n : Text) (s : S) → leases (srv.delete_instance m n s).1 ≡ leases s
  pub pool_status : (p : Pool) (s : S) → leases (srv.update_pool_status p s).1 ≡ leases s
  pub bundle_created : (b : Bundle) (s : S) → leases (srv.create_bundle b s).1 ≡ leases s
  pub lease_updated : (l : Lease) (s : S) → stored (srv.update_lease l s).1 ≡ stored s
  pub lease_status : (l : Lease) (s : S) → stored (srv.update_lease_status l s).1 ≡ stored s
  pub lease_deleted : (l : Lease) (s : S) → stored (srv.delete_lease l s).1 ≡ stored s
  pub secret_created : (x : Secret) (s : S) → stored (srv.create_secret x s).1 ≡ stored s
  pub secret_updated : (x : Secret) (s : S) → stored (srv.update_secret x s).1 ≡ stored s
  pub deletes_add_none :
      (m n : Text) (s : S) (q : Labels → Bool)
      → tally stored q (srv.delete_instance m n s).1 ≤ tally stored q s

module _ {S Q : Type 0} (srv : Server S Q) (lib : Library Q) {ns : Text}
    {stored : S → List Instance} {leases : S → List Lease} (store : InstanceStore srv ns stored)
    (lease_store : LeaseStore srv ns leases) (apart : Apart srv stored leases) where
  -- The number of the instances of a pool.
  abbrev pub size : Text → S → ℕ
  size pool_name s = tally stored (matches_labels (pool_labels pool_name)) s

  pub pool_reconcile-leases :
      (now : ℤ) (name : Text) (s : S) → leases (pool_reconcile srv lib now ns name s).1 ≡ leases s
  pool_reconcile-leases now name s =
      pool-kept srv lib (λ t. leases t ≡ leases s)
        (record {
          created = λ i t e. apart.instance_created i t ∙ e;
          deleted = λ m n t e. apart.instance_deleted m n t ∙ e;
          status = λ p t e. apart.pool_status p t ∙ e;
          bundle = λ b t e. apart.bundle_created b t ∙ e;
        })
        now ns name s refl

  pub lease_reconcile-size :
      (now : ℤ) (name pool_name : Text) (s : S)
      → size pool_name (lease_reconcile srv lib now ns name s).1 ≤ size pool_name s
  lease_reconcile-size now name pool_name s =
      let q = matches_labels (pool_labels pool_name) in
      let same =
        λ (xs ys : List Instance) (e : ys ≡ xs)
            (h : count_if (λ i. q i.meta.labels) xs ≤ size pool_name s).
          subst (λ zs. count_if (λ i. q i.meta.labels) zs ≤ size pool_name s) (sym e) h in
      lease-kept srv lib (λ t. size pool_name t ≤ size pool_name s)
        (record {
          lease = λ l t h. same (stored t) _ (apart.lease_updated l t) h;
          lease_status = λ l t h. same (stored t) _ (apart.lease_status l t) h;
          lease_gone = λ l t h. same (stored t) _ (apart.lease_deleted l t) h;
          secret_new = λ x t h. same (stored t) _ (apart.secret_created x t) h;
          secret = λ x t h. same (stored t) _ (apart.secret_updated x t) h;
          instance_gone = λ m n t h. omega (arith, apart.deletes_add_none m n t q, h);
        })
        now ns name s (omega arith)

  module _ (pool_name : Text) (mx mn ws : ℕ) where
    -- A step of the manager, or of anything else that makes no claim on the pool and no instance of
    -- it.
    pub data Step (s t : S) : Type 0 where
      pool_pass :
          (now : ℤ)
          → IsInt32 (length (stored s))
          → ((p : Pool) → srv.cached_pool ns pool_name s ≡ found p → HasSizes p.spec mx mn ws)
          → t ≡ (pool_reconcile srv lib now ns pool_name s).1
          → Step s t
      lease_pass :
          (now : ℤ) (name : Text) → t ≡ (lease_reconcile srv lib now ns name s).1 → Step s t
      elsewhere :
          size pool_name t ≤ size pool_name s
          → ((name : Text) → claims pool_name name (leases t) ≤ claims pool_name name (leases s))
          → Step s t

    -- The states that steps lead to.
    pub data Reach (s : S) : S → Type 0 where
      here : Reach s s
      next : {t u : S} → Reach s t → Step t u → Reach s u

    -- The pool is within maxSize, and no two leases of it name one instance.
    pub record IsSound (s : S) : Type 0 where
      pub within_max : size pool_name s ≤ mx
      pub exclusive : (name : Text) → claims pool_name name (leases s) ≤ 1

    Step-IsSound : {s t : S} → Step s t → IsSound s → IsSound t
    Step-IsSound {s} {t} (pool_pass now fits sizes e) h = record {
      within_max =
          subst (λ u. size pool_name u ≤ mx) (sym e)
            (bounded (reconcile-max_size srv lib store now pool_name s mx mn ws fits sizes));
      exclusive = λ name.
          subst (λ ls. claims pool_name name ls ≤ 1)
            (sym (ap leases e ∙ pool_reconcile-leases now pool_name s)) (h.exclusive name);
    }
      where
        bounded : {a : ℕ} → (a ≤ size pool_name s) ⊎ (a ≤ mx) → a ≤ mx
        bounded (inl le) = omega (arith, h.within_max)
        bounded (inr le) = le
    Step-IsSound {s} {t} (lease_pass now name e) h = record {
      within_max =
          subst (λ u. size pool_name u ≤ mx) (sym e)
            (omega (arith, lease_reconcile-size now name pool_name s, h.within_max));
      exclusive = λ n.
          subst (λ u. claims pool_name n (leases u) ≤ 1) (sym e)
            (alone n (reconcile-claims srv lib lease_store now name pool_name n s));
    }
      where
        alone : (n : Text) {a : ℕ} → (a ≤ claims pool_name n (leases s)) ⊎ (a ≤ 1) → a ≤ 1
        alone n (inl le) = omega (arith, h.exclusive n)
        alone n (inr le) = le
    Step-IsSound {s} {t} (elsewhere fewer no_claims) h = record {
      within_max = omega (arith, h.within_max);
      exclusive = λ n. omega (arith, no_claims n, h.exclusive n);
    }

    -- From a state in which a pool has at most maxSize instances and no two leases of it name one
    -- instance, every run of reconciles of the pool, of reconciles of leases, and of other steps
    -- that add neither an instance of the pool nor a claim on it, leads to such a state, whatever
    -- the reconciles read and whichever writes fail. Each reconcile of the pool needs the
    -- namespace's instances to fit an int32 and the pool that it reads to have the given sizes.
    pub Reach-IsSound : {s t : S} → IsSound s → Reach s t → IsSound t
    Reach-IsSound h here = h
    Reach-IsSound h (next r st) = Step-IsSound st (Reach-IsSound h r)
