-- ===== src/Lease/Claims.antt =====
-- Claims are exclusive: no reconcile of a lease makes a second lease of a pool name an instance that
-- one names already.
use guestcluster.Api.{Lease}
use guestcluster.Base.{
  Bool, Bool-cases, List, Text, [], any_if, ap, arith, count_if, false, if◌then◌else◌, inl, inr,
  refl, some, suc, sym, text_eq, text_eq→eq, true, ℕ, ℤ, ◌&&◌, ◌∙◌, ◌∷◌, ◌≡◌, ◌≤◌, ◌⊎◌,
}
use guestcluster.Lease.Choice.{claims_in, is_claimed-claimed_loop}
use guestcluster.Lease.Laws.{LeaseStore, LeaseWrite, gone, lost, stored_as}
use guestcluster.Lease.Match.{claimed_loop}
use guestcluster.Lease.Passes.{LeasePass, bound, quiet, wrote}
use guestcluster.Lease.Reconcile.{reconcile}
use guestcluster.Lease.Steps.{reconcile-LeasePass}
use guestcluster.Platform.{Library, Server}
use guestcluster.Pool.Accounting.{is_claimed}
use guestcluster.Pool.Accounting.Counts.{names_instance}

abbrev pub claims : Text → Text → List Lease → ℕ
claims pool_name name ls = count_if (claims_in pool_name name) ls

no_claims : (q : Lease → Bool) (ls : List Lease) → any_if q ls ≡ false → count_if q ls ≡ 0
unfolding count_if
no_claims q [] h = refl
no_claims q (l ∷ ls) h = ground (arith, no_claims q ls)

count_if-cons :
    (q : Lease → Bool) (l : Lease) (ls : List Lease)
    → count_if q (l ∷ ls) ≡ (if q l then suc (count_if q ls) else count_if q ls)
unfolding count_if
count_if-cons q l ls = refl

-- A write that keeps what a test sees adds nothing to its count.
write-count :
    (q : Lease → Bool) (l l' : Lease) (xs ys : List Lease)
    → ((m : Lease) → m.spec ≡ l'.spec → m.status ≡ l'.status → q m ≡ true → q l ≡ true)
    → LeaseWrite l l' xs ys
    → count_if q ys ≤ count_if q xs
write-count q l l' xs ys h (lost e) = rw e (omega arith)
write-count q l l' xs ys h (stored_as rest m a b es est) =
    ground (arith, a q, b q, count_if-cons q l rest, count_if-cons q m rest, h m es est)
write-count q l l' xs ys h (gone rest a b) = ground (arith, a q, b q, count_if-cons q l rest)

-- A write adds one to a count at most.
write-count_suc :
    (q : Lease → Bool) (l l' : Lease) (xs ys : List Lease)
    → LeaseWrite l l' xs ys
    → count_if q ys ≤ suc (count_if q xs)
write-count_suc q l l' xs ys (lost e) = rw e (omega arith)
write-count_suc q l l' xs ys (stored_as rest m a b es est) =
    ground (arith, a q, b q, count_if-cons q l rest, count_if-cons q m rest)
write-count_suc q l l' xs ys (gone rest a b) = ground (arith, a q, b q, count_if-cons q l rest)

module _ {S Q : Type 0} (srv : Server S Q) (lib : Library Q) {ns : Text} {leases : S → List Lease}
    (store : LeaseStore srv ns leases) where
  -- Whether a lease claims an instance depends on its pool and on the instance that it names.
  same_claim :
      (pool_name name : Text) (a b : Lease)
      → a.spec ≡ b.spec
      → a.status.instance_ref ≡ b.status.instance_ref
      → claims_in pool_name name a ≡ claims_in pool_name name b
  unfolding names_instance
  same_claim pool_name name a b es er = rw (es, er, names_instance) refl

  bound_claim :
      (pool_name name n : Text) (m : Lease)
      → m.status.instance_ref ≡ some n
      → claims_in pool_name name m ≡ (text_eq m.spec.pool_ref pool_name && text_eq n name)
  unfolding names_instance
  bound_claim pool_name name n m er = rw (er, names_instance) refl

  -- The instance that is bound had no claim.
  unclaimed :
      (pool_name n : Text) (ls : List Lease)
      → is_claimed (claimed_loop pool_name [] ls) n ≡ false
      → claims pool_name n ls ≡ 0
  unclaimed pool_name n ls h =
      no_claims (claims_in pool_name n) ls (sym (is_claimed-claimed_loop pool_name ls n) ∙ h)

  pass-claims :
      (pool_name name : Text) (s t : S)
      → LeasePass srv lib store s t
      → (claims pool_name name (leases t) ≤ claims pool_name name (leases s))
        ⊎ (claims pool_name name (leases t) ≤ 1)
  pass-claims pool_name name s t (quiet e) = inl (rw e (omega arith))
  pass-claims pool_name name s t (wrote l l' es er w) = inl (
      write-count (claims_in pool_name name) l l' (leases s) (leases t)
        (λ m em est h.
          sym (same_claim pool_name name m l (em ∙ es) (ap (λ st. st.instance_ref) est ∙ er)) ∙ h)
        w)
  pass-claims pool_name name s t (bound l l' n es er er' free w) =
      elim (Bool-cases (text_eq l.spec.pool_ref pool_name && text_eq n name)) [
        | inl e ↦ inr (
            omega (
              arith,
              write-count_suc (claims_in pool_name name) l l' (leases s) (leases t) w,
              one_claim e,
            ))
        | inr e ↦ inl (
            write-count (claims_in pool_name name) l l' (leases s) (leases t)
              (λ m em est h.
                let test = bound_claim pool_name name n m (ap (λ st. st.instance_ref) est ∙ er') in
                cc (
                  h,
                  test,
                  ap (λ sp. text_eq sp.pool_ref pool_name && text_eq n name) (em ∙ es),
                  e,
                ))
              w)
      ]
    where
      one_claim :
          (text_eq l.spec.pool_ref pool_name && text_eq n name) ≡ true
          → count_if (claims_in pool_name name) (leases s) ≡ 0
      one_claim e =
          let same_pool : text_eq l.spec.pool_ref pool_name ≡ true = ground arith in
          let same_name : text_eq n name ≡ true = ground arith in
          rw (← text_eq→eq l.spec.pool_ref pool_name same_pool, ← text_eq→eq n name same_name)
            (unclaimed l.spec.pool_ref n (leases s) free)

  -- A reconcile of a lease, whatever it reads and whichever writes fail, never makes a second
  -- lease of a pool name one instance: the number of leases of a pool that name it stays or
  -- falls, or is at most one.
  pub reconcile-claims :
      (now : ℤ) (lease_name pool_name name : Text) (s : S)
      → let s' = (reconcile srv lib now ns lease_name s).1 in
        (claims pool_name name (leases s') ≤ claims pool_name name (leases s))
        ⊎ (claims pool_name name (leases s') ≤ 1)
  reconcile-claims now lease_name pool_name name s =
      pass-claims pool_name name s _ (reconcile-LeasePass srv lib store now s lease_name)
