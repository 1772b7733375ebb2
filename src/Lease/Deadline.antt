-- ===== src/Lease/Deadline.antt =====
-- The TTL of a bound lease, in nanoseconds.
use guestcluster.Api.{Lease}
use guestcluster.Base.{
  Bool-cases, arith, clamp64, false, if◌then◌else◌, inl, inr, ltb, ltb_ℤ, pos, refl, some, sub_time,
  sub_ℕ, true, ℕ, ◌+ℤ◌, ◌+◌, ◌-ℤ◌, ◌-◌, ◌<◌, ◌≡◌,
}
use guestcluster.Kube.{requeue, return}
use guestcluster.Lease.Reconcile.{delete_lease, reconcile_bound, ttl_remaining}
use guestcluster.Platform.{Library, Server}

module _ {S Q : Type 0} (srv : Server S Q) (lib : Library Q) (l : Lease) (s : S) where
  ttl_remaining-exact :
      (t ttl now : ℕ)
      → l.spec.ttl ≡ some (pos ttl)
      → l.status.bound_time ≡ some (pos t)
      → 0 < ttl
      → t + ttl < 9223372036854775808
      → now < 9223372036854775808
      → ttl_remaining srv lib (pos now) l ≡ some (sub_ℕ (t + ttl) now)
  unfolding ttl_remaining sub_time clamp64 ◌-ℤ◌ ◌+ℤ◌
  ttl_remaining-exact t ttl now et eb positive fits now_fits =
      rw (et, eb, ttl_remaining) (ground arith)

  -- For a bound lease with a positive TTL, whose times and deadline fit an int64, the reconcile
  -- before the deadline writes nothing and asks to be called again after exactly the time that is
  -- left, and at the deadline or later it deletes the lease.
  pub reconcile_bound-deadline :
      (t ttl now : ℕ)
      → l.spec.ttl ≡ some (pos ttl)
      → l.status.bound_time ≡ some (pos t)
      → 0 < ttl
      → t + ttl < 9223372036854775808
      → now < 9223372036854775808
      → reconcile_bound srv lib (pos now) l s ≡ (
          if ltb now (t + ttl)
          then (return (requeue (pos (t + ttl - now))), s)
          else delete_lease srv lib "deleting lease after TTL expiry" l s)
  unfolding reconcile_bound
  reconcile_bound-deadline t ttl now et eb positive fits now_fits =
      rw (ttl_remaining-exact t ttl now et eb positive fits now_fits, reconcile_bound)
        (elim (Bool-cases (ltb now (t + ttl))) [
          | inl e ↦
              let d_eq : sub_ℕ (t + ttl) now ≡ pos (t + ttl - now) = ground arith in
              let test : ltb_ℤ (pos 0) (sub_ℕ (t + ttl) now) ≡ true = ground arith in
              rw (e, test, d_eq) refl
          | inr e ↦
              let test : ltb_ℤ (pos 0) (sub_ℕ (t + ttl) now) ≡ false = ground arith in
              rw (e, test) refl
        ])
