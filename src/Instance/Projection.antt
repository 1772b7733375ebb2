-- ===== src/Instance/Projection.antt =====
-- The lease projection of an instance settles.
use guestcluster.Api.{Instance, Lease}
use guestcluster.Base.{
  Bool-cases, List, Option, String, Text, [], ap, arith, inl, inr, keep_if, none, not, refl, some,
  sym, text_eq_refl, text_eq→eq, true, ◌∷◌, ◌≡◌, ◌≢◌,
}
use guestcluster.Instance.Status.{claimant_loop, in_sync, project_lease_ref}
use guestcluster.Kube.{
  ApiError, bind-final, done, is_deleting, return, value, write, write-final, ◌>>◌,
}
use guestcluster.Platform.{Server}

in_sync_refl : (a : Option Text) → in_sync a a ≡ true
unfolding in_sync
in_sync_refl none = refl
in_sync_refl (some a) = text_eq_refl a

in_sync→eq : (a b : Option Text) → in_sync a b ≡ true → a ≡ b
unfolding in_sync
in_sync→eq none none h = refl
in_sync→eq none (some b) h = ground arith
in_sync→eq (some a) none h = ground arith
in_sync→eq (some a) (some b) h = ap (λ x. some x) (text_eq→eq a b h)

-- The first lease of the list that is not being deleted.
abbrev pub holder : List Lease → Option Text
holder ls = elim (keep_if (λ l. not (is_deleting l.meta)) ls) [
  | [] ↦ none
  | l ∷ more ↦ some l.meta.name
]

claimant_loop-holder : (ls : List Lease) → claimant_loop ls ≡ holder ls
unfolding claimant_loop keep_if
claimant_loop-holder [] = refl
claimant_loop-holder (l ∷ ls) = elim (Bool-cases (is_deleting l.meta)) [
  | inl e ↦ rw (e, claimant_loop, holder, keep_if) (claimant_loop-holder ls)
  | inr e ↦ rw (e, claimant_loop, holder, keep_if) refl
]

module _ {S Q : Type 0} (srv : Server S Q) where
  -- The instance with its projection.
  abbrev pub projected : Instance → List Lease → Instance
  projected i ls = record i { status = record i.status { lease_ref = holder ls } }

  written :
      (context : String) (put_it : S → Option ApiError × S) (t : S)
      → ((write context put_it >> value done) t).1 ≡ (put_it t).1
  written context put_it t =
      bind-final (λ x. x ≡ (put_it t).1) (write context put_it) (λ _. value done) t
        (λ a e. write-final context put_it t) (λ o e. write-final context put_it t)

  -- If the lease reference of an instance is the name of the first listed lease that is not being
  -- deleted, or both are absent, the projection writes nothing and succeeds; otherwise it ends in
  -- the state after the status write that sets the reference to that name, or clears it, and
  -- changes nothing else of the instance.
  pub project_lease_ref-settles :
      (i : Instance) (ls : List Lease) (s : S)
      → ((i.status.lease_ref ≡ holder ls) → project_lease_ref srv i ls s ≡ (return done, s))
        × ((i.status.lease_ref ≢ holder ls)
            → (project_lease_ref srv i ls s).1 ≡ (srv.update_instance_status (projected i ls) s).1)
  unfolding project_lease_ref
  project_lease_ref-settles i ls s = (
    (λ e. rw (claimant_loop-holder ls, e, in_sync_refl (holder ls), project_lease_ref) refl),
    (λ n. elim (Bool-cases (in_sync (holder ls) i.status.lease_ref)) [
      | inl e ↦ absurd (n (sym (in_sync→eq (holder ls) i.status.lease_ref e)))
      | inr e ↦
          rw (claimant_loop-holder ls, e, project_lease_ref)
            (written "updating derived LeaseRef projection"
              (srv.update_instance_status (projected i ls)) s)
    ]),
  )
