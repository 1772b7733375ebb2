-- ===== src/Lease/Choice.antt =====
-- The instance that reconcilePending chooses, and the claims that it looks at.
use guestcluster.Api.{Instance, Lease}
use guestcluster.Base.{
  All, Bool, List, Option, Text, [], any_if, arith, keep_if, keep_if-All, none, refl, some, subst,
  sym, text_eq, true, ◌&&◌, ◌||◌, ◌∙◌, ◌∷◌, ◌≡◌,
}
use guestcluster.Lease.Match.{candidate_loop, claim_of, claimed_loop}
use guestcluster.Pool.Accounting.{is_claimed}
use guestcluster.Pool.Accounting.Counts.{is_free, names_instance}

abbrev pub first : {A : Type 0} → List A → Option A
first [] = none
first (x ∷ xs) = some x

-- The lease controller chooses the first instance that the pool controller counts as available
-- for the same claims, and finds none exactly if there is none.
pub candidate_loop-first :
    (claimed : List Text) (is_ : List Instance)
    → candidate_loop claimed is_ ≡ first (keep_if (is_free claimed) is_)
unfolding candidate_loop keep_if is_free
candidate_loop-first claimed [] = refl
candidate_loop-first claimed (i ∷ is_) = ground (arith, candidate_loop-first claimed is_)

first-All : {A : Type 0} (P : A → Type 0) (xs : List A) (x : A) → All P xs → first xs ≡ some x → P x
first-All P [] x ps h = ground arith
first-All P (y ∷ ys) x ps h = let same_item : y ≡ x = cc h in subst P same_item ps.0

pub candidate_is_free :
    (claimed : List Text) (is_ : List Instance) (i : Instance)
    → candidate_loop claimed is_ ≡ some i
    → is_free claimed i ≡ true
candidate_is_free claimed is_ i h =
    first-All (λ j. is_free claimed j ≡ true) (keep_if (is_free claimed) is_) i
      (keep_if-All (is_free claimed) is_) (sym (candidate_loop-first claimed is_) ∙ h)

-- A lease of the pool that names the instance.
abbrev pub claims_in : Text → Text → Lease → Bool
claims_in pool_name name l = text_eq l.spec.pool_ref pool_name && names_instance name l

claimed_loop-from :
    (pool_name : Text) (claimed : List Text) (ls : List Lease) (name : Text)
    → is_claimed (claimed_loop pool_name claimed ls) name
      ≡ (is_claimed claimed name || any_if (claims_in pool_name name) ls)
unfolding claimed_loop claim_of is_claimed names_instance
claimed_loop-from pool_name claimed [] name = ground arith
claimed_loop-from pool_name claimed (l ∷ ls) name =
    claimed_loop-from pool_name (claim_of pool_name l claimed) ls name ∙ step
  where
    step :
        (is_claimed (claim_of pool_name l claimed) name || any_if (claims_in pool_name name) ls)
        ≡ (is_claimed claimed name || any_if (claims_in pool_name name) (l ∷ ls))
    step = ground arith

-- The lease controller takes an instance as claimed exactly if some lease of the same pool names
-- it, in whatever phase that lease is.
pub is_claimed-claimed_loop :
    (pool_name : Text) (ls : List Lease) (name : Text)
    → is_claimed (claimed_loop pool_name [] ls) name ≡ any_if (claims_in pool_name name) ls
unfolding is_claimed
is_claimed-claimed_loop pool_name ls name = claimed_loop-from pool_name [] ls name
