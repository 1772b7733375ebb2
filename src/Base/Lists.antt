-- ===== src/Base/Lists.antt =====
-- Lists measured by native numbers, counting, and membership by a Boolean test.
use guestcluster.Base.Tests.{if◌then◌else◌, Bool-cases}
use Prim.Native.Nat.{ℕ, suc, ◌+◌, ◌≤◌}
use mathlib.Core.Path.{◌≡◌, refl, ap, ◌∙◌, sym}
use mathlib.Core.Bool.{Bool, true, false, ◌&&◌, ◌||◌}
use mathlib.Core.List.{List, [], ◌∷◌, ◌++◌}
use native.Mathlib.Omega.{arith}
use mathlib.Core.Logic.{inl, inr}

module _ {ℓ} {A : Type ℓ} where
  abbrev pub length : List A → ℕ
  length [] = 0
  length (x ∷ xs) = suc (length xs)

  pub length-append : (xs ys : List A) → length (xs ++ ys) ≡ length xs + length ys
  length-append [] ys = omega arith
  length-append (x ∷ xs) ys = omega (arith, length-append xs ys)

  -- How many elements pass a test.
  unfoldable pub count_if : (A → Bool) → List A → ℕ
  count_if p [] = 0
  count_if p (x ∷ xs) = let rest = count_if p xs in if p x then suc rest else rest

  -- The elements that pass a test, in order.
  unfoldable pub keep_if : (A → Bool) → List A → List A
  keep_if p [] = []
  keep_if p (x ∷ xs) = let rest = keep_if p xs in if p x then x ∷ rest else rest

  abbrev pub any_if : (A → Bool) → List A → Bool
  any_if p [] = false
  any_if p (x ∷ xs) = p x || any_if p xs

  -- The predicate holds of every element.
  abbrev pub All {κ} : (A → Type κ) → List A → Type κ
  All P [] = Unit
  All P (x ∷ xs) = P x × All P xs

  -- Two lists hold the same elements, as often, in some order.
  abbrev pub SameItems : List A → List A → Type ℓ
  SameItems xs ys = (p : A → Bool) → count_if p xs ≡ count_if p ys

module _ {ℓ} {A : Type ℓ} where
  pub count_if-le : (p : A → Bool) (xs : List A) → count_if p xs ≤ length xs
  unfolding count_if
  count_if-le p [] = omega arith
  count_if-le p (x ∷ xs) = ground (arith, count_if-le p xs)

  pub count_if-true : (xs : List A) → count_if (λ x. true) xs ≡ length xs
  unfolding count_if
  count_if-true [] = refl
  count_if-true (x ∷ xs) = ap suc (count_if-true xs)

  pub length-keep_if : (p : A → Bool) (xs : List A) → length (keep_if p xs) ≡ count_if p xs
  unfolding count_if keep_if
  length-keep_if p [] = refl
  length-keep_if p (x ∷ xs) = ground (arith, length-keep_if p xs)

  pub count_if-keep_if :
      (p q : A → Bool) (xs : List A) → count_if p (keep_if q xs) ≡ count_if (λ x. q x && p x) xs
  unfolding count_if keep_if
  count_if-keep_if p q [] = refl
  count_if-keep_if p q (x ∷ xs) = ground (arith, count_if-keep_if p q xs)

  pub length-SameItems : (xs ys : List A) → SameItems xs ys → length xs ≡ length ys
  length-SameItems xs ys h = sym (count_if-true xs) ∙ h (λ x. true) ∙ count_if-true ys

module _ {ℓ κ} {A : Type ℓ} (P : A → Type κ) where
  pub All-append : (xs ys : List A) → All P xs → All P ys → All P (xs ++ ys)
  All-append [] ys hx hy = hy
  All-append (x ∷ xs) ys hx hy = (hx.0, All-append xs ys hx.1 hy)

-- What is kept passes the test.
pub keep_if-All {ℓ} :
    {A : Type ℓ} (q : A → Bool) (xs : List A) → All (λ x. q x ≡ true) (keep_if q xs)
unfolding keep_if
keep_if-All q [] = tt
keep_if-All q (x ∷ xs) = elim (Bool-cases (q x)) [
  | inl e ↦ rw e (e, keep_if-All q xs)
  | inr e ↦ rw e (keep_if-All q xs)
]

pub All-keep_if {ℓ κ} :
    {A : Type ℓ} (P : A → Type κ) (q : A → Bool) (xs : List A) → All P xs → All P (keep_if q xs)
unfolding keep_if
All-keep_if P q [] ps = tt
All-keep_if P q (x ∷ xs) ps = elim (Bool-cases (q x)) [
  | inl e ↦ rw e (ps.0, All-keep_if P q xs ps.1)
  | inr e ↦ rw e (All-keep_if P q xs ps.1)
]

pub All-and {ℓ κ} :
    {A : Type ℓ} (P R : A → Type κ) (xs : List A) → All P xs → All R xs → All (λ x. P x × R x) xs
All-and P R [] ps rs = tt
All-and P R (x ∷ xs) ps rs = ((ps.0, rs.0), All-and P R xs ps.1 rs.1)

pub All-map {ℓ κ} :
    {A : Type ℓ} (P R : A → Type κ) (xs : List A) → ((x : A) → P x → R x) → All P xs → All R xs
All-map P R [] f ps = tt
All-map P R (x ∷ xs) f ps = (f x ps.0, All-map P R xs f ps.1)
