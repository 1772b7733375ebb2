-- ===== src/Base/Cut.antt =====
-- Cutting and trimming of texts, and tests on their bytes.
use guestcluster.Base.Tests.{if◌then◌else◌, Bool-cases}
use guestcluster.Base.Lists.{length}
use guestcluster.Base.Strings.{Text}
use Prim.Native.Nat.{ℕ, zero, suc, ◌≤◌}
use mathlib.Core.Path.{◌≡◌, refl}
use mathlib.Core.Logic.{◌⊎◌, inl, inr}
use mathlib.Core.Bool.{Bool, true, false, ◌&&◌, not}
use mathlib.Core.List.{[], ◌∷◌, ◌++◌}
use native.Mathlib.Omega.{arith}

unfoldable pub is_empty : Text → Bool
is_empty [] = true
is_empty (c ∷ cs) = false

-- `s[:n]`, where the text is long enough.
unfoldable pub take : ℕ → Text → Text
take zero s = []
take (suc n) [] = []
take (suc n) (c ∷ s) = c ∷ take n s

-- `strings.TrimLeft` and `strings.TrimRight`, with the cutset as a test.
unfoldable pub trim_left : (ℕ → Bool) → Text → Text
trim_left p [] = []
trim_left p (c ∷ s) = if p c then trim_left p s else c ∷ s

unfoldable pub trim_right : (ℕ → Bool) → Text → Text
unfolding is_empty
trim_right p [] = []
trim_right p (c ∷ s) = let rest = trim_right p s in if is_empty rest && p c then [] else c ∷ rest

unfoldable pub trim_both : (ℕ → Bool) → Text → Text
unfolding trim_left trim_right
trim_both p s = trim_right p (trim_left p s)

unfoldable pub all_if : (ℕ → Bool) → Text → Bool
all_if p [] = true
all_if p (c ∷ s) = p c && all_if p s

unfoldable pub first_is : (ℕ → Bool) → Text → Bool
first_is p [] = false
first_is p (c ∷ s) = p c

unfoldable pub last_is : (ℕ → Bool) → Text → Bool
last_is p [] = false
last_is p (c ∷ []) = p c
last_is p (c ∷ d ∷ s) = last_is p (d ∷ s)

pub length-take : (n : ℕ) (s : Text) → n ≤ length s → length (take n s) ≡ n
unfolding take
length-take zero s h = refl
length-take (suc n) [] h = omega arith
length-take (suc n) (c ∷ s) h = ground (arith, length-take n s)

pub length-take_le : (n : ℕ) (s : Text) → length (take n s) ≤ n
unfolding take
length-take_le zero s = omega arith
length-take_le (suc n) [] = omega arith
length-take_le (suc n) (c ∷ s) = ground (arith, length-take_le n s)

pub length-trim_right : (p : ℕ → Bool) (s : Text) → length (trim_right p s) ≤ length s
unfolding trim_right is_empty
length-trim_right p [] = omega arith
length-trim_right p (c ∷ s) = ground (arith, length-trim_right p s)

pub all_if-take : (p : ℕ → Bool) (n : ℕ) (s : Text) → all_if p s ≡ true → all_if p (take n s) ≡ true
unfolding take all_if
all_if-take p zero s h = refl
all_if-take p (suc n) [] h = refl
all_if-take p (suc n) (c ∷ s) h = ground (arith, all_if-take p n s)

pub all_if-trim_left :
    (p q : ℕ → Bool) (s : Text) → all_if p s ≡ true → all_if p (trim_left q s) ≡ true
unfolding trim_left all_if
all_if-trim_left p q [] h = refl
all_if-trim_left p q (c ∷ s) h = ground (arith, all_if-trim_left p q s)

pub all_if-trim_right :
    (p q : ℕ → Bool) (s : Text) → all_if p s ≡ true → all_if p (trim_right q s) ≡ true
unfolding trim_right all_if is_empty
all_if-trim_right p q [] h = refl
all_if-trim_right p q (c ∷ s) h = ground (arith, all_if-trim_right p q s)

pub all_if-append : (p : ℕ → Bool) (s t : Text) → all_if p (s ++ t) ≡ (all_if p s && all_if p t)
unfolding all_if
all_if-append p [] t = refl
all_if-append p (c ∷ s) t = ground (arith, all_if-append p s t)

-- What is left begins with no byte of the cutset.
pub first_is-trim_left :
    (p : ℕ → Bool) (s : Text)
    → (trim_left p s ≡ []) ⊎ (first_is (λ c. not (p c)) (trim_left p s) ≡ true)
unfolding trim_left first_is
first_is-trim_left p [] = inl refl
first_is-trim_left p (c ∷ s) = elim (Bool-cases (p c)) [
  | inl e ↦ rw e (first_is-trim_left p s)
  | inr e ↦ rw e (inr (rw e refl))
]

pub first_is-trim_right :
    (p q : ℕ → Bool) (s : Text)
    → first_is q s ≡ true
    → (trim_right p s ≡ []) ⊎ (first_is q (trim_right p s) ≡ true)
unfolding trim_right first_is is_empty
first_is-trim_right p q [] h = inl refl
first_is-trim_right p q (c ∷ s) h = elim (Bool-cases (is_empty (trim_right p s) && p c)) [
  | inl e ↦ rw e (inl refl)
  | inr e ↦ rw e (inr h)
]

-- Nor does it end with one.
pub last_is-trim_right :
    (p : ℕ → Bool) (s : Text)
    → (trim_right p s ≡ []) ⊎ (last_is (λ c. not (p c)) (trim_right p s) ≡ true)
unfolding trim_right last_is is_empty
last_is-trim_right p [] = inl refl
last_is-trim_right p (c ∷ s) = grown (trim_right p s) (last_is-trim_right p s)
  where
    grown :
        (r : Text)
        → (r ≡ []) ⊎ (last_is (λ c. not (p c)) r ≡ true)
        → ((if is_empty r && p c then [] else c ∷ r) ≡ [])
          ⊎ (last_is (λ c. not (p c)) (if is_empty r && p c then [] else c ∷ r) ≡ true)
    grown [] h = elim (Bool-cases (p c)) [
      | inl e ↦ rw e (inl refl)
      | inr e ↦ rw e (inr (rw e refl))
    ]
    grown (d ∷ r) h = elim h [ inl e ↦ cc e | inr e ↦ inr e ]

pub last_is-append : (p : ℕ → Bool) (s t : Text) → last_is p t ≡ true → last_is p (s ++ t) ≡ true
unfolding last_is
last_is-append p [] t h = h
last_is-append p (c ∷ s) t h = behind (s ++ t) (last_is-append p s t h)
  where
    behind : (r : Text) → last_is p r ≡ true → last_is p (c ∷ r) ≡ true
    behind [] h = ground arith
    behind (d ∷ r) h = h

pub all_if-first_is :
    (p : ℕ → Bool) (s : Text) → all_if p s ≡ true → (s ≡ []) ⊎ (first_is p s ≡ true)
unfolding all_if first_is
all_if-first_is p [] h = inl refl
all_if-first_is p (c ∷ s) h = inr (ground arith)

pub all_if-last_is : (p : ℕ → Bool) (s : Text) → all_if p s ≡ true → (s ≡ []) ⊎ (last_is p s ≡ true)
unfolding all_if last_is
all_if-last_is p [] h = inl refl
all_if-last_is p (c ∷ []) h = inr (ground arith)
all_if-last_is p (c ∷ d ∷ s) h = elim (all_if-last_is p (d ∷ s) (ground arith)) [
  | inl e ↦ cc e
  | inr e ↦ inr e
]
