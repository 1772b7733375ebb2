-- ===== src/Pool/Naming/Fresh.antt =====
-- The next instance name is new in the pool, and the search for it ends.
use guestcluster.Api.{Instance}
use guestcluster.Base.{
  Bool-cases, List, Option, Text, [], any_if, ap, arith, atoi-decimal, cut_prefix-append, decimal,
  false, if◌then◌else◌, inl, inr, length, negsuc, none, pos, refl, some, suc, text_eq, text_eq→eq,
  true, zero, ℕ, ℤ, ◌++◌, ◌+◌, ◌<◌, ◌||◌, ◌∙◌, ◌∷◌, ◌≡◌, ◌≢◌, ◌≤◌,
}
use guestcluster.Pool.Naming.{
  first_unused, instance_prefix, is_index, is_used, name_index, next_instance_name, used_indices,
}

-- The indices other than `k`.
without : ℕ → List ℤ → List ℤ
without k [] = []
without k (u ∷ us) = let rest = without k us in if is_index u k then rest else u ∷ rest

is_index_unique : (u : ℤ) (k j : ℕ) → is_index u k ≡ true → k < j → is_index u j ≡ false
is_index_unique (pos n) k j h l = ground arith
is_index_unique (negsuc n) k j h l = refl

length-without-le : (k : ℕ) (us : List ℤ) → length (without k us) ≤ length us
unfolding without
length-without-le k [] = omega arith
length-without-le k (u ∷ us) = ground (arith, length-without-le k us)

length-without-lt : (k : ℕ) (us : List ℤ) → is_used us k ≡ true → length (without k us) < length us
unfolding without is_used
length-without-lt k [] h = cc
length-without-lt k (u ∷ us) h = elim (Bool-cases (is_index u k)) [
  | inl e ↦ rw e (omega (arith, length-without-le k us))
  | inr e ↦ rw e (omega (arith, length-without-lt k us (rw e at h)))
]

is_used-without : (k j : ℕ) (us : List ℤ) → k < j → is_used (without k us) j ≡ is_used us j
unfolding without is_used
is_used-without k j [] l = refl
is_used-without k j (u ∷ us) l = elim (Bool-cases (is_index u k)) [
  | inl e ↦ rw (e, is_index_unique u k j e l) (is_used-without k j us l)
  | inr e ↦ rw e (ap (λ b. is_index u j || b) (is_used-without k j us l))
]

-- `us` agrees with `used` from `idx` on, and the fuel outnumbers it: then the search ends at an
-- unused index.
first_unused-unused :
    (f idx : ℕ) (used us : List ℤ)
    → length us < f
    → ((j : ℕ) → idx ≤ j → is_used us j ≡ is_used used j)
    → is_used used (first_unused f idx used) ≡ false
unfolding first_unused
first_unused-unused zero idx used us h agree = elim h [ ]
first_unused-unused (suc f) idx used us h agree = elim (Bool-cases (is_used used idx)) [
  | inr e ↦ rw e e
  | inl e ↦ rw e (
      first_unused-unused f (suc idx) used (without idx us)
        (omega (arith, length-without-lt idx us (agree idx (omega arith) ∙ e)))
        (λ j l. is_used-without idx j us l ∙ agree j (omega arith)))
]

-- With one round more than there are used indices, the loop ends at an index that is not used.
pub first_unused-fresh :
    (used : List ℤ) → is_used used (first_unused (suc (length used)) 0 used) ≡ false
first_unused-fresh used =
    first_unused-unused (suc (length used)) 0 used used (omega arith) (λ j l. refl)

-- The index that is found is at most the number of used ones.
first_unused-le : (f idx : ℕ) (used : List ℤ) → first_unused f idx used ≤ idx + f
unfolding first_unused
first_unused-le zero idx used = omega arith
first_unused-le (suc f) idx used = ground (arith, first_unused-le f (suc idx) used)

length-used_indices-le :
    (prefix : Text) (is_ : List Instance) → length (used_indices prefix is_) ≤ length is_
unfolding used_indices
length-used_indices-le prefix [] = omega arith
length-used_indices-le prefix (i ∷ is_) = ground (arith, length-used_indices-le prefix is_)

name_index-decimal :
    (prefix : Text) (k : ℕ)
    → k < 9223372036854775808
    → name_index prefix (prefix ++ decimal k) ≡ some (pos k)
unfolding name_index
name_index-decimal prefix k h =
    rw (cut_prefix-append prefix (decimal k), name_index) (atoi-decimal k h)

used_tail :
    (index : Option ℤ) (rest : List ℤ) (k : ℕ)
    → is_used (elim index [ none ↦ rest | some u ↦ u ∷ rest ]) k ≡ false
    → (is_used rest k ≡ false) × (index ≢ some (pos k))
unfolding is_used
used_tail none rest k h = (h, λ e. cc)
used_tail (some (pos n)) rest k h = (ground arith, λ e. ground arith)
used_tail (some (negsuc n)) rest k h = (h, λ e. cc)

-- An instance whose name is the prefix and a number marks that number as used.
used_of_name :
    (prefix : Text) (k : ℕ) (is_ : List Instance)
    → k < 9223372036854775808
    → is_used (used_indices prefix is_) k ≡ false
    → any_if (λ i. text_eq i.meta.name (prefix ++ decimal k)) is_ ≡ false
unfolding used_indices is_used
used_of_name prefix k [] h e = refl
used_of_name prefix k (i ∷ is_) h e =
    let tail = used_tail (name_index prefix i.meta.name) (used_indices prefix is_) k e in
    elim (Bool-cases (text_eq i.meta.name (prefix ++ decimal k))) [
      | inr differs ↦ rw differs (used_of_name prefix k is_ h tail.0)
      | inl equal ↦ absurd (
          tail.1 (
            ap (name_index prefix) (text_eq→eq i.meta.name (prefix ++ decimal k) equal)
            ∙ name_index-decimal prefix k h))
    ]

-- The name chosen for the next instance of a pool is not the name of any listed instance, if the
-- list is shorter than the largest int64.
pub next_instance_name-fresh :
    (pool_name : Text) (is_ : List Instance)
    → length is_ < 9223372036854775807
    → any_if (λ i. text_eq i.meta.name (next_instance_name pool_name is_)) is_ ≡ false
unfolding next_instance_name
next_instance_name-fresh pool_name is_ h =
    let prefix = instance_prefix pool_name in
    let used = used_indices prefix is_ in
    used_of_name prefix (first_unused (suc (length used)) 0 used) is_
      (omega (arith, first_unused-le (suc (length used)) 0 used, length-used_indices-le prefix is_))
      (first_unused-fresh used)
