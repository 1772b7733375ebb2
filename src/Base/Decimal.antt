-- ===== src/Base/Decimal.antt =====
-- Go's strconv.Atoi and the %d verb on natural numbers, and their round trip.
use Prim.Native.Nat.{ℕ, zero, suc, ◌+◌, ◌-◌, ◌*◌, ◌/◌, ◌%◌, ◌<◌}
use mathlib.Core.Path.{◌≡◌, ◌∙◌}
use mathlib.Core.Bool.{Bool, true, false, ◌&&◌}
use mathlib.Core.List.{[], ◌∷◌}
use mathlib.Core.Option.{Option, none, some}
use native.Mathlib.Omega.{arith}
use guestcluster.Base.Tests.{◌==◌, ltb, leb, if◌then◌else◌, Bool-cases}
use mathlib.Core.Logic.{inl, inr}
use guestcluster.Base.Strings.{Text}
use guestcluster.Base.Int.{ℤ, pos, negsuc}

abbrev pub is_digit : ℕ → Bool
is_digit c = leb b'0' c && leb c b'9'

-- The value of a run of digits behind the value `v`; `none` at any other byte.
unfoldable pub parse_digits : ℕ → Text → Option ℕ
parse_digits v [] = some v
parse_digits v (c ∷ cs) =
    let rest = parse_digits (v * 10 + (c - 48)) cs in if is_digit c then rest else none

abbrev minus : ℕ → ℤ
minus zero = pos 0
minus (suc n) = negsuc n

-- The text behind the sign: it must have a digit, and its value must fit an int64.
unfoldable pub atoi_magnitude : Bool → Text → Option ℤ
unfolding parse_digits
atoi_magnitude negative [] = none
atoi_magnitude negative (c ∷ cs) = elim (parse_digits 0 (c ∷ cs)) [
  | none ↦ none
  | some n ↦
      if negative
      then (if leb n 9223372036854775808 then some (minus n) else none)
      else (if ltb n 9223372036854775808 then some (pos n) else none)
]

-- strconv.Atoi with a 64-bit int; `none` is its error.
unfoldable pub atoi : Text → Option ℤ
unfolding atoi_magnitude
atoi [] = none
atoi (c ∷ cs) =
    if c == b'-'
    then atoi_magnitude true cs
    else if c == b'+'
    then atoi_magnitude false cs
    else atoi_magnitude false (c ∷ cs)

-- The digits of `n` in front of `later`, on fuel.
unfoldable pub digits : ℕ → ℕ → Text → Text
digits zero n later = later
digits (suc f) n later =
    let rest = digits f (n / 10) ((48 + n % 10) ∷ later) in
    if n / 10 == 0 then (48 + n % 10) ∷ later else rest

-- %d of a natural number; the fuel is enough, as `parse_digits-digits` shows.
unfoldable pub decimal : ℕ → Text
unfolding digits
decimal n = digits (suc n) n []

pub parse_digits-digits :
    (f n : ℕ) (later : Text) → n < f → parse_digits 0 (digits f n later) ≡ parse_digits n later
unfolding parse_digits digits
parse_digits-digits zero n later h = elim h [ ]
parse_digits-digits (suc f) n later h = elim (Bool-cases (n / 10 == 0)) [
  | inl last ↦ ground arith
  | inr more ↦
      rw more (parse_digits-digits f (n / 10) ((48 + n % 10) ∷ later) (ground arith) ∙ ground arith)
]

-- The text of a number begins with a digit.
abbrev BeginsWithDigit : Text → Type 0
BeginsWithDigit [] = ⊥
BeginsWithDigit (c ∷ cs) = is_digit c ≡ true

digits-BeginsWithDigit : (f n : ℕ) (later : Text) → n < f → BeginsWithDigit (digits f n later)
unfolding digits
digits-BeginsWithDigit zero n later h = elim h [ ]
digits-BeginsWithDigit (suc f) n later h = elim (Bool-cases (n / 10 == 0)) [
  | inl last ↦ rw last (ground arith)
  | inr more ↦ rw more (digits-BeginsWithDigit f (n / 10) ((48 + n % 10) ∷ later) (ground arith))
]

atoi-of_digits :
    (t : Text) (n : ℕ)
    → BeginsWithDigit t
    → parse_digits 0 t ≡ some n
    → n < 9223372036854775808
    → atoi t ≡ some (pos n)
unfolding atoi
atoi-of_digits [] n b p h = elim b [ ]
atoi-of_digits (c ∷ cs) n b p h = ground arith

-- Atoi reads back what %d prints.
pub atoi-decimal : (n : ℕ) → n < 9223372036854775808 → atoi (decimal n) ≡ some (pos n)
unfolding decimal parse_digits
atoi-decimal n h =
    atoi-of_digits (decimal n) n (digits-BeginsWithDigit (suc n) n [] (omega arith))
      (parse_digits-digits (suc n) n [] (omega arith)) h
