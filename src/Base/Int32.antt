-- ===== src/Base/Int32.antt =====
-- Go's int32 and int64 arithmetic, as integers with the wrap-around written out.
use Prim.Native.Nat.{ℕ, suc, ◌-◌, ◌%◌, ◌<◌}
use mathlib.Core.Path.{◌≡◌}
use native.Mathlib.Omega.{arith}
use guestcluster.Base.Tests.{ltb, if◌then◌else◌}
use guestcluster.Base.Int.{ℤ, pos, negsuc, ◌+ℤ◌, ◌-ℤ◌, ltb_ℤ}

-- The integer that a 32-bit pattern stands for.
abbrev pub signed32 : ℕ → ℤ
signed32 u = if ltb u 2147483648 then pos u else negsuc (4294967295 - u)

-- Wrap-around into [-2^31, 2^31).
unfoldable pub wrap32 : ℤ → ℤ
wrap32 (pos n) = signed32 (n % 4294967296)
wrap32 (negsuc n) = signed32 (4294967295 - n % 4294967296)

-- `x++` on an int32.
unfoldable pub inc32 : ℤ → ℤ
inc32 a = wrap32 (a +ℤ pos 1)

-- `a - b` on int32.
infixl 65 ◌-₃₂◌
unfoldable pub ◌-₃₂◌ : ℤ → ℤ → ℤ
a -₃₂ b = wrap32 (a -ℤ b)

-- The same on int64.
abbrev pub signed64 : ℕ → ℤ
signed64 u = if ltb u 9223372036854775808 then pos u else negsuc (18446744073709551615 - u)

unfoldable pub wrap64 : ℤ → ℤ
wrap64 (pos n) = signed64 (n % 18446744073709551616)
wrap64 (negsuc n) = signed64 (18446744073709551615 - n % 18446744073709551616)

infixl 65 ◌-₆₄◌
unfoldable pub ◌-₆₄◌ : ℤ → ℤ → ℤ
a -₆₄ b = wrap64 (a -ℤ b)

-- time.Time.Sub on times in nanoseconds: the difference, held within an int64.
unfoldable pub clamp64 : ℤ → ℤ
clamp64 (pos n) = if ltb n 9223372036854775808 then pos n else pos 9223372036854775807
clamp64 (negsuc n) = if ltb n 9223372036854775808 then negsuc n else negsuc 9223372036854775807

unfoldable pub sub_time : ℤ → ℤ → ℤ
unfolding clamp64
sub_time a b = clamp64 (a -ℤ b)

-- The natural numbers that an int32 can hold.
abbrev pub IsInt32 : ℕ → Type 0
IsInt32 n = n < 2147483648

pub inc32-pos : (n : ℕ) → IsInt32 (suc n) → inc32 (pos n) ≡ pos (suc n)
unfolding inc32 wrap32 ◌+ℤ◌
inc32-pos n h = ground arith

-- Between natural numbers in range the difference does not wrap.
pub -₃₂_exact : (a b : ℕ) → IsInt32 a → IsInt32 b → pos a -₃₂ pos b ≡ pos a -ℤ pos b
unfolding ◌-₃₂◌ wrap32 ◌-ℤ◌
-₃₂_exact a b ha hb = ground arith

-- So its sign is the order of the two.
pub -₃₂_positive : (a b : ℕ) → IsInt32 a → IsInt32 b → ltb_ℤ (pos 0) (pos a -₃₂ pos b) ≡ ltb b a
unfolding ◌-₃₂◌ wrap32 ◌-ℤ◌
-₃₂_positive a b ha hb = ground arith
