-- ===== src/Prelude/Int.antt =====
-- Signed values: `negsuc n` is -(n + 1).
use Prim.Native.Nat.{ℕ, zero, suc, ◌+◌, ◌-◌, ◌*◌, ◌/◌, ◌%◌, ◌^◌}
use mathlib.Core.Bool.{Bool, true, false}
use minimoni.Prelude.Tests.{if◌then◌else◌, leb, ltb}

pub data ℤ : Type 0 where
  pos : ℕ → ℤ
  negsuc : ℕ → ℤ

-- z > 0
abbrev pub is_positive : ℤ → Bool
is_positive (pos zero) = false
is_positive (pos (suc n)) = true
is_positive (negsuc n) = false

-- z <= m, for an m that is not negative
abbrev pub le_ℕ : ℤ → ℕ → Bool
le_ℕ (pos n) m = leb n m
le_ℕ (negsuc n) m = true

-- The value of a number that is not negative, and 0 for the others.
abbrev pub pos_part : ℤ → ℕ
pos_part (pos n) = n
pos_part (negsuc n) = 0

abbrev pub neg : ℕ → ℤ
neg zero = pos 0
neg (suc n) = negsuc n

-- a - b
abbrev pub sub_ℕ : ℕ → ℕ → ℤ
sub_ℕ a b = if leb b a then pos (a - b) else negsuc (b - a - 1)

-- z + m
abbrev pub add_ℕ : ℤ → ℕ → ℤ
add_ℕ (pos n) m = pos (n + m)
add_ℕ (negsuc n) m = sub_ℕ m (n + 1)

-- z / k, truncated towards 0
abbrev pub quot_ℕ : ℤ → ℕ → ℤ
quot_ℕ (pos n) k = pos (n / k)
quot_ℕ (negsuc n) k = neg ((n + 1) / k)

-- The 32-bit int with the low bits of an integer.
abbrev pub of_word : ℕ → ℤ
of_word u = if ltb u (2 ^ 31) then pos u else negsuc (2 ^ 32 - u - 1)

abbrev pub to_int32 : ℤ → ℤ
to_int32 (pos n) = of_word (n % 2 ^ 32)
to_int32 (negsuc n) = of_word (2 ^ 32 - 1 - n % 2 ^ 32)

-- z < 0
abbrev pub is_negative : ℤ → Bool
is_negative (pos n) = false
is_negative (negsuc n) = true

-- z + w
abbrev pub plus_ℤ : ℤ → ℤ → ℤ
plus_ℤ z (pos n) = add_ℕ z n
plus_ℤ (pos m) (negsuc n) = sub_ℕ m (n + 1)
plus_ℤ (negsuc m) (negsuc n) = negsuc (m + n + 1)

-- z - w
abbrev pub minus_ℤ : ℤ → ℤ → ℤ
minus_ℤ z (negsuc n) = add_ℕ z (n + 1)
minus_ℤ (pos m) (pos n) = sub_ℕ m n
minus_ℤ (negsuc m) (pos n) = negsuc (m + n)

-- z * k
abbrev pub times_ℕ : ℤ → ℕ → ℤ
times_ℕ (pos n) k = pos (n * k)
times_ℕ (negsuc n) k = neg ((n + 1) * k)

-- (int64_t)u, for an unsigned 64-bit u
abbrev pub to_int64 : ℕ → ℤ
to_int64 u = if ltb u (2 ^ 63) then pos u else negsuc (2 ^ 64 - u - 1)
