-- ===== src/Config/Duration.antt =====
-- parse_duration, valid_range and range_in_bounds of src/config.c, and range_to_days of
-- src/main.c, which read the same texts. `none` is parse_duration's -1.
pub mod Bounds
pub mod Days
use minimoni.Prelude.{
  Bool, Bytes, Option, [], add_ℕ, false, if◌then◌else◌, is_positive, le_ℕ, leb, none, pos, pos_part,
  quot_ℕ, some, to_int32, ℕ, ℤ, ◌&&◌, ◌*◌, ◌==◌, ◌||◌, ◌∷◌,
}
use minimoni.Strtol.{strtol}

-- The switch on the unit. The cap comes before the product.
unfoldable pub scaled : ℕ → ℕ → Option ℕ
scaled u n =
    if u == b's'
    then (if leb n (3653 * 86400) then some n else none)
    else if u == b'm'
    then (if leb n (3653 * 1440) then some (n * 60) else none)
    else if u == b'h'
    then (if leb n (3653 * 24) then some (n * 3600) else none)
    else if u == b'd'
    then (if leb n 3653 then some (n * 86400) else none)
    else none

-- n <= 0 || !*end || end[1]
unfoldable pub duration_of : ℤ → Bytes → Option ℕ
duration_of n [] = none
duration_of n (u ∷ []) = if is_positive n then scaled u (pos_part n) else none
duration_of n (u ∷ v ∷ rest) = none

abbrev pub is_range_unit : ℕ → Bool
is_range_unit u = u == b'm' || u == b'h' || u == b'd'

unfoldable pub range_of : ℤ → Bytes → Bool
range_of n [] = false
range_of n (u ∷ []) = is_positive n && is_range_unit u
range_of n (u ∷ v ∷ rest) = false

-- s[strlen(s) - 1]; the callers' texts are not empty
unfoldable pub last_byte : Bytes → ℕ
last_byte [] = 0
last_byte (c ∷ []) = c
last_byte (c ∷ d ∷ s) = last_byte (d ∷ s)

abbrev pub in_bounds : ℕ → ℤ → Bool
in_bounds u n =
    if u == b'm'
    then le_ℕ n 120
    else if u == b'h'
    then le_ℕ n 72
    else if u == b'd'
    then le_ℕ n 3653
    else false

-- src/main.c: days, rounded up
abbrev pub days_of : ℕ → ℤ → ℤ
days_of u n =
    if u == b'd'
    then n
    else if u == b'h'
    then quot_ℕ (add_ℕ n 23) 24
    else if u == b'm'
    then quot_ℕ (add_ℕ n 1439) 1440
    else pos 1

module _ (long_max : ℕ) where
  unfoldable pub parse_duration : Bytes → Option ℕ
  parse_duration s = let (n, end) = strtol long_max s in duration_of n end

  unfoldable pub valid_range : Bytes → Bool
  valid_range s = let (n, end) = strtol long_max s in range_of n end

  unfoldable pub range_in_bounds : Bytes → Bool
  range_in_bounds s = let (n, end) = strtol long_max s in in_bounds (last_byte s) n

  pub range_to_days : Bytes → ℤ
  range_to_days r = let (n, end) = strtol long_max r in days_of (last_byte r) (to_int32 n)
