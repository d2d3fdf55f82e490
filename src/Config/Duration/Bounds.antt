-- ===== src/Config/Duration/Bounds.antt =====
-- The values that parse_duration of src/config.c answers.
use minimoni.Prelude.{
  Bytes, [], arith, if◌then◌else◌, leb, ltb, negsuc, none, pos, some, suc, zero, ℕ, ℤ, ◌&&◌, ◌*◌,
  ◌++◌, ◌<◌, ◌==◌, ◌^◌, ◌∷◌, ◌≡◌, ◌≤◌, ◌⊎◌,
}
use minimoni.Strtol.Decimal.{AllDigits, decimal, strtol-decimal}
use minimoni.Strtol.{strtol}
use minimoni.Config.Duration.{duration_of, parse_duration, scaled}

scaled_bounds : (u n d : ℕ) → 0 < n → scaled u n ≡ some d → (0 < d) × (d ≤ 3653 * 86400)
unfolding scaled
scaled_bounds u n d h e = ground arith

duration_of_bounds :
    (n : ℤ) (end : Bytes) (d : ℕ) → duration_of n end ≡ some d → (0 < d) × (d ≤ 3653 * 86400)
unfolding duration_of
duration_of_bounds n [] d e = cc
duration_of_bounds (pos (suc n)) (u ∷ []) d e = scaled_bounds u (suc n) d (omega arith) e
duration_of_bounds (pos zero) (u ∷ []) d e = cc
duration_of_bounds (negsuc n) (u ∷ []) d e = cc
duration_of_bounds n (u ∷ v ∷ rest) d e = cc

module _ (long_max : ℕ) where
  -- Whatever the text, a duration that parse_duration accepts is at least a second and at most 3653
  -- days, so that it fits a 32-bit long too.
  pub parse_duration_bounds :
      (s : Bytes) (d : ℕ)
      → parse_duration long_max s ≡ some d
      → (0 < d) × (d ≤ 3653 * 86400) × (d < 2 ^ 31)
  unfolding parse_duration
  parse_duration_bounds s d e =
      let bounds = duration_of_bounds (strtol long_max s).0 (strtol long_max s).1 d e in
      (bounds.0, bounds.1, omega arith)

abbrev unit_seconds : ℕ → ℕ
unit_seconds u =
    if u == b's' then 1 else if u == b'm' then 60 else if u == b'h' then 3600 else 86400

abbrev IsUnit : ℕ → Type 0
IsUnit u = (u ≡ b's') ⊎ (u ≡ b'm') ⊎ (u ≡ b'h') ⊎ (u ≡ b'd')

-- A run of digits and a unit is read as its number of units in seconds, and refused exactly if it
-- is zero or longer than 3653 days.
pub parse_duration-decimal :
    (long_max d : ℕ) (ds : Bytes) (u : ℕ)
    → AllDigits (d ∷ ds)
    → IsUnit u
    → 3653 * 86400 < long_max
    → parse_duration long_max ((d ∷ ds) ++ u ∷ []) ≡ (
        if ltb 0 (decimal (d ∷ ds)) && leb (decimal (d ∷ ds) * unit_seconds u) (3653 * 86400)
        then some (decimal (d ∷ ds) * unit_seconds u)
        else none)
unfolding parse_duration duration_of scaled
parse_duration-decimal long_max d ds u digits unit big =
    ground (arith, strtol-decimal long_max d ds (u ∷ []) digits)
