-- ===== src/Strtol.antt =====
-- strtol(s, &end, 10) of the C library, as config.c, main.c, http.c and metrics.c use it.
-- `long_max` is LONG_MAX: 2^63 - 1, and 2^31 - 1 on the 32-bit builds. Past it the value stays
-- there; with no digit the value is 0 and `end` is the whole text.
pub mod Decimal
pub mod Suffix
use minimoni.Prelude.{
  Bool, Bytes, [], false, if◌then◌else◌, leb, neg, pos, true, ℕ, ℤ, ◌&&◌, ◌*◌, ◌+◌, ◌-◌, ◌==◌, ◌||◌,
  ◌∷◌,
}

-- isspace of the C locale
abbrev pub is_space : ℕ → Bool
is_space c = c == b' ' || (leb 9 c && leb c 13)

-- isdigit
abbrev pub is_digit : ℕ → Bool
is_digit c = leb b'0' c && leb c b'9'

unfoldable pub skip_spaces : Bytes → Bytes
skip_spaces [] = []
skip_spaces (c ∷ cs) = if is_space c then skip_spaces cs else c ∷ cs

-- The sign, `true` for a minus, and what follows it.
unfoldable pub take_sign : Bytes → Bool × Bytes
take_sign [] = (false, [])
take_sign (c ∷ cs) =
    if c == b'-' then (true, cs) else if c == b'+' then (false, cs) else (false, c ∷ cs)

-- The number that the digits make behind `acc`, and what follows them.
unfoldable pub take_digits : ℕ → Bytes → ℕ × Bytes
take_digits acc [] = (acc, [])
take_digits acc (c ∷ cs) =
    if is_digit c then take_digits (acc * 10 + (c - b'0')) cs else (acc, c ∷ cs)

module _ (long_max : ℕ) where
  -- LONG_MAX or LONG_MIN when the number is out of range
  abbrev clamped : Bool → ℕ → ℤ
  clamped false n = pos (if leb n long_max then n else long_max)
  clamped true n = neg (if leb n (long_max + 1) then n else long_max + 1)

  unfoldable pub from_digits : Bytes → Bool → Bytes → ℤ × Bytes
  from_digits s negative [] = (pos 0, s)
  from_digits s negative (c ∷ cs) =
      if is_digit c
      then (let (n, rest) = take_digits 0 (c ∷ cs) in (clamped negative n, rest))
      else (pos 0, s)

  unfoldable pub strtol : Bytes → ℤ × Bytes
  unfolding skip_spaces take_sign take_digits from_digits
  strtol s = let (negative, body) = take_sign (skip_spaces s) in from_digits s negative body
