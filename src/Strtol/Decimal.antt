-- ===== src/Strtol/Decimal.antt =====
-- The value of a run of decimal digits, and strtol on it.
use native.Mathlib.Nat.{pow-suc}
use minimoni.Prelude.{
  All, Bytes, [], ap, arith, codes, false, if◌then◌else◌, leb, length, negsuc, pos, refl, true, ℕ,
  ◌*◌, ◌++◌, ◌+◌, ◌-◌, ◌^◌, ◌∙◌, ◌∷◌, ◌≡◌,
}
use minimoni.Strtol.{is_digit, strtol, take_digits}

abbrev pub AllDigits : Bytes → Type 0
AllDigits = All (λ c. is_digit c ≡ true)

-- The number that digits stand for, most significant first.
unfoldable pub decimal : Bytes → ℕ
decimal [] = 0
decimal (c ∷ cs) = (c - b'0') * 10 ^ length cs + decimal cs

-- What ends a number: no digit comes first.
abbrev pub StopsAt : Bytes → Type 0
StopsAt [] = Unit
StopsAt (c ∷ cs) = is_digit c ≡ false

take_digits-stop : (acc : ℕ) (rest : Bytes) → StopsAt rest → take_digits acc rest ≡ (acc, rest)
unfolding take_digits
take_digits-stop acc [] h = refl
take_digits-stop acc (c ∷ cs) h = rw h

take_digits-decimal :
    (ds rest : Bytes) (acc : ℕ)
    → AllDigits ds
    → StopsAt rest
    → take_digits acc (ds ++ rest) ≡ (acc * 10 ^ length ds + decimal ds, rest)
unfolding take_digits decimal
take_digits-decimal [] rest acc h stop =
    take_digits-stop acc rest stop ∙ ap (λ (n : ℕ). (n, rest)) (omega arith)
take_digits-decimal (c ∷ ds) rest acc h stop = rw h.0 (
    take_digits-decimal ds rest (acc * 10 + (c - b'0')) h.1 stop
    ∙ ap (λ n. (n, rest)) (rw pow-suc (grind arith)))

-- strtol reads a run of digits as the number that they stand for, LONG_MAX at most, and stops
-- behind it.
pub strtol-decimal :
    (long_max d : ℕ) (ds rest : Bytes)
    → AllDigits (d ∷ ds)
    → StopsAt rest
    → strtol long_max ((d ∷ ds) ++ rest)
      ≡ (pos (if leb (decimal (d ∷ ds)) long_max then decimal (d ∷ ds) else long_max), rest)
unfolding strtol
strtol-decimal long_max d ds rest h stop =
    let read = take_digits-decimal (d ∷ ds) rest 0 h stop in ground (arith, h.0, read)

strtol_test : strtol 1000 (codes "  -0042x") ≡ (negsuc 41, codes "x")
unfolding strtol
strtol_test = refl
