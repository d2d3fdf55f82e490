-- ===== src/Config/Duration/Days.antt =====
-- The ranges that config_load of src/config.c accepts, as its parse_duration and as range_to_days
-- of src/main.c read them.
use mathlib.Core.Bool.{false≢true}
use minimoni.Prelude.{
  Bool-cases, Bytes, Option, [], ap, arith, false≢true, inl, inr, negsuc, pos, refl, some, suc,
  to_int32, true, zero, ℕ, ℤ, ◌*◌, ◌++◌, ◌+◌, ◌/◌, ◌<◌, ◌==◌, ◌∙◌, ◌∷◌, ◌≡◌, ◌≤◌,
}
use minimoni.Strtol.Suffix.{strtol-Suffix}
use minimoni.Strtol.{strtol}
use minimoni.Config.Duration.{
  days_of, duration_of, in_bounds, last_byte, parse_duration, range_in_bounds, range_of,
  range_to_days, scaled, valid_range,
}

last_byte-append : (p : Bytes) (u : ℕ) → last_byte (p ++ u ∷ []) ≡ u
unfolding last_byte
last_byte-append [] u = refl
last_byte-append (c ∷ []) u = refl
last_byte-append (c ∷ d ∷ p) u = last_byte-append (d ∷ p) u

last_byte-strtol :
    (long_max : ℕ) (s : Bytes) (u : ℕ) → (strtol long_max s).1 ≡ u ∷ [] → last_byte s ≡ u
last_byte-strtol long_max s u e =
    let (p, f) = strtol-Suffix long_max s in
    ap last_byte (f ∙ ap (λ x. p ++ x) e) ∙ last_byte-append p u

-- The days that a range text asks for are those of its duration, rounded up.
abbrev pub Rounds : Option ℕ → ℤ → Type 0
Rounds duration days =
    (d : ℕ) × (n : ℕ) × (duration ≡ some d)
    × (days ≡ pos n)
    × (d ≤ n * 86400)
    × (n * 86400 < d + 86400)

parts-Rounds :
    (n u : ℕ)
    → range_of (pos (suc n)) (u ∷ []) ≡ true
    → in_bounds u (pos (suc n)) ≡ true
    → Rounds (scaled u (suc n)) (days_of u (to_int32 (pos (suc n))))
unfolding range_of scaled
parts-Rounds n u r b = elim (Bool-cases (u == b'm')) [
  | inl m ↦
      (suc n * 60, (suc n + 1439) / 1440, ground arith, ground arith, omega arith, omega arith)
  | inr x ↦ elim (Bool-cases (u == b'h')) [
    | inl m ↦
        (suc n * 3600, (suc n + 23) / 24, ground arith, ground arith, ground arith, ground arith)
    | inr y ↦ (suc n * 86400, suc n, ground arith, ground arith, ground arith, ground arith)
  ]
]

of_parts :
    (n : ℤ) (end : Bytes) (last : ℕ)
    → ((u : ℕ) → end ≡ u ∷ [] → last ≡ u)
    → range_of n end ≡ true
    → in_bounds last n ≡ true
    → Rounds (duration_of n end) (days_of last (to_int32 n))
unfolding range_of duration_of
of_parts n [] last h r b = absurd (false≢true r)
of_parts (pos (suc n)) (u ∷ []) last h r b = rw (h u refl) (parts-Rounds n u r (rw (h u refl) at b))
of_parts (pos zero) (u ∷ []) last h r b = absurd (false≢true r)
of_parts (negsuc n) (u ∷ []) last h r b = absurd (false≢true r)
of_parts n (u ∷ v ∷ rest) last h r b = absurd (false≢true r)

-- Every range text that config_load keeps is a duration, which parse_duration does not refuse, and
-- range_to_days is that duration in days, rounded up.
pub range_to_days-Rounds :
    (long_max : ℕ) (s : Bytes)
    → valid_range long_max s ≡ true
    → range_in_bounds long_max s ≡ true
    → Rounds (parse_duration long_max s) (range_to_days long_max s)
unfolding valid_range range_in_bounds parse_duration range_to_days
range_to_days-Rounds long_max s valid bounded =
    of_parts (strtol long_max s).0 (strtol long_max s).1 (last_byte s) (last_byte-strtol long_max s)
      valid bounded
