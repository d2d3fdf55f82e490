-- ===== src/Http/Cores.antt =====
-- count_cpulist, read_num_cores and read_temp_critical of src/http.c. `ulong_max` is ULONG_MAX. A
-- conversion to int keeps the low 32 bits; a sum that leaves int is undefined in C, and an integer
-- here.
use minimoni.Prelude.{
  Bool, Bytes, Option, [], codes, contains, false, if◌then◌else◌, is_positive, leb, length, ltb,
  negsuc, none, not, plus_ℤ, pos, pos_part, refuse, some, str_eq, suc, to_int32, zero, ℕ, ℤ, ◌%◌,
  ◌&&◌, ◌+◌, ◌-◌, ◌==◌, ◌>>=◌, ◌||◌, ◌∷◌,
}
use minimoni.Strtol.{is_digit, strtol, take_digits}
use minimoni.Double.{Double}
use minimoni.Metrics.Read.{fgets}
use minimoni.Metrics.Temp.{cut_line}

-- *s, with the closing NUL of the empty text
abbrev pub head : Bytes → ℕ
head [] = 0
head (c ∷ cs) = c

abbrev pub tail : Bytes → Bytes
tail [] = []
tail (c ∷ cs) = cs

module _ (ulong_max : ℕ) where
  -- strtoul of a text that starts with a digit
  abbrev pub strtoul : Bytes → ℕ × Bytes
  strtoul s = let (n, rest) = take_digits 0 s in (if leb n ulong_max then n else ulong_max, rest)

  -- lo, hi and end of one entry; `none` for -1
  unfoldable pub entry : Bytes → Option (ℕ × ℕ × Bytes)
  entry s =
      if not (is_digit (head s))
      then none
      else (let (lo, end) = strtoul s in
          let (hi, behind) = strtoul (tail end) in
          if not (head end == b'-')
          then some (lo, lo, end)
          else if not (is_digit (head (tail end))) || ltb hi lo
          then none
          else some (lo, hi, behind))

  -- n += (int)(hi - lo + 1)
  abbrev pub add_cpus : ℤ → ℕ → ℕ → ℤ
  add_cpus n lo hi = plus_ℤ n (to_int32 (pos ((hi - lo + 1) % (ulong_max + 1))))

  abbrev pub closes : Bytes → Bool
  closes end = head end == b'\n' || head end == 0

  -- The loop, at most `fuel` entries long; `none` for -1.
  unfoldable pub count_from : ℕ → Bytes → ℤ → Option ℤ
  count_from zero s n = none
  count_from (suc fuel) s n = do
    (lo, hi, end) ← entry s
    let total = add_cpus n lo hi in
        let rest = count_from fuel (tail end) total in
        if not (head end == b',') then (if closes end then some total else none) else rest

  -- An entry takes a byte and its comma another.
  unfoldable pub count_cpulist : Bytes → Option ℤ
  count_cpulist s = count_from (length s + 1) s (pos 0)

  -- return n > 0 ? n : 1
  abbrev pub or_one : Option ℤ → ℕ
  or_one none = 1
  or_one (some (pos n)) = if ltb 0 n then n else 1
  or_one (some (negsuc n)) = 1

  abbrev pub whole_line : Option Bytes → Option Bytes
  whole_line o = do buf ← o; refuse (not (contains b'\n' buf)) buf

  unfoldable pub read_num_cores : Option Bytes → ℕ
  read_num_cores file = or_one (whole_line (file >>= fgets 64) >>= count_cpulist)

abbrev pub is_critical : Option Bytes → Bool
is_critical none = false
is_critical (some line) = str_eq (cut_line line) (codes "critical")

module _ {D : Type 0} ⦃d : Double D⦄ (long_max : ℕ) where
  abbrev pub critical_of : ℤ × Bytes → Bytes → Option D
  critical_of (md, rest) buf =
      if not (length rest == length buf) && is_positive md
      then some (d.over (d.literal (pos_part md) 0) (d.literal 1000 0))
      else none

  abbrev pub critical_in : Option Bytes → Option D
  critical_in file = do buf ← file >>= fgets 32; critical_of (strtol long_max buf) buf

  -- The loop over the trip points: `left` of the 16 are left. `none` while temp_critical_valid is 0.
  unfoldable pub trip_from : (ℕ → Option Bytes) → (ℕ → Option Bytes) → ℕ → ℕ → Option D
  trip_from trip_type trip_temp zero i = none
  trip_from trip_type trip_temp (suc left) i =
      let rest = trip_from trip_type trip_temp left (i + 1) in
      elim (trip_type i) [
        | none ↦ none
        | some file ↦ if not (is_critical (fgets 32 file)) then rest else critical_in (trip_temp i)
      ]

  unfoldable pub read_temp_critical : (ℕ → Option Bytes) → (ℕ → Option Bytes) → Option D
  read_temp_critical trip_type trip_temp = trip_from trip_type trip_temp 16 0
