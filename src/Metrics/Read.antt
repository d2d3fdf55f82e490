-- ===== src/Metrics/Read.antt =====
-- How src/metrics.c takes numbers out of a line: fgets, strtoull and strtoll of the C library, and
-- split_key_value.
use minimoni.Prelude.{
  Bool, Bytes, List, Option, [], false, if◌then◌else◌, leb, length, ltb, neg, none, pos, refuse,
  some, suc, true, zero, ℕ, ℤ, ◌%◌, ◌++◌, ◌-◌, ◌==◌, ◌>>=◌, ◌^◌, ◌||◌, ◌∷◌,
}
use minimoni.Strtol.{is_digit, skip_spaces, take_digits, take_sign}

-- fgets into a buffer of `room + 1` bytes, called until the end of the file: lines, their newline
-- included, in pieces of `room` bytes at most. `left` is the room left, `part` the piece so far.
unfoldable pub pieces : Bytes → ℕ → ℕ → Bytes → List Bytes
pieces [] room left [] = []
pieces [] room left (p ∷ part) = (p ∷ part) ∷ []
pieces (c ∷ cs) room left part =
    let whole = part ++ c ∷ [] in
    if c == b'\n' || leb left 1
    then whole ∷ pieces cs room room []
    else pieces cs room (left - 1) whole

abbrev pub fgets_all : ℕ → Bytes → List Bytes
fgets_all size file = pieces file (size - 1) (size - 1) []

-- The first call's result.
abbrev pub first : List Bytes → Option Bytes
first [] = none
first (l ∷ ls) = some l

abbrev pub fgets : ℕ → Bytes → Option Bytes
fgets size file = first (fgets_all size file)

-- What strtoull makes of the digits: `none` when it sets errno, and a minus wraps.
abbrev pub ull_value : Bool → ℕ → Bytes → Option (ℕ × Bytes)
ull_value negative n rest =
    if ltb n (2 ^ 64) then some (if negative then (2 ^ 64 - n) % 2 ^ 64 else n, rest) else none

abbrev pub ll_value : Bool → ℕ → Bytes → Option (ℤ × Bytes)
ll_value false n rest = if ltb n (2 ^ 63) then some (pos n, rest) else none
ll_value true n rest = if leb n (2 ^ 63) then some (neg n, rest) else none

-- A number in front, behind spaces and a sign; `none` without a digit, which is `end == p`.
module _ {A : Type 0} (value : Bool → ℕ → Bytes → Option A) where
  unfoldable pub number_of : Bool → Bytes → Option A
  number_of negative [] = none
  number_of negative (c ∷ cs) =
      if is_digit c then (let (n, rest) = take_digits 0 (c ∷ cs) in value negative n rest) else none

  unfoldable pub read_number : Bytes → Option A
  unfolding number_of skip_spaces take_sign
  read_number s = let (negative, body) = take_sign (skip_spaces s) in number_of negative body

abbrev pub read_ull : Bytes → Option (ℕ × Bytes)
read_ull = read_number ull_value

abbrev pub read_ll : Bytes → Option (ℤ × Bytes)
read_ll = read_number ll_value

-- The loops that read `n` numbers, each behind the one before.
unfoldable pub read_many : {A : Type 0} → (Bytes → Option (A × Bytes)) → ℕ → Bytes → Option (List A)
read_many read zero p = some []
read_many read (suc n) p = do (v, rest) ← read p; vs ← read_many read n rest; some (v ∷ vs)

-- The first word, and what follows it.
unfoldable pub first_word : Bytes → Bytes × Bytes
first_word [] = ([], [])
first_word (c ∷ cs) =
    if c == b' ' || c == b'\t' then ([], c ∷ cs) else (c ∷ (first_word cs).0, (first_word cs).1)

unfoldable pub split_key_value : Bytes → ℕ → Option (Bytes × ℕ)
unfolding first_word
split_key_value line room = do
  key ←
      refuse (length ((first_word line).0) == 0 || leb room (length ((first_word line).0)))
        ((first_word line).0)
  (val, rest) ← read_ull ((first_word line).1)
  some (key, val)
