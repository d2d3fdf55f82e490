-- ===== src/Json/Escape/Exact.antt =====
-- json_escape of src/json.c and the room that it needs.
use native.Mathlib.Nat.{add_assoc}
use minimoni.Prelude.{
  Bool-cases, Bytes, [], append-nil, append_assoc, arith, if◌then◌else◌, inl, inr, leb, length,
  length-append, ltb, none, refl, some, ℕ, ◌*◌, ◌++◌, ◌+◌, ◌<◌, ◌∙◌, ◌∷◌, ◌≡◌, ◌≤◌,
}
use minimoni.Json.Escape.{escape_byte, escape_from, json_escape}

-- The escaped text with no bound.
unfoldable pub escaped : Bytes → Bytes
escaped [] = []
escaped (c ∷ src) = escape_byte c ++ escaped src

escape_from-escaped :
    (src out : Bytes) (size : ℕ)
    → length out < size
    → escape_from size out src
      ≡ (if ltb (length out + length (escaped src)) size then some (out ++ escaped src) else none)
unfolding escape_from escaped
escape_from-escaped [] out size h = rw append-nil (ground arith)
escape_from-escaped (c ∷ src) out size h =
    elim (Bool-cases (leb size (length out + length (escape_byte c)))) [
      | inl full ↦ rw (full, length-append) (ground arith)
      | inr room ↦ rw room (
          escape_from-escaped src (out ++ escape_byte c) size (rw length-append (ground arith))
          ∙ rw (append_assoc, length-append, length-append, add_assoc) refl)
    ]

-- json_escape writes the whole escaped text exactly if it leaves room for the closing NUL, and
-- answers -1 otherwise.
pub json_escape-escaped :
    (size : ℕ) (src : Bytes)
    → json_escape size src ≡ (if ltb (length (escaped src)) size then some (escaped src) else none)
unfolding json_escape
json_escape-escaped size src = ground (arith, escape_from-escaped src [] size)

length-escape_byte : (c : ℕ) → length (escape_byte c) ≤ 6
unfolding escape_byte
length-escape_byte c = ground arith

length-escaped : (src : Bytes) → length (escaped src) ≤ 6 * length src
unfolding escaped
length-escaped [] = omega arith
length-escaped (c ∷ src) =
    rw length-append (omega (arith, length-escape_byte c, length-escaped src))

-- An escaped text is at most six times as long as the text, so that a buffer of more than that is
-- always enough for json_escape.
pub json_escape_fits :
    (size : ℕ) (src : Bytes)
    → 6 * length src < size
    → (out : Bytes) × (json_escape size src ≡ some out) × (length out ≤ 6 * length src)
json_escape_fits size src h =
    let short = length-escaped src in (escaped src, rw json_escape-escaped (ground arith), short)
