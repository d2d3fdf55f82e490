-- ===== src/Json/Escape/Decode.antt =====
-- What json_escape of src/json.c writes, read back as the body of a JSON string.
use minimoni.Json.Escape.Exact.{escaped, json_escape-escaped}
use minimoni.Json.Escape.{escape_byte, json_escape}
use minimoni.Prelude.{
  Bool, Bytes, Option, [], arith, if◌then◌else◌, leb, none, not, refl, some, ℕ, ◌&&◌, ◌*◌, ◌++◌,
  ◌+◌, ◌-◌, ◌==◌, ◌||◌, ◌∙◌, ◌∷◌, ◌≡◌,
}

-- The value of a hexadecimal digit in lower case.
hex_value : ℕ → Option ℕ
hex_value c =
    if leb b'0' c && leb c b'9'
    then some (c - b'0')
    else if leb b'a' c && leb c b'f'
    then some (c - b'a' + 10)
    else none

-- The two-character escapes of RFC 8259 that have one byte for a meaning.
simple_escape : ℕ → Option ℕ
simple_escape c =
    if c == b'"' || c == b'\\' || c == b'/'
    then some c
    else if c == b'n'
    then some b'\n'
    else if c == b'r'
    then some b'\r'
    else if c == b't'
    then some b'\t'
    else if c == b'b'
    then some 8
    else if c == b'f'
    then some 12
    else none

-- A byte that a JSON string may hold as it is: no control character, quote or backslash.
is_plain : ℕ → Bool
is_plain c = leb 0x20 c && not (c == b'"') && not (c == b'\\')

data Mode : Type 0 where
  plain escape : Mode
  hex : ℕ → ℕ → Mode

-- One byte of the body: the mode behind it, and what it adds to the meaning. `hex n v` is a \u
-- escape with `n` digits to come behind the value `v`.
read_byte : Mode → ℕ → Option (Mode × Bytes)
read_byte plain c =
    if c == b'\\' then some (escape, []) else if is_plain c then some (plain, c ∷ []) else none
read_byte escape c =
    if c == b'u'
    then some (hex 4 0, [])
    else elim (simple_escape c) [ none ↦ none | some x ↦ some (plain, x ∷ []) ]
read_byte (hex n v) c = elim (hex_value c) [
  | none ↦ none
  | some x ↦ if n == 1 then some (plain, (v * 16 + x) ∷ []) else some (hex (n - 1) (v * 16 + x), [])
]

onto : Bytes → Option Bytes → Option Bytes
onto out none = none
onto out (some rest) = some (out ++ rest)

decode_in : Mode → Bytes → Option Bytes
decode_in plain [] = some []
decode_in escape [] = none
decode_in (hex n v) [] = none
decode_in m (c ∷ cs) = elim (read_byte m c) [
  | none ↦ none
  | some (m', out) ↦ onto out (decode_in m' cs)
]

-- What the body of a JSON string means, `none` for a text that is none: RFC 8259, section 7, with
-- a \u escape for one number.
pub decode : Bytes → Option Bytes
decode = decode_in plain

decode-escape_byte :
    (c : ℕ) (rest : Bytes)
    → decode_in plain (escape_byte c ++ rest) ≡ onto (c ∷ []) (decode_in plain rest)
unfolding decode_in read_byte simple_escape hex_value is_plain escape_byte onto
decode-escape_byte c rest = ground arith

decode-escaped : (src : Bytes) → decode_in plain (escaped src) ≡ some src
unfolding escaped
decode-escaped [] = unfold decode_in in refl
decode-escaped (c ∷ src) =
    decode-escape_byte c (escaped src) ∙ rw (decode-escaped src) (unfold onto in refl)

-- What json_escape writes is the body of a JSON string that means the text again: it holds no bare
-- control character, quote or backslash, and nothing is lost.
pub decode-json_escape :
    (size : ℕ) (src out : Bytes) → json_escape size src ≡ some out → decode out ≡ some src
unfolding decode
decode-json_escape size src out h =
    let exact : out ≡ escaped src = ground (arith, json_escape-escaped size src) in
    rw exact (decode-escaped src)
