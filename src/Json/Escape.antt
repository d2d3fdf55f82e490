-- ===== src/Json/Escape.antt =====
-- json_escape of src/json.c.
pub mod Exact
pub mod Decode
use minimoni.Prelude.{
  Bytes, Option, [], if◌then◌else◌, leb, length, ltb, none, some, ℕ, ◌%◌, ◌++◌, ◌+◌, ◌-◌, ◌/◌, ◌==◌,
  ◌∷◌,
}

-- One digit of printf's %x.
abbrev pub hex_digit : ℕ → ℕ
hex_digit n = if ltb n 10 then b'0' + n else b'a' + (n - 10)

-- snprintf "\\u%04x" of a byte below 0x20
abbrev pub unicode_escape : ℕ → Bytes
unicode_escape c = b'\\' ∷ b'u' ∷ b'0' ∷ b'0' ∷ hex_digit (c / 16) ∷ hex_digit (c % 16) ∷ []

-- The switch: what is written for a byte, `rep` or the byte itself.
unfoldable pub escape_byte : ℕ → Bytes
escape_byte c =
    if c == b'"'
    then b'\\' ∷ b'"' ∷ []
    else if c == b'\\'
    then b'\\' ∷ b'\\' ∷ []
    else if c == b'\n'
    then b'\\' ∷ b'n' ∷ []
    else if c == b'\r'
    then b'\\' ∷ b'r' ∷ []
    else if c == b'\t'
    then b'\\' ∷ b't' ∷ []
    else if c == 8
    then b'\\' ∷ b'b' ∷ []
    else if c == 12
    then b'\\' ∷ b'f' ∷ []
    else if ltb c 0x20
    then unicode_escape c
    else c ∷ []

-- The loop: `out` is what has been written, `o` bytes of it. `none` is -1.
unfoldable pub escape_from : ℕ → Bytes → Bytes → Option Bytes
escape_from size out [] = some out
escape_from size out (c ∷ src) =
    let rest = escape_from size (out ++ escape_byte c) src in
    if leb size (length out + length (escape_byte c)) then none else rest

unfoldable pub json_escape : ℕ → Bytes → Option Bytes
json_escape size src = if size == 0 then none else escape_from size [] src
