-- ===== src/Json/Buffer/Fields.antt =====
-- The bounds of the JSON buffer of src/json.c, and the writing of one field.
use minimoni.Prelude.{
  Bool, Bytes, [], append_assoc, arith, false, if◌then◌else◌, length, length-append, ltb, true,
  ◌++◌, ◌+◌, ◌<◌, ◌∷◌, ◌≡◌,
}
use minimoni.Json.Buffer.{Jbuf, jbuf_field, jbuf_raw, jbuf_sep}

-- The text leaves room for the closing NUL.
abbrev pub Fits : Jbuf → Type 0
Fits j = length j.text < j.size

-- What a writer may do to a buffer: it stays within the same bounds, its text only grows, and an
-- overflow is never taken back.
pub record Grows (j j' : Jbuf) : Type 0 where
  pub bounded : Fits j'
  pub same_size : j'.size ≡ j.size
  pub extends : (more : Bytes) × (j'.text ≡ j.text ++ more)
  pub sticky : j.overflow ≡ true → j'.overflow ≡ true

abbrev pub comma_of : Bool → Bytes
comma_of comma = if comma then b',' ∷ [] else []

-- jbuf_field writes the whole field with its comma, or only records the overflow: it writes exactly
-- if that leaves room for the closing NUL.
pub jbuf_field-whole :
    (j : Jbuf) (field : Bytes)
    → Fits j
    → jbuf_field j field ≡ (
        if ltb (length j.text + length (comma_of j.comma) + length field) j.size
        then (record j { text = j.text ++ (comma_of j.comma ++ field); comma = true }, true)
        else (record j { overflow = true }, false))
unfolding jbuf_field jbuf_sep jbuf_raw
jbuf_field-whole j field h =
    ground (arith, length-append j.text (b',' ∷ []), append_assoc j.text (b',' ∷ []) field)
