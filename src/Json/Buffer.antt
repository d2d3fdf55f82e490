-- ===== src/Json/Buffer.antt =====
-- jbuf_t of src/json.h and its writers in src/json.c. `text` is the buffer up to `pos`, which is
-- its length; the NUL behind it is not kept. A value past 32 bits is not reached: every caller's
-- buffer is a few kilobytes.
pub mod Fields
pub mod Object
use minimoni.Prelude.{
  Bool, Bytes, Option, [], codes, false, if◌then◌else◌, leb, length, none, not, some, suc, take,
  true, zero, ℕ, ◌%◌, ◌++◌, ◌+◌, ◌-◌, ◌/◌, ◌==◌, ◌||◌, ◌∷◌,
}
use minimoni.Double.{Double}
use minimoni.Json.Escape.{json_escape}

pub record Jbuf : Type 0 where
  pub text : Bytes
  pub size : ℕ
  pub comma : Bool
  pub overflow : Bool

abbrev pub jbuf_init : ℕ → Jbuf
jbuf_init size = record { text = []; size = size; comma = false; overflow = false }

unfoldable pub jbuf_raw : Jbuf → Bytes → Jbuf
jbuf_raw j s =
    if leb j.size (length j.text + length s)
    then record j { overflow = true }
    else record j { text = j.text ++ s }

unfoldable pub jbuf_sep : Jbuf → Jbuf
jbuf_sep j = record (if j.comma then jbuf_raw j (b',' ∷ []) else j) { comma = true }

unfoldable pub jbuf_begin : Jbuf → Jbuf
jbuf_begin j = record (jbuf_raw j (b'{' ∷ [])) { comma = false }

unfoldable pub jbuf_end : Jbuf → Jbuf
jbuf_end j = jbuf_raw j (b'}' ∷ [])

-- The whole field with its comma, or nothing; `false` is -1.
unfoldable pub jbuf_field : Jbuf → Bytes → Jbuf × Bool
jbuf_field j field =
    if leb j.size (length j.text + (if j.comma then 1 else 0) + length field)
    then (record j { overflow = true }, false)
    else (jbuf_raw (jbuf_sep j) field, true)

-- "key":
abbrev pub quoted : Bytes → Bytes
quoted s = b'"' ∷ (s ++ b'"' ∷ [])

abbrev pub labelled : Bytes → Bytes → Bytes
labelled key value = quoted key ++ (b':' ∷ value)

-- snprintf into a buffer of `size` bytes, whose result the caller does not look at
abbrev pub cut : ℕ → Bytes → Bytes
cut size s = take (size - 1) s

-- The last lines of jbuf_str, with the text that snprintf makes.
unfoldable pub put_str : Jbuf → Bytes → Jbuf
put_str j tmp =
    if leb 1152 (length tmp)
    then record j { overflow = true }
    else (let (j', done) = jbuf_field j tmp in if done then j' else record j' { overflow = true })

unfoldable pub jbuf_str_of : Jbuf → Option Bytes → Option Bytes → Jbuf
jbuf_str_of j (some ekey) (some eval) = put_str j (labelled ekey (quoted eval))
jbuf_str_of j _ _ = record j { overflow = true }

unfoldable pub jbuf_str : Jbuf → Bytes → Bytes → Jbuf
jbuf_str j key val = jbuf_str_of j (json_escape 64 key) (json_escape 1024 val)

-- printf("%ld") of a number that is not negative; a digit a step, and a long has at most 19.
pub digits_of : ℕ → ℕ → Bytes → Bytes
digits_of zero n after = after
digits_of (suc fuel) n after =
    let now = (b'0' + n % 10) ∷ after in
    let more = digits_of fuel (n / 10) now in if n / 10 == 0 then now else more

unfoldable pub jbuf_long : Jbuf → Bytes → ℕ → Jbuf
jbuf_long j key val = (jbuf_field j (cut 64 (labelled key (digits_of 20 val [])))).0

unfoldable pub jbuf_null : Jbuf → Bytes → Jbuf
jbuf_null j key = (jbuf_field j (cut 64 (labelled key (codes "null")))).0

module _ {D : Type 0} ⦃d : Double D⦄ where
  unfoldable pub jbuf_real : Jbuf → Bytes → D → Jbuf
  jbuf_real j key val =
      if not (d.is_finite val)
      then jbuf_null j key
      else (jbuf_field j (cut 128 (labelled key (d.format_g 4 val)))).0

  unfoldable pub jbuf_pair : Jbuf → Bytes → D → D → Jbuf
  jbuf_pair j key warn crit =
      (jbuf_field j (
        cut 128 (
          labelled key
            (b'[' ∷ (d.format_g 6 warn ++ (b',' ∷ (d.format_g 6 crit ++ b']' ∷ []))))))).0

-- One element of an open array. The flag is `*emitted`.
unfoldable pub jbuf_array_str_of : Jbuf → Bool → Option Bytes → Jbuf × Bool
jbuf_array_str_of j emitted none = (j, emitted)
jbuf_array_str_of j emitted (some esc) =
    let tmp = (if emitted then b',' ∷ [] else []) ++ quoted esc in
    if leb 112 (length tmp) || leb j.size (length j.text + length tmp)
    then (j, emitted)
    else (jbuf_raw j tmp, true)

unfoldable pub jbuf_array_str : Jbuf → Bytes → Bool → Jbuf × Bool
jbuf_array_str j s emitted = jbuf_array_str_of j emitted (json_escape 96 s)
