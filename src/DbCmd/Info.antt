-- ===== src/DbCmd/Info.antt =====
-- The texts of `db info` in src/db_cmd.c: format_size, format_duration, format_application_id,
-- format_bucket_label and the tier table. `fixed k x` is printf("%.<k>f"). The sizes of the buffers,
-- which these texts fit, are not modelled.
use minimoni.Prelude.{
  Bytes, List, Option, [], codes, if◌then◌else◌, leb, length, ltb, negsuc, none, pos, replicate,
  some, suc, zero, ℕ, ℤ, ◌%◌, ◌++◌, ◌+◌, ◌-◌, ◌/◌, ◌==◌, ◌^◌, ◌∷◌,
}
use minimoni.Double.{Double}
use minimoni.Json.Buffer.{digits_of}
use minimoni.Db.Open.{application_id, holds}

-- printf("%ld") of a number that is not negative
abbrev pub decimal_of : ℕ → Bytes
decimal_of n = digits_of 20 n []

-- printf("%*s")
abbrev pub pad_to : ℕ → Bytes → Bytes
pad_to width s = replicate (width - length s) b' ' ++ s

-- printf("%X"), a digit a step, and an unsigned int has at most 8.
unfoldable pub hex_of : ℕ → ℕ → Bytes → Bytes
hex_of zero n behind = behind
hex_of (suc fuel) n behind =
    let now = (if ltb (n % 16) 10 then b'0' + n % 16 else b'A' + (n % 16 - 10)) ∷ behind in
    let more = hex_of fuel (n / 16) now in if n / 16 == 0 then now else more

-- app_id & 0xFFFFFFFF
abbrev pub low_word : ℤ → ℕ
low_word (pos n) = n % 2 ^ 32
low_word (negsuc n) = 2 ^ 32 - 1 - n % 2 ^ 32

abbrev pub signed : ℤ → Bytes
signed (pos n) = decimal_of n
signed (negsuc n) = b'-' ∷ decimal_of (n + 1)

unfoldable pub format_application_id : ℤ → ℤ → Bytes
format_application_id app_id version =
    if holds application_id (some app_id)
    then codes "moni v" ++ signed version
    else codes "0x" ++ (hex_of 8 (low_word app_id) [] ++ codes " (not a minimoni database)")

-- The number and the unit of format_bucket_label, for a size that is not negative.
unfoldable pub bucket_label : ℕ → ℕ × ℕ
bucket_label bucket_sec =
    if ltb bucket_sec 60
    then (bucket_sec, b's')
    else if ltb bucket_sec 3600
    then (bucket_sec / 60, b'm')
    else if ltb bucket_sec 86400
    then (bucket_sec / 3600, b'h')
    else (bucket_sec / 86400, b'd')

unfoldable pub format_bucket_label : ℕ → Bytes
format_bucket_label bucket_sec =
    let (n, unit) = bucket_label bucket_sec in decimal_of n ++ (unit ∷ [])

-- One line of the tier table: "  NULL: %5ld %s\n" or "  %3s: %5ld %s\n".
unfoldable pub tier_line : Option ℕ → ℕ → Bytes
tier_line bucket n =
    codes "  "
    ++ label bucket
    ++ codes ": "
    ++ pad_to 5 (decimal_of n)
    ++ (if n == 1 then codes " row" else codes " rows")
    ++ (b'\n' ∷ [])
  where
    label : Option ℕ → Bytes
    label none = codes "NULL"
    label (some b) = pad_to 3 (format_bucket_label b)

unfoldable pub tier_lines : List (Option ℕ × ℕ) → Bytes
tier_lines [] = []
tier_lines ((bucket, n) ∷ tiers) = tier_line bucket n ++ tier_lines tiers

module _ {D : Type 0} ⦃d : Double D⦄ (fixed : ℕ → D → Bytes) where
  -- bytes of a file size, which is not negative
  unfoldable pub format_size : ℕ → Bytes
  format_size bytes =
      if leb 1073741824 bytes
      then fixed 1 (d.over (d.literal bytes 0) (d.literal 1073741824 0)) ++ codes " GB"
      else if leb 1048576 bytes
      then fixed 1 (d.over (d.literal bytes 0) (d.literal 1048576 0)) ++ codes " MB"
      else if leb 1024 bytes
      then fixed 1 (d.over (d.literal bytes 0) (d.literal 1024 0)) ++ codes " KB"
      else decimal_of bytes ++ codes " bytes"

  unfoldable pub format_duration : D → Bytes
  format_duration seconds =
      if d.lt seconds (d.literal 0 0)
      then codes "0 seconds"
      else if d.lt seconds (d.literal 60 0)
      then fixed 0 seconds ++ codes " seconds"
      else if d.lt seconds (d.literal 3600 0)
      then fixed 0 (d.over seconds (d.literal 60 0)) ++ codes " minutes"
      else if d.lt seconds (d.literal 86400 0)
      then fixed 1 (d.over seconds (d.literal 3600 0)) ++ codes " hours"
      else if d.lt seconds (d.times (d.literal 86400 0) (d.literal 365 0))
      then fixed 1 (d.over seconds (d.literal 86400 0)) ++ codes " days"
      else fixed 2 (d.over seconds (d.times (d.literal 86400 0) (d.literal 36525 2)))
        ++ codes " years"
