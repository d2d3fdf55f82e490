-- ===== src/Config/Datum.antt =====
-- The readers of single values in config_load of src/config.c, with the tables of allowed texts. A
-- document's value is what the TOML reader, a vendored library, finds. The messages to
-- stderr are not modelled. `none` stands for a result of -1, a too long text included: the source
-- goes on to report more of them before it returns it.
use minimoni.Prelude.{
  Bool, Bytes, List, Option, [], codes, false, if◌then◌else◌, is_positive, le_ℕ, leb, length, ltb,
  negsuc, none, not, pos, pos_part, refuse, some, true, ℕ, ℤ, ◌&&◌, ◌++◌, ◌+◌, ◌-◌, ◌==◌, ◌>>=◌,
  ◌∷◌,
}
use minimoni.Double.{Double}
use minimoni.Config.Settings.{Listing, hide_all, in_list, only, show_all}

-- A value without parts. `other` is a value of any other type, and `unknown` TOML_UNKNOWN.
pub data Scalar (D : Type 0) : Type 0 where
  text : Bytes → Scalar D
  int : ℤ → Scalar D
  fp : D → Scalar D
  boolean : Bool → Scalar D
  other unknown : Scalar D

-- An array's element: a table is what toml_get finds in it.
pub data Elem (D : Type 0) : Type 0 where
  value : Scalar D → Elem D
  table : (Bytes → Scalar D) → Elem D

pub data Datum (D : Type 0) : Type 0 where
  single : Scalar D → Datum D
  array : List (Elem D) → Datum D

abbrev pub size_units : List Bytes
size_units = codes "%" ∷ codes "auto" ∷ []

abbrev pub temp_units : List Bytes
temp_units = codes "%" ∷ codes "c" ∷ codes "f" ∷ []

abbrev pub cpu_load_units : List Bytes
cpu_load_units = codes "%" ∷ codes "abs" ∷ []

abbrev pub net_units : List Bytes
net_units = codes "%" ∷ codes "bytes" ∷ codes "bits" ∷ []

abbrev pub swap_io_units : List Bytes
swap_io_units = codes "bytes" ∷ codes "ram" ∷ []

abbrev pub uptime_units : List Bytes
uptime_units = codes "auto" ∷ codes "h" ∷ codes "d" ∷ []

abbrev pub themes : List Bytes
themes = codes "light" ∷ codes "dark" ∷ codes "auto" ∷ []

abbrev pub chart_names : List Bytes
chart_names =
    codes "cpu_load"
    ∷ codes "cpu_usage"
    ∷ codes "memory"
    ∷ codes "swap"
    ∷ codes "swap_io"
    ∷ codes "disk"
    ∷ codes "temp"
    ∷ codes "net"
    ∷ []

abbrev pub card_names : List Bytes
card_names = chart_names ++ codes "uptime" ∷ []

-- ALERT_METRICS of src/config.h
abbrev pub metric_names : List Bytes
metric_names =
    codes "load_1m"
    ∷ codes "load_5m"
    ∷ codes "load_15m"
    ∷ codes "cpu_user_percent"
    ∷ codes "cpu_system_percent"
    ∷ codes "cpu_idle_percent"
    ∷ codes "mem_used_mb"
    ∷ codes "mem_available_mb"
    ∷ codes "mem_used_percent"
    ∷ codes "mem_available_percent"
    ∷ codes "disk_used_gb"
    ∷ codes "disk_available_gb"
    ∷ codes "disk_used_percent"
    ∷ codes "disk_available_percent"
    ∷ codes "temp_celsius"
    ∷ codes "net_rx_bps"
    ∷ codes "net_tx_bps"
    ∷ codes "uptime_seconds"
    ∷ codes "swap_free_mb"
    ∷ codes "swap_used_mb"
    ∷ codes "swap_free_percent"
    ∷ codes "swap_used_percent"
    ∷ codes "swap_in_bps"
    ∷ codes "swap_out_bps"
    ∷ codes "swap_in_ram"
    ∷ codes "swap_out_ram"
    ∷ []

abbrev pub operators : List Bytes
operators = codes ">" ∷ codes "<" ∷ codes ">=" ∷ codes "<=" ∷ []

abbrev pub valid_op : Bytes → Bool
valid_op s = in_list s operators

-- what config_load asks of the system
pub record Files : Type 0 where
  -- statvfs(path) == 0, and has_certificate(path) > 0
  pub statvfs_ok : Bytes → Bool
  pub has_certificate : Bytes → Bool

abbrev pub int_max : ℕ
int_max = 2147483647

abbrev pub to_int : ℕ → ℕ
to_int v = if ltb int_max v then int_max else v

-- The count stays 0, which shows all, when no name is known.
abbrev pub only_of : List Bytes → Listing
only_of [] = show_all
only_of (n ∷ names) = only (n ∷ names)

-- The text, or a failure where it does not fit with its NUL.
abbrev pub fit_field : ℕ → Bytes → Option Bytes
fit_field dsize s = refuse (leb dsize (length s)) s

module _ {D : Type 0} where
  abbrev pub scalar_of : Datum D → Scalar D
  scalar_of (single s) = s
  scalar_of (array es) = other

  abbrev pub elem_of : Elem D → Scalar D
  elem_of (value s) = s
  elem_of (table get) = other

  abbrev pub str_copy : ℕ → Scalar D → Bytes → Option Bytes
  str_copy dsize (text s) dst = fit_field dsize s
  str_copy dsize _ dst = some dst

  -- Each allowed value fits its field.
  abbrev pub unit_copy : Scalar D → Bytes → List Bytes → Bytes
  unit_copy (text s) dst allowed = if in_list s allowed then s else dst
  unit_copy _ dst allowed = dst

  abbrev pub flag_of : Scalar D → Bool → Bool
  flag_of (boolean b) dst = b
  flag_of _ dst = dst

  -- sse_keepalive and refresh
  abbrev pub positive_of : Scalar D → ℕ → ℕ
  positive_of (int z) dst = if is_positive z then to_int (pos_part z) else dst
  positive_of _ dst = dst

  abbrev pub max_dashboards_of : Scalar D → ℕ → Option ℕ
  max_dashboards_of (int z) dst =
      if not (is_positive z) then none else some (if le_ℕ z 256 then pos_part z else dst)
  max_dashboards_of _ dst = some dst

  abbrev pub interval_of : Scalar D → ℕ → Option ℕ
  interval_of (text s) dst = none
  interval_of (int z) dst =
      if not (is_positive z) then none else some (if le_ℕ z 3600 then pos_part z else 3600)
  interval_of _ dst = some dst

  abbrev pub net_max_speed_of : Scalar D → ℕ → ℕ
  net_max_speed_of (int z) dst = if is_positive z && le_ℕ z 1000000 then pos_part z else dst
  net_max_speed_of _ dst = dst

  abbrev pub theme_of : Scalar D → Bytes → Option Bytes
  theme_of (text s) dst = if in_list s themes then fit_field 8 s else some dst
  theme_of _ dst = some dst

  -- One name of `charts` or `cards`; `more` and `same` are the rest of the loop with the name kept
  -- and without it.
  abbrev pub name_step :
      List Bytes → Scalar D → Option (List Bytes) → Option (List Bytes) → Option (List Bytes)
  name_step known (text s) more same =
      if leb 16 (length s)
      then none
      else if in_list s known
      then more >>= (λ names. some (s ∷ names))
      else same
  name_step known _ more same = same

  -- `room` is MAX_CHARTS or MAX_CARDS less the count.
  pub names_of : List Bytes → ℕ → List (Elem D) → Option (List Bytes)
  names_of known room [] = some []
  names_of known room (e ∷ es) =
      let more = names_of known (room - 1) es in
      let same = names_of known room es in
      if room == 0 then some [] else name_step known (elem_of e) more same

  abbrev pub listing_of : List Bytes → Datum D → Option Listing
  listing_of known (single s) = some show_all
  listing_of known (array []) = some hide_all
  listing_of known (array (e ∷ es)) = names_of known 16 (e ∷ es) >>= (λ names. some (only_of names))

  abbrev pub is_text : Scalar D → Bool
  is_text (text s) = true
  is_text _ = false

  abbrev pub required : Scalar D → Option Bytes
  required (text s) = some s
  required _ = none

  abbrev pub is_unknown : Scalar D → Bool
  is_unknown unknown = true
  is_unknown _ = false

abbrev pub is_empty : Bytes → Bool
is_empty [] = true
is_empty (c ∷ s) = false

-- parse_duration's result where it is positive
abbrev pub or_zero : Option ℕ → ℕ
or_zero none = 0
or_zero (some n) = n

-- (double)z
module _ {D : Type 0} ⦃d : Double D⦄ where
  abbrev pub of_int : ℤ → D
  of_int (pos n) = d.literal n 0
  of_int (negsuc n) = d.minus (d.literal 0 0) (d.literal (n + 1) 0)

  abbrev pub threshold_of : Scalar D → Option D
  threshold_of (fp x) = some x
  threshold_of (int z) = some (of_int z)
  threshold_of _ = none
