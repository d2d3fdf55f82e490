-- ===== src/Config/Unknown.antt =====
-- The unknown keys of src/config.c: key_distance, warn_unknown_in and config_warn_unknown, with the
-- tables of known keys; and has_certificate. A warning is the key that is unknown and the one that it
-- may be a typo of. A parsed table is its keys with their values, in order.
pub mod Levenshtein
use minimoni.Prelude.{
  Bool, Bytes, List, Option, [], codes, false, if◌then◌else◌, leb, length, ltb, none, some, str_eq,
  take, ℕ, ◌++◌, ◌+◌, ◌==◌, ◌||◌, ◌∷◌,
}
use minimoni.Metrics.Read.{fgets_all}
use minimoni.Config.Settings.{in_list}

abbrev pub server_keys : List Bytes
server_keys = codes "listen" ∷ codes "max_dashboards" ∷ codes "sse_keepalive" ∷ []

abbrev pub collect_keys : List Bytes
collect_keys = codes "db" ∷ codes "disk_path" ∷ codes "interval" ∷ []

abbrev pub webhook_keys : List Bytes
webhook_keys = codes "ca_file" ∷ codes "insecure_skip_verify" ∷ []

abbrev pub dashboard_keys : List Bytes
dashboard_keys =
    codes "cards"
    ∷ codes "charts"
    ∷ codes "cpu_load_card_unit"
    ∷ codes "cpu_load_chart_unit"
    ∷ codes "disk_card_unit"
    ∷ codes "disk_chart_unit"
    ∷ codes "memory_card_unit"
    ∷ codes "memory_chart_unit"
    ∷ codes "net_card_unit"
    ∷ codes "net_chart_unit"
    ∷ codes "net_max_speed"
    ∷ codes "ranges"
    ∷ codes "refresh"
    ∷ codes "show_footer"
    ∷ codes "swap_card_unit"
    ∷ codes "swap_chart_unit"
    ∷ codes "swap_io_card_unit"
    ∷ codes "swap_io_chart_unit"
    ∷ codes "temp_card_unit"
    ∷ codes "temp_chart_unit"
    ∷ codes "temp_critical_fallback"
    ∷ codes "theme"
    ∷ codes "title"
    ∷ codes "uptime_unit"
    ∷ []

abbrev pub alert_keys : List Bytes
alert_keys =
    codes "command"
    ∷ codes "cooldown"
    ∷ codes "metric"
    ∷ codes "name"
    ∷ codes "operator"
    ∷ codes "threshold"
    ∷ codes "webhook"
    ∷ []

abbrev pub tables : List Bytes
tables = codes "alert" ∷ codes "collect" ∷ codes "dashboard" ∷ codes "server" ∷ codes "webhook" ∷ []

-- `best`, from diag, row[j] and row[j - 1]
abbrev pub best_of : Bool → ℕ → ℕ → ℕ → ℕ
best_of same diag above left =
    let best = diag + (if same then 0 else 1) in
    let best' = if ltb (above + 1) best then above + 1 else best in
    if ltb (left + 1) best' then left + 1 else best'

-- The inner loop: row[1 ..] for the next byte of a. `left` is the new row[j - 1].
unfoldable pub row_step : ℕ → ℕ → ℕ → Bytes → List ℕ → List ℕ
row_step ca diag left [] row = []
row_step ca diag left (cb ∷ b) [] = []
row_step ca diag left (cb ∷ b) (cur ∷ row) =
    best_of (ca == cb) diag cur left ∷ row_step ca cur (best_of (ca == cb) diag cur left) b row

-- The outer loop, with row[0] and row[1 ..], and i - 1 bytes done.
unfoldable pub rows_from : ℕ → Bytes → Bytes → ℕ → List ℕ → ℕ × List ℕ
rows_from i [] b row0 row = (row0, row)
rows_from i (ca ∷ a) b row0 row = rows_from (i + 1) a b (i + 1) (row_step ca row0 (i + 1) b row)

-- row[1 ..] = 1, 2, ... at the start
unfoldable pub count_up : ℕ → Bytes → List ℕ
count_up j [] = []
count_up j (cb ∷ b) = (j + 1) ∷ count_up (j + 1) b

-- row[lb]
unfoldable pub last_of_row : ℕ → List ℕ → ℕ
last_of_row row0 [] = row0
last_of_row row0 (x ∷ row) = last_of_row x row

unfoldable pub key_distance : Bytes → Bytes → ℕ
key_distance a b =
    if leb 64 (length b)
    then 99
    else (let (row0, row) = rows_from 0 a b 0 (count_up 0 b) in last_of_row row0 row)

-- The loop over the known keys, for the closest within bestd - 1.
unfoldable pub closest : Bytes → List Bytes → ℕ → Option Bytes → Option Bytes
closest k [] bestd close = close
closest k (known ∷ rest) bestd close =
    let d = key_distance k known in
    let nearer = closest k rest d (some known) in
    let same = closest k rest bestd close in if ltb d bestd then nearer else same

-- A warning: the key, and what it may be a typo of.
abbrev pub Warning : Type 0
Warning = Bytes × Option Bytes

unfoldable pub warn_unknown_in : List Bytes → List Bytes → List Warning
warn_unknown_in known [] = []
warn_unknown_in known (k ∷ keys) =
    let rest = warn_unknown_in known keys in
    if in_list k known then rest else (k, closest k known 3 none) ∷ rest

-- A value of the top level: a table's keys, an array's elements, with the keys of those that are
-- tables, or anything else.
pub data Top : Type 0 where
  table : List Bytes → Top
  array : List (Option (List Bytes)) → Top
  other : Top

unfoldable pub warn_elements : List (Option (List Bytes)) → List Warning
warn_elements [] = []
warn_elements (none ∷ elems) = warn_elements elems
warn_elements (some keys ∷ elems) = warn_unknown_in alert_keys keys ++ warn_elements elems

abbrev pub warn_table : List Bytes → Top → List Warning
warn_table known (table keys) = warn_unknown_in known keys
warn_table known (array elems) = []
warn_table known other = []

abbrev pub warn_array : Top → List Warning
warn_array (table keys) = []
warn_array (array elems) = warn_elements elems
warn_array other = []

-- The first table within distance 2.
unfoldable pub first_close : Bytes → List Bytes → Option Bytes
first_close k [] = none
first_close k (t ∷ ts) =
    let rest = first_close k ts in if leb (key_distance k t) 2 then some t else rest

unfoldable pub warn_top : Bytes → Top → List Warning
warn_top k v =
    if str_eq k (codes "alert")
    then warn_array v
    else if str_eq k (codes "collect")
    then warn_table collect_keys v
    else if str_eq k (codes "dashboard")
    then warn_table dashboard_keys v
    else if str_eq k (codes "server")
    then warn_table server_keys v
    else if str_eq k (codes "webhook")
    then warn_table webhook_keys v
    else (k, first_close k tables) ∷ []

-- Its count is the length.
unfoldable pub config_warn_unknown : List (Bytes × Top) → List Warning
config_warn_unknown [] = []
config_warn_unknown ((k, v) ∷ root) = warn_top k v ++ config_warn_unknown root

-- The loop of has_certificate, over the pieces of 63 bytes that fgets gives.
unfoldable pub opens_certificate : List Bytes → Bool
opens_certificate [] = false
opens_certificate (line ∷ lines) =
    str_eq (take 27 line) (codes "-----BEGIN CERTIFICATE-----") || opens_certificate lines

-- `none` for -1. `ferror` is whether a read fails.
unfoldable pub has_certificate : Option Bytes → Bool → Option Bool
has_certificate none ferror = none
has_certificate (some file) ferror =
    if ferror then none else some (opens_certificate (fgets_all 64 file))
