-- ===== src/Http/Answer.antt =====
-- The request handlers of src/http.c other than /stream, as the answer that they write: the status,
-- the Content-Length where one is sent, and the body. The variables of the query string are what
-- CivetWeb's mg_get_var leaves in the buffers, empty without one.
pub mod Parts
pub mod Range
use minimoni.Prelude.{
  Bool, Bytes, List, Option, [], codes, if◌then◌else◌, is_positive, length, ltb, map, negsuc, none,
  pos, pos_part, some, take, ℕ, ℤ, ◌*◌, ◌++◌, ◌+◌, ◌==◌, ◌∷◌,
}
use minimoni.Double.{Double}
use minimoni.Strtol.{strtol}
use minimoni.Config.Settings.{Config, in_list}
use minimoni.Downsample.{pick_bucket}
use minimoni.Db.Snapshot.{Columns, DbRow, read_row}
use minimoni.Db.Tiers.{Row}
use minimoni.Db.Store.{Rc, Store}
use minimoni.Db.Query.{
  Current, Growing, current, db_count_range, db_query_range, no_rows, not_prepared,
}
use minimoni.Json.Buffer.{Jbuf, jbuf_begin, jbuf_end, jbuf_init}
use minimoni.Json.Serialize.{Host, json_serialize_current}
use minimoni.Json.Point.{json_serialize_point}
use minimoni.Json.Magnitude.{json_serialize_units}

pub record Reply : Type 0 where
  pub status : ℕ
  pub content_length : Option ℕ
  pub body : Bytes

-- A JSON text with its length.
abbrev pub fixed : ℕ → Bytes → Reply
fixed status body = record { status = status; content_length = some (length body); body = body }

abbrev pub handler_root : Bytes → Reply
handler_root dashboard_index_html = fixed 200 dashboard_index_html

abbrev pub handler_health : Bytes → Reply
handler_health version =
    fixed 200 (codes "{\"status\":\"ok\",\"version\":\"" ++ version ++ codes "\"}")

unfoldable pub send_json : Jbuf → Reply
send_json j =
    if j.overflow then fixed 500 (codes "{\"error\":\"response too large\"}") else fixed 200 j.text

-- What is written, and *emitted.
abbrev pub Writing : Type 0
Writing = Bytes × ℕ

unfoldable pub emit_part : Jbuf → Writing → Writing
emit_part j (out, emitted) =
    if j.overflow
    then (out, emitted)
    else (out ++ ((if emitted == 0 then [] else b',' ∷ []) ++ j.text), emitted + 1)

-- The loop over the points.
unfoldable pub emit_all : List Jbuf → Writing → Writing
emit_all [] w = w
emit_all (j ∷ js) w = emit_all js (emit_part j w)

-- range_str, 15 bytes at most, and "1d" where no range is configured
abbrev pub default_range : List Bytes → Bytes
default_range [] = codes "1d"
default_range (r ∷ ranges) = take 15 r

unfoldable pub pick_range : List Bytes → Bytes → Bytes
pick_range ranges range_var = if in_list range_var ranges then range_var else default_range ranges

-- The seconds of n of the unit at *end, the NUL included.
abbrev pub unit_seconds : ℕ → Bytes → ℕ
unit_seconds n [] = 0
unit_seconds n (u ∷ rest) =
    if u == b'h' then n * 3600 else if u == b'd' then n * 86400 else if u == b'm' then n * 60 else 0

module _ (long_max : ℕ) where
  unfoldable pub range_seconds : Bytes → ℕ
  range_seconds range_str =
      let (n, end) = strtol long_max range_str in
      let rsec = if is_positive n then unit_seconds (pos_part n) end else 0 in
      if rsec == 0 then 86400 else rsec

  abbrev pub cap_points : ℤ → ℕ
  cap_points (pos p) = if ltb 1440 p then 1440 else p
  cap_points (negsuc p) = 0

  unfoldable pub points_of : Bytes → ℕ
  points_of [] = 0
  points_of (c ∷ cs) = cap_points (strtol long_max (c ∷ cs)).0

-- What the two variables are, and what SQLite, the clock and the allocator answer.
pub record Request : Type 0 where
  pub range_var : Bytes
  pub points_var : Bytes
  pub count_now : ℕ
  pub count_prepared : Bool
  pub count_step : Rc
  pub query_now : ℕ
  pub query_prepared : Bool
  pub query_last : Rc
  pub alloc : ℕ → Bool

module _ {D : Type 0} ⦃d : Double D⦄ (iso : ℕ → Bytes) (avg : List (Columns D) → Columns D)
    (long_max : ℕ) (cfg : Config D) (host : Host D) where
  abbrev pub row_at : Row (Columns D) → DbRow D
  row_at r = read_row (record r.values { stamp = iso r.ts; seconds = r.ts })

  abbrev pub current_json : DbRow D → Jbuf
  current_json r = jbuf_end (json_serialize_current (jbuf_begin (jbuf_init 4096)) r cfg host)

  unfoldable pub handler_current : Current (Columns D) → Reply
  handler_current (current r) = send_json (current_json (row_at r))
  handler_current no_rows = fixed 503 (codes "{\"error\":\"no data collected yet\"}")
  handler_current not_prepared = fixed 500 (codes "{\"error\":\"database error\"}")

  abbrev pub point_json : DbRow D → Jbuf
  point_json r = jbuf_end (json_serialize_point (jbuf_begin (jbuf_init 512)) r cfg host)

  abbrev pub units_json : List (DbRow D) → Jbuf
  units_json rows = json_serialize_units (jbuf_init 256) rows cfg

  -- The rows that the block holds.
  unfoldable pub rows_of : List (Option (Row (Columns D))) → List (DbRow D)
  rows_of [] = []
  rows_of (none ∷ cells) = rows_of cells
  rows_of (some r ∷ cells) = row_at r ∷ rows_of cells

  unfoldable pub metrics_body : Bytes → List (DbRow D) → Bytes
  metrics_body range_str rows =
      let start = codes "{\"range\":\"" ++ range_str ++ codes "\",\"points\":[" in
      let (points, emitted) = emit_all (map point_json rows) (start, 0) in
      let (tail, after_points) = emit_part (units_json rows) (points ++ codes "]", 1) in
      tail ++ codes "}"

  abbrev pub metrics_reply : Bytes → Option (Growing (Row (Columns D))) → Reply
  metrics_reply range_str none = fixed 500 (codes "{\"error\":\"database error\"}")
  metrics_reply range_str (some g) = record {
    status = 200;
    content_length = none;
    body = metrics_body range_str (rows_of (take g.cnt g.rows));
  }

  unfoldable pub handler_metrics : Request → Store (Columns D) → Reply
  handler_metrics q s =
      let range_str = pick_range cfg.dashboard.ranges q.range_var in
      let rsec = range_seconds long_max range_str in
      let points = points_of long_max q.points_var in
      let actual_count = db_count_range rsec q.count_now q.count_prepared q.count_step s in
      let bucket = pick_bucket rsec cfg.collect.interval_seconds points actual_count in
      metrics_reply range_str
        (db_query_range avg q.query_prepared q.alloc q.query_last rsec q.query_now bucket s)
