-- ===== src/Db/Snapshot.antt =====
-- src/db.c: the columns that db_insert binds and read_row reads. `sql_null` is SQLite's NULL, and
-- sqlite3_column_double of it is 0.0, as SQLite documents. metrics_t is the part of src/metrics.h
-- that db_insert stores.
pub mod RoundTrip
use minimoni.Prelude.{Bool, Bytes, false, if◌then◌else◌, true, ℕ}
use minimoni.Double.{Double, above_nought, max2, nought}

pub record Metrics (D : Type 0) : Type 0 where
  pub load_1m : D
  pub load_5m : D
  pub load_15m : D
  pub cpu_valid : Bool
  pub cpu_user_percent : D
  pub cpu_system_percent : D
  pub cpu_idle_percent : D
  pub mem_total_mb : D
  pub mem_available_mb : D
  pub disk_total_gb : D
  pub disk_available_gb : D
  pub temp_valid : Bool
  pub temp_celsius : D
  pub net_valid : Bool
  pub net_rx_bps : D
  pub net_tx_bps : D
  pub uptime_seconds : D
  pub swap_valid : Bool
  pub swap_total_mb : D
  pub swap_free_mb : D
  pub swap_io_valid : Bool
  pub swap_in_bps : D
  pub swap_out_bps : D

pub record DbRow (D : Type 0) : Type 0 where
  pub timestamp : Bytes
  pub unix_time : ℕ
  pub load_1m : D
  pub load_5m : D
  pub load_15m : D
  pub cpu_valid : Bool
  pub cpu_user_percent : D
  pub cpu_system_percent : D
  pub cpu_idle_percent : D
  pub mem_total_mb : D
  pub mem_available_mb : D
  pub mem_used_mb : D
  pub mem_used_percent : D
  pub mem_available_percent : D
  pub disk_total_gb : D
  pub disk_available_gb : D
  pub disk_used_gb : D
  pub disk_used_percent : D
  pub disk_available_percent : D
  pub temp_valid : Bool
  pub temp_celsius : D
  pub net_valid : Bool
  pub net_rx_bps : D
  pub net_tx_bps : D
  pub uptime_seconds : D
  pub swap_valid : Bool
  pub swap_total_mb : D
  pub swap_free_mb : D
  pub swap_used_mb : D
  pub swap_used_percent : D
  pub swap_free_percent : D
  pub swap_io_valid : Bool
  pub swap_in_bps : D
  pub swap_out_bps : D
  pub swap_in_ram : D
  pub swap_out_ram : D

pub data Column (D : Type 0) : Type 0 where
  sql_null : Column D
  sql_real : D → Column D

-- One row of the table, its columns in the order of the SELECT lists.
pub record Columns (D : Type 0) : Type 0 where
  pub stamp : Bytes
  pub seconds : ℕ
  pub c_load_1m : Column D
  pub c_load_5m : Column D
  pub c_load_15m : Column D
  pub c_cpu_user : Column D
  pub c_cpu_system : Column D
  pub c_cpu_idle : Column D
  pub c_mem_total : Column D
  pub c_mem_available : Column D
  pub c_disk_total : Column D
  pub c_disk_available : Column D
  pub c_temp : Column D
  pub c_net_rx : Column D
  pub c_net_tx : Column D
  pub c_uptime : Column D
  pub c_bucket_sec : ℕ
  pub c_swap_total : Column D
  pub c_swap_free : Column D
  pub c_swap_in : Column D
  pub c_swap_out : Column D

-- sqlite3_bind_double under its valid flag, and sqlite3_bind_null without it
abbrev pub gated : {D : Type 0} → Bool → D → Column D
gated valid x = if valid then sql_real x else sql_null

abbrev pub is_real : {D : Type 0} → Column D → Bool
is_real sql_null = false
is_real (sql_real x) = true

-- The statement that db_insert binds, at second `now` with the text `ts` of it.
abbrev pub bind_row : {D : Type 0} → ℕ → Bytes → ℕ → Metrics D → Columns D
bind_row interval_sec ts now m = record {
  stamp = ts;
  seconds = now;
  c_load_1m = sql_real m.load_1m;
  c_load_5m = sql_real m.load_5m;
  c_load_15m = sql_real m.load_15m;
  c_cpu_user = gated m.cpu_valid m.cpu_user_percent;
  c_cpu_system = gated m.cpu_valid m.cpu_system_percent;
  c_cpu_idle = gated m.cpu_valid m.cpu_idle_percent;
  c_mem_total = sql_real m.mem_total_mb;
  c_mem_available = sql_real m.mem_available_mb;
  c_disk_total = sql_real m.disk_total_gb;
  c_disk_available = sql_real m.disk_available_gb;
  c_temp = gated m.temp_valid m.temp_celsius;
  c_net_rx = gated m.net_valid m.net_rx_bps;
  c_net_tx = gated m.net_valid m.net_tx_bps;
  c_uptime = sql_real m.uptime_seconds;
  c_bucket_sec = interval_sec;
  c_swap_total = gated m.swap_valid m.swap_total_mb;
  c_swap_free = gated m.swap_valid m.swap_free_mb;
  c_swap_in = gated m.swap_io_valid m.swap_in_bps;
  c_swap_out = gated m.swap_io_valid m.swap_out_bps;
}

module _ {D : Type 0} ⦃d : Double D⦄ where
  -- sqlite3_column_double
  abbrev pub column_double : Column D → D
  column_double sql_null = nought
  column_double (sql_real x) = x

  -- A field that read_row sets under a valid flag; memset leaves 0.0 without it.
  abbrev pub under : Bool → D → D
  under valid x = if valid then x else nought

  abbrev pub hundred : D
  hundred = d.literal 100 0

  -- The part in use of a total, cut at 0, and its share of it.
  abbrev pub used_of : D → D → D
  used_of total available = max2 (d.minus total available) nought

  abbrev pub used_share : D → D → D
  used_share total available =
      if above_nought total
      then d.over (d.times (used_of total available) hundred) total
      else nought

  abbrev pub rest_share : D → D → D
  rest_share total available = d.minus hundred (used_share total available)

  -- % of the RAM per minute
  abbrev pub ram_share : D → D → D
  ram_share total_mb bps =
      let ram_bytes = d.times (d.times total_mb (d.literal 1024 0)) (d.literal 1024 0) in
      if above_nought ram_bytes
      then d.over (d.times (d.times bps (d.literal 60 0)) hundred) ram_bytes
      else nought

  abbrev pub read_row : Columns D → DbRow D
  read_row s =
      let cpu = is_real s.c_cpu_user in
      let temp = is_real s.c_temp in
      let net = is_real s.c_net_rx in
      let swap = is_real s.c_swap_total in
      let swap_io = is_real s.c_swap_in in
      let mem_total = column_double s.c_mem_total in
      let mem_available = column_double s.c_mem_available in
      let disk_total = column_double s.c_disk_total in
      let disk_available = column_double s.c_disk_available in
      let swap_total = column_double s.c_swap_total in
      let swap_free = column_double s.c_swap_free in
      let swap_in = column_double s.c_swap_in in
      let swap_out = column_double s.c_swap_out in
      record {
        timestamp = s.stamp;
        unix_time = s.seconds;
        load_1m = column_double s.c_load_1m;
        load_5m = column_double s.c_load_5m;
        load_15m = column_double s.c_load_15m;
        cpu_valid = cpu;
        cpu_user_percent = under cpu (column_double s.c_cpu_user);
        cpu_system_percent = under cpu (column_double s.c_cpu_system);
        cpu_idle_percent = under cpu (column_double s.c_cpu_idle);
        mem_total_mb = mem_total;
        mem_available_mb = mem_available;
        mem_used_mb = used_of mem_total mem_available;
        mem_used_percent = used_share mem_total mem_available;
        mem_available_percent = rest_share mem_total mem_available;
        disk_total_gb = disk_total;
        disk_available_gb = disk_available;
        disk_used_gb = used_of disk_total disk_available;
        disk_used_percent = used_share disk_total disk_available;
        disk_available_percent = rest_share disk_total disk_available;
        temp_valid = temp;
        temp_celsius = under temp (column_double s.c_temp);
        net_valid = net;
        net_rx_bps = under net (column_double s.c_net_rx);
        net_tx_bps = under net (column_double s.c_net_tx);
        uptime_seconds = column_double s.c_uptime;
        swap_valid = swap;
        swap_total_mb = under swap swap_total;
        swap_free_mb = under swap swap_free;
        swap_used_mb = under swap (used_of swap_total swap_free);
        swap_used_percent = under swap (used_share swap_total swap_free);
        swap_free_percent = under swap (rest_share swap_total swap_free);
        swap_io_valid = swap_io;
        swap_in_bps = under swap_io swap_in;
        swap_out_bps = under swap_io swap_out;
        swap_in_ram = under swap_io (ram_share mem_total swap_in);
        swap_out_ram = under swap_io (ram_share mem_total swap_out);
      }
