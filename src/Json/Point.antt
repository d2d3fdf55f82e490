-- ===== src/Json/Point.antt =====
-- json_serialize_point of src/json.c: one point of a history, with short keys.
use minimoni.Prelude.{List, [], codes, flatten, if◌then◌else◌, ◌∷◌}
use minimoni.Double.{Double}
use minimoni.Units.{load_convert, net_convert, temp_convert}
use minimoni.Db.Snapshot.{DbRow}
use minimoni.Config.Settings.{Config}
use minimoni.Json.Buffer.{Jbuf}
use minimoni.Json.Call.{Call, long, perform_all, real}
use minimoni.Json.Serialize.{
  Host, first, group, is_percent, is_ram, maybe, nref_of, tref_of, unless,
}

module _ {D : Type 0} ⦃d : Double D⦄ where
  -- The groups of json_serialize_point.
  pub chart_calls : DbRow D → Config D → Host D → List (Call D)
  chart_calls r cfg host =
      let u = cfg.dashboard.units in
      let charts = cfg.dashboard.charts in
      let nref = nref_of cfg host in
      let tref = tref_of cfg host in
      flatten (
        (long (codes "t") r.unix_time ∷ [])
        ∷ group charts (codes "cpu_load") (
            real (codes "l1") (load_convert r.load_1m host.num_cores (first u.cpu_load_chart_unit))
            ∷ real (codes "l5")
                (load_convert r.load_5m host.num_cores (first u.cpu_load_chart_unit))
            ∷ real (codes "l15")
                (load_convert r.load_15m host.num_cores (first u.cpu_load_chart_unit))
            ∷ [])
        ∷ group charts (codes "cpu_usage") (
            maybe r.cpu_valid (codes "cu") r.cpu_user_percent
            ∷ maybe r.cpu_valid (codes "cs") r.cpu_system_percent
            ∷ maybe r.cpu_valid (codes "ci") r.cpu_idle_percent
            ∷ [])
        ∷ group charts (codes "memory") (
            real (codes "ma") (
              if is_percent u.memory_chart_unit
              then r.mem_available_percent
              else r.mem_available_mb)
            ∷ unless (is_percent u.memory_chart_unit) (real (codes "mt") r.mem_total_mb))
        ∷ group charts (codes "swap") (
            maybe r.swap_valid (codes "sf")
              (if is_percent u.swap_chart_unit then r.swap_free_percent else r.swap_free_mb)
            ∷ unless (is_percent u.swap_chart_unit)
                (maybe r.swap_valid (codes "st") r.swap_total_mb))
        ∷ group charts (codes "swap_io") (
            maybe r.swap_io_valid (codes "si")
              (if is_ram u.swap_io_chart_unit then r.swap_in_ram else r.swap_in_bps)
            ∷ maybe r.swap_io_valid (codes "so")
                (if is_ram u.swap_io_chart_unit then r.swap_out_ram else r.swap_out_bps)
            ∷ [])
        ∷ group charts (codes "disk") (
            real (codes "da") (
              if is_percent u.disk_chart_unit
              then r.disk_available_percent
              else r.disk_available_gb)
            ∷ unless (is_percent u.disk_chart_unit) (real (codes "dt") r.disk_total_gb))
        ∷ group charts (codes "temp") (
            maybe r.temp_valid (codes "tp")
              (temp_convert r.temp_celsius (first u.temp_chart_unit) tref)
            ∷ [])
        ∷ group charts (codes "net") (
            maybe r.net_valid (codes "nr") (net_convert r.net_rx_bps (first u.net_chart_unit) nref)
            ∷ maybe r.net_valid (codes "nt")
                (net_convert r.net_tx_bps (first u.net_chart_unit) nref)
            ∷ [])
        ∷ (real (codes "up") r.uptime_seconds ∷ [])
        ∷ [])

  unfoldable pub json_serialize_point : Jbuf → DbRow D → Config D → Host D → Jbuf
  json_serialize_point j r cfg host = perform_all j (chart_calls r cfg host)
