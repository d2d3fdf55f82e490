-- ===== src/Json/Serialize.antt =====
-- json_serialize_current of src/json.c, as the calls of the writers that it makes. `Host` is the hardware
-- context that the HTTP server passes in. A unit is compared by its first byte, 0 for no text.
pub mod Privacy
pub mod Bounded
use minimoni.Prelude.{
  Bool, Bytes, List, [], codes, false, flatten, if◌then◌else◌, ltb, ℕ, ◌++◌, ◌==◌, ◌∷◌,
}
use minimoni.Double.{Double}
use minimoni.Units.{load_convert, net_convert, net_ref_bps, temp_convert, temp_ref}
use minimoni.Db.Snapshot.{DbRow}
use minimoni.Config.Settings.{Config, Listing, config_has, hide_all, only, show_all}
use minimoni.Json.Buffer.{Jbuf, jbuf_array_str, jbuf_raw, jbuf_sep, jbuf_str}
use minimoni.Json.Call.{Call, null, pair, perform_all, raw, real, sep, str}

pub record Host (D : Type 0) : Type 0 where
  pub num_cores : ℕ
  pub temp_critical_valid : Bool
  pub temp_critical : D
  pub detected_speed_mbit : ℕ

abbrev pub first : Bytes → ℕ
first [] = 0
first (c ∷ s) = c

abbrev pub is_percent : Bytes → Bool
is_percent u = first u == b'%'

module _ {D : Type 0} where
  -- The fields of a group, if its name is in the list.
  abbrev pub group : Listing → Bytes → List (Call D) → List (Call D)
  group names name calls = if config_has names name then calls else []

  -- A number under its valid flag, and null without it.
  abbrev pub maybe : Bool → Bytes → D → Call D
  maybe valid key x = if valid then real key x else null key

  abbrev pub unless : Bool → Call D → List (Call D)
  unless b call = if b then [] else call ∷ []

abbrev pub is_ram : Bytes → Bool
is_ram u = first u == b'r'

-- The elements of an open array; the flag is `emitted`.
unfoldable pub array_strs : Jbuf → List Bytes → Bool → Jbuf
array_strs j [] emitted = j
array_strs j (s ∷ rest) emitted =
    let (j', emitted') = jbuf_array_str j s emitted in array_strs j' rest emitted'

abbrev pub put_array : Jbuf → Bytes → List Bytes → Jbuf
put_array j opening names =
    jbuf_raw (array_strs (jbuf_raw (jbuf_sep j) opening) names false) (codes "]")

abbrev pub put_listing : Jbuf → Bytes → Listing → Jbuf
put_listing j key show_all = jbuf_raw (jbuf_sep j) (key ++ codes "null")
put_listing j key hide_all = jbuf_raw (jbuf_sep j) (key ++ codes "[]")
put_listing j key (only names) = put_array j (key ++ codes "[") names

module _ {D : Type 0} ⦃d : Double D⦄ where
  abbrev pub nref_of : Config D → Host D → D
  nref_of cfg host = net_ref_bps cfg.dashboard.net_max_speed host.detected_speed_mbit

  abbrev pub tref_of : Config D → Host D → D
  tref_of cfg host =
      temp_ref host.temp_critical_valid host.temp_critical cfg.dashboard.temp_critical_fallback

  -- The metric groups of json_serialize_current.
  pub card_calls : DbRow D → Config D → Host D → List (Call D)
  card_calls r cfg host =
      let u = cfg.dashboard.units in
      let cards = cfg.dashboard.cards in
      let nref = nref_of cfg host in
      let tref = tref_of cfg host in
      flatten (
        group cards (codes "cpu_load") (
          real (codes "load_1m")
            (load_convert r.load_1m host.num_cores (first u.cpu_load_card_unit))
          ∷ real (codes "load_5m")
              (load_convert r.load_5m host.num_cores (first u.cpu_load_card_unit))
          ∷ real (codes "load_15m")
              (load_convert r.load_15m host.num_cores (first u.cpu_load_card_unit))
          ∷ [])
        ∷ group cards (codes "cpu_usage") (
            maybe r.cpu_valid (codes "cpu_user_percent") r.cpu_user_percent
            ∷ maybe r.cpu_valid (codes "cpu_system_percent") r.cpu_system_percent
            ∷ maybe r.cpu_valid (codes "cpu_idle_percent") r.cpu_idle_percent
            ∷ [])
        ∷ group cards (codes "memory") (
            real (codes "mem_available") (
              if is_percent u.memory_card_unit then r.mem_available_percent else r.mem_available_mb)
            ∷ unless (is_percent u.memory_card_unit) (real (codes "mem_total") r.mem_total_mb))
        ∷ group cards (codes "swap") (
            maybe r.swap_valid (codes "swap_free")
              (if is_percent u.swap_card_unit then r.swap_free_percent else r.swap_free_mb)
            ∷ unless (is_percent u.swap_card_unit)
                (maybe r.swap_valid (codes "swap_total") r.swap_total_mb))
        ∷ group cards (codes "swap_io") (
            maybe r.swap_io_valid (codes "swap_in")
              (if is_ram u.swap_io_card_unit then r.swap_in_ram else r.swap_in_bps)
            ∷ maybe r.swap_io_valid (codes "swap_out")
                (if is_ram u.swap_io_card_unit then r.swap_out_ram else r.swap_out_bps)
            ∷ [])
        ∷ group cards (codes "disk") (
            real (codes "disk_available") (
              if is_percent u.disk_card_unit then r.disk_available_percent else r.disk_available_gb)
            ∷ unless (is_percent u.disk_card_unit) (real (codes "disk_total") r.disk_total_gb))
        ∷ group cards (codes "temp") (
            maybe r.temp_valid (codes "temp")
              (temp_convert r.temp_celsius (first u.temp_card_unit) tref)
            ∷ [])
        ∷ group cards (codes "net") (
            maybe r.net_valid (codes "net_rx")
              (net_convert r.net_rx_bps (first u.net_card_unit) nref)
            ∷ maybe r.net_valid (codes "net_tx")
                (net_convert r.net_tx_bps (first u.net_card_unit) nref)
            ∷ [])
        ∷ group cards (codes "uptime") (real (codes "uptime_seconds") r.uptime_seconds ∷ [])
        ∷ [])

  -- The units and texts.
  pub text_calls : Config D → List (Call D)
  text_calls cfg =
      let u = cfg.dashboard.units in
      str (codes "mem_card_unit") u.memory_card_unit
      ∷ str (codes "mem_chart_unit") u.memory_chart_unit
      ∷ str (codes "swap_card_unit") u.swap_card_unit
      ∷ str (codes "swap_chart_unit") u.swap_chart_unit
      ∷ str (codes "swap_io_card_unit") u.swap_io_card_unit
      ∷ str (codes "swap_io_chart_unit") u.swap_io_chart_unit
      ∷ str (codes "disk_card_unit") u.disk_card_unit
      ∷ str (codes "disk_chart_unit") u.disk_chart_unit
      ∷ str (codes "temp_card_unit") u.temp_card_unit
      ∷ str (codes "temp_chart_unit") u.temp_chart_unit
      ∷ str (codes "net_card_unit") u.net_card_unit
      ∷ str (codes "net_chart_unit") u.net_chart_unit
      ∷ str (codes "cpu_load_card_unit") u.cpu_load_card_unit
      ∷ str (codes "cpu_load_chart_unit") u.cpu_load_chart_unit
      ∷ str (codes "title") cfg.dashboard.title
      ∷ str (codes "theme") cfg.dashboard.theme
      ∷ sep
      ∷ raw (
          if cfg.dashboard.show_footer
          then codes "\"show_footer\":true"
          else codes "\"show_footer\":false")
      ∷ str (codes "uptime_unit") u.uptime_unit
      ∷ []

  abbrev pub lit : ℕ → ℕ → D
  lit m e = d.literal m e

  -- The thresholds that close json_serialize_current.
  pub threshold_calls : DbRow D → Config D → Host D → List (Call D)
  threshold_calls r cfg host =
      let u = cfg.dashboard.units in
      let cards = cfg.dashboard.cards in
      let nref = nref_of cfg host in
      let tref = tref_of cfg host in
      let cores = lit host.num_cores 0 in
      let counted = ltb 0 host.num_cores in
      let pct_bps =
        d.over (d.over (d.times (d.times r.mem_total_mb (lit 1024 0)) (lit 1024 0)) (lit 100 0))
          (lit 60 0) in
      let scale = if is_ram u.swap_io_card_unit then lit 1 0 else pct_bps in
      let unit = first u.temp_card_unit in
      let critical = host.temp_critical in
      flatten (
        group cards (codes "cpu_load") (
          (if is_percent u.cpu_load_card_unit
            then pair (codes "thresh_load") (lit 70 0) (lit 90 0)
            else pair (codes "thresh_load") (if counted then d.times (lit 75 2) cores else lit 2 0)
                (if counted then d.times (lit 1 0) cores else lit 35 1))
          ∷ [])
        ∷ group cards (codes "cpu_usage") (pair (codes "thresh_cpu") (lit 70 0) (lit 90 0) ∷ [])
        ∷ group cards (codes "memory") (pair (codes "thresh_mem") (lit 70 0) (lit 90 0) ∷ [])
        ∷ group cards (codes "swap") (pair (codes "thresh_swap") (lit 80 0) (lit 95 0) ∷ [])
        ∷ group cards (codes "swap_io")
            (pair (codes "thresh_swap_io") (d.times (lit 1 0) scale) (d.times (lit 5 0) scale) ∷ [])
        ∷ group cards (codes "disk") (pair (codes "thresh_disk") (lit 80 0) (lit 90 0) ∷ [])
        ∷ group cards (codes "temp") (
            (if host.temp_critical_valid
              then pair (codes "thresh_temp") (temp_convert (d.minus critical (lit 20 0)) unit tref)
                  (temp_convert (d.minus critical (lit 10 0)) unit tref)
              else pair (codes "thresh_temp") (temp_convert (lit 70 0) unit tref)
                  (temp_convert (lit 80 0) unit tref))
            ∷ [])
        ∷ group cards (codes "net") (
            pair (codes "thresh_net")
              (net_convert (d.times (lit 85 2) nref) (first u.net_card_unit) nref)
              (net_convert (d.times (lit 98 2) nref) (first u.net_card_unit) nref)
            ∷ [])
        ∷ [])

  unfoldable pub json_serialize_current : Jbuf → DbRow D → Config D → Host D → Jbuf
  json_serialize_current j r cfg host =
      let stamped = jbuf_str j (codes "timestamp") r.timestamp in
      let written = perform_all stamped (card_calls r cfg host ++ text_calls cfg) in
      let ranges = put_array written (codes "\"ranges\":[") cfg.dashboard.ranges in
      let charts = put_listing ranges (codes "\"charts\":") cfg.dashboard.charts in
      let cards = put_listing charts (codes "\"cards\":") cfg.dashboard.cards in
      perform_all cards (threshold_calls r cfg host)
