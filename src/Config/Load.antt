-- ===== src/Config/Load.antt =====
-- config_load of src/config.c. Its readers of single values are in Config/Datum; the keys that are
-- not known only cause messages, and config_warn_unknown is not modelled. `seek` is toml_seek in the
-- parsed file, and `to_float` the conversion of a double to a float and back.
pub mod Sound
use minimoni.Prelude.{
  Bool, Bytes, List, Option, [], codes, false, if◌then◌else◌, is_positive, leb, length, ltb, none,
  not, refuse, some, ℕ, ◌&&◌, ◌==◌, ◌>>=◌, ◌∷◌,
}
use minimoni.Double.{Double, above_nought}
use minimoni.Config.Settings.{
  AlertCfg, CollectCfg, Config, DashboardCfg, ServerCfg, UnitCfg, WebhookCfg, config_defaults,
  in_list,
}
use minimoni.Config.Datum.{
  Datum, Elem, Files, Scalar, array, card_names, chart_names, cpu_load_units, elem_of, fit_field,
  flag_of, fp, int, interval_of, is_empty, is_text, is_unknown, listing_of, max_dashboards_of,
  metric_names, net_max_speed_of, net_units, of_int, or_zero, positive_of, required, scalar_of,
  single, size_units, str_copy, swap_io_units, table, temp_units, text, theme_of, threshold_of,
  unit_copy, uptime_units, valid_op, value,
}
use minimoni.Config.Duration.{parse_duration, range_in_bounds, valid_range}

module _ {D : Type 0} where
  unfoldable pub load_server : (Bytes → Datum D) → ServerCfg → Option ServerCfg
  load_server seek c = do
    listen ← str_copy 64 (scalar_of (seek (codes "server.listen"))) c.listen
    max_dashboards ←
        max_dashboards_of (scalar_of (seek (codes "server.max_dashboards"))) c.max_dashboards
    some (record {
      listen = listen;
      max_dashboards = max_dashboards;
      sse_keepalive_seconds =
          positive_of (scalar_of (seek (codes "server.sse_keepalive"))) c.sse_keepalive_seconds;
    })

  unfoldable pub load_collect : Files → (Bytes → Datum D) → CollectCfg → Option CollectCfg
  load_collect files seek c = do
    interval ← interval_of (scalar_of (seek (codes "collect.interval"))) c.interval_seconds
    db_path ← str_copy 256 (scalar_of (seek (codes "collect.db"))) c.db_path
    disk_path ← str_copy 256 (scalar_of (seek (codes "collect.disk_path"))) c.disk_path
    refuse
        (is_text (scalar_of (seek (codes "collect.disk_path"))) && not (files.statvfs_ok disk_path))
        (record { interval_seconds = interval; db_path = db_path; disk_path = disk_path })

  unfoldable pub load_webhooks : Files → (Bytes → Datum D) → WebhookCfg → Option WebhookCfg
  load_webhooks files seek c = do
    let insecure =
        flag_of (scalar_of (seek (codes "webhook.insecure_skip_verify"))) c.insecure_skip_verify
    ca_file ← str_copy 256 (scalar_of (seek (codes "webhook.ca_file"))) c.ca_file
    refuse
        (is_text (scalar_of (seek (codes "webhook.ca_file")))
          && (not insecure && not (files.has_certificate ca_file)))
        (record { insecure_skip_verify = insecure; ca_file = ca_file })

  abbrev pub load_units : (Bytes → Datum D) → UnitCfg → UnitCfg
  load_units seek u =
      let get = λ (k : Bytes). scalar_of (seek k) in
      record {
        memory_card_unit =
            unit_copy (get (codes "dashboard.memory_card_unit")) u.memory_card_unit size_units;
        memory_chart_unit =
            unit_copy (get (codes "dashboard.memory_chart_unit")) u.memory_chart_unit size_units;
        swap_card_unit =
            unit_copy (get (codes "dashboard.swap_card_unit")) u.swap_card_unit size_units;
        swap_chart_unit =
            unit_copy (get (codes "dashboard.swap_chart_unit")) u.swap_chart_unit size_units;
        swap_io_card_unit =
            unit_copy (get (codes "dashboard.swap_io_card_unit")) u.swap_io_card_unit swap_io_units;
        swap_io_chart_unit =
            unit_copy (get (codes "dashboard.swap_io_chart_unit")) u.swap_io_chart_unit
              swap_io_units;
        disk_card_unit =
            unit_copy (get (codes "dashboard.disk_card_unit")) u.disk_card_unit size_units;
        disk_chart_unit =
            unit_copy (get (codes "dashboard.disk_chart_unit")) u.disk_chart_unit size_units;
        temp_card_unit =
            unit_copy (get (codes "dashboard.temp_card_unit")) u.temp_card_unit temp_units;
        temp_chart_unit =
            unit_copy (get (codes "dashboard.temp_chart_unit")) u.temp_chart_unit temp_units;
        cpu_load_card_unit =
            unit_copy (get (codes "dashboard.cpu_load_card_unit")) u.cpu_load_card_unit
              cpu_load_units;
        cpu_load_chart_unit =
            unit_copy (get (codes "dashboard.cpu_load_chart_unit")) u.cpu_load_chart_unit
              cpu_load_units;
        net_card_unit = unit_copy (get (codes "dashboard.net_card_unit")) u.net_card_unit net_units;
        net_chart_unit =
            unit_copy (get (codes "dashboard.net_chart_unit")) u.net_chart_unit net_units;
        uptime_unit = unit_copy (get (codes "dashboard.uptime_unit")) u.uptime_unit uptime_units;
      }

module _ {D : Type 0} where
  -- The dashboard refreshes at most once an interval.
  abbrev pub clamp_refresh : ℕ → DashboardCfg D → DashboardCfg D
  clamp_refresh interval c =
      if ltb interval c.refresh_seconds then record c { refresh_seconds = interval } else c

-- A range is kept if it is one, is in bounds and is not shorter than the interval. `long_max` is
-- LONG_MAX.
module _ (long_max : ℕ) where
  abbrev pub long_enough : ℕ → Option ℕ → Bool
  long_enough interval none = false
  long_enough interval (some d) = leb interval d

  abbrev pub keeps_range : ℕ → Bytes → Bool
  keeps_range interval s =
      valid_range long_max s
      && (range_in_bounds long_max s && long_enough interval (parse_duration long_max s))

  module _ {D : Type 0} where
    abbrev pub range_step : ℕ → Scalar D → Option (List Bytes) → Option (List Bytes)
    range_step interval (text s) rest =
        if keeps_range interval s
        then (do r ← fit_field 8 s; more ← rest; some (r ∷ more))
        else rest
    range_step interval _ rest = rest

    pub ranges_from : ℕ → List (Elem D) → Option (List Bytes)
    ranges_from interval [] = some []
    ranges_from interval (e ∷ es) = range_step interval (elem_of e) (ranges_from interval es)

    -- More than MAX_RANGES entries, or none that is kept, are refused.
    abbrev pub ranges_of : ℕ → Datum D → List Bytes → Option (List Bytes)
    ranges_of interval (single s) dst = some dst
    ranges_of interval (array []) dst = some dst
    ranges_of interval (array (e ∷ es)) dst = do
      few ← refuse (ltb 8 (length (e ∷ es))) (e ∷ es)
      ranges ← ranges_from interval few
      refuse (length ranges == 0) ranges

    abbrev pub cooldown_of : Scalar D → ℕ
    cooldown_of (text s) = or_zero (parse_duration long_max s)
    cooldown_of _ = 0

    module _ (to_float : D → D) ⦃d : Double D⦄ where
      abbrev pub fallback_of : Scalar D → D → D
      fallback_of (fp x) dst = if above_nought x then to_float x else dst
      fallback_of (int z) dst = if is_positive z then to_float (of_int z) else dst
      fallback_of _ dst = dst

      unfoldable pub load_dashboard :
          ℕ → (Bytes → Datum D) → DashboardCfg D → Option (DashboardCfg D)
      load_dashboard interval seek c = do
        title ← str_copy 128 (scalar_of (seek (codes "dashboard.title"))) c.title
        theme ← theme_of (scalar_of (seek (codes "dashboard.theme"))) c.theme
        charts ← listing_of chart_names (seek (codes "dashboard.charts"))
        cards ← listing_of card_names (seek (codes "dashboard.cards"))
        ranges ← ranges_of interval (seek (codes "dashboard.ranges")) c.ranges
        some (record {
          title = title;
          theme = theme;
          show_footer = flag_of (scalar_of (seek (codes "dashboard.show_footer"))) c.show_footer;
          refresh_seconds =
              positive_of (scalar_of (seek (codes "dashboard.refresh"))) c.refresh_seconds;
          units = load_units seek c.units;
          temp_critical_fallback =
              fallback_of (scalar_of (seek (codes "dashboard.temp_critical_fallback")))
                c.temp_critical_fallback;
          net_max_speed =
              net_max_speed_of (scalar_of (seek (codes "dashboard.net_max_speed"))) c.net_max_speed;
          charts = charts;
          cards = cards;
          ranges = ranges;
        })

      pub load_alert : Elem D → Option (AlertCfg D)
      load_alert (value s) = none
      load_alert (table get) = do
        dname ← required (get (codes "name"))
        dmet ← required (get (codes "metric"))
        dop ← required (get (codes "operator"))
        op ← refuse (not (valid_op dop)) dop
        metric ← refuse (not (in_list dmet metric_names)) dmet
        threshold ← threshold_of (get (codes "threshold"))
        name ← fit_field 64 dname
        metric_field ← fit_field 32 metric
        op_field ← fit_field 4 op
        webhook ← str_copy 512 (get (codes "webhook")) []
        command ← str_copy 256 (get (codes "command")) []
        refuse (is_empty webhook && is_empty command) (record {
          name = name;
          metric = metric_field;
          op = op_field;
          threshold = threshold;
          webhook = webhook;
          command = command;
          cooldown_seconds = cooldown_of (get (codes "cooldown"));
        })

      pub alerts_from : List (Elem D) → Option (List (AlertCfg D))
      alerts_from [] = some []
      alerts_from (e ∷ es) =
          let rest = alerts_from es in do a ← load_alert e; more ← rest; some (a ∷ more)

      abbrev pub load_alerts : Datum D → Option (List (AlertCfg D))
      load_alerts (single s) = refuse (not (is_unknown s)) []
      load_alerts (array es) = refuse (ltb 16 (length es)) es >>= alerts_from

      -- From config_defaults, as its contract asks.
      unfoldable pub config_load : Files → (Bytes → Datum D) → Option (Config D)
      config_load files seek = do
        let c = config_defaults {D = D}
        server ← load_server seek c.server
        collect ← load_collect files seek c.collect
        webhooks ← load_webhooks files seek c.webhooks
        dashboard ← load_dashboard collect.interval_seconds seek c.dashboard
        alerts ← load_alerts (seek (codes "alert"))
        some (record {
          server = server;
          collect = collect;
          webhooks = webhooks;
          dashboard = clamp_refresh collect.interval_seconds dashboard;
          alerts = alerts;
        })
