-- ===== src/Alerts/Condition.antt =====
-- get_metric_value and eval_op of src/alerts.c: the value that an alert watches, and its condition.
pub mod Known
use minimoni.Prelude.{Bool, Bytes, List, [], codes, false, if◌then◌else◌, str_eq, true, ◌∷◌}
use minimoni.Double.{Double, nought}
use minimoni.Db.Snapshot.{DbRow}

module _ {D : Type 0} ⦃d : Double D⦄ where
  -- The chain of tests. `reading valid value` is its end for one name.
  unfoldable pub readings : DbRow D → List (Bytes × (Bool × D))
  readings row =
      (codes "load_1m", (true, row.load_1m))
      ∷ (codes "load_5m", (true, row.load_5m))
      ∷ (codes "load_15m", (true, row.load_15m))
      ∷ (codes "cpu_user_percent", (row.cpu_valid, row.cpu_user_percent))
      ∷ (codes "cpu_system_percent", (row.cpu_valid, row.cpu_system_percent))
      ∷ (codes "cpu_idle_percent", (row.cpu_valid, row.cpu_idle_percent))
      ∷ (codes "mem_used_mb", (true, row.mem_used_mb))
      ∷ (codes "mem_available_mb", (true, row.mem_available_mb))
      ∷ (codes "mem_used_percent", (true, row.mem_used_percent))
      ∷ (codes "mem_available_percent", (true, row.mem_available_percent))
      ∷ (codes "disk_used_gb", (true, row.disk_used_gb))
      ∷ (codes "disk_available_gb", (true, row.disk_available_gb))
      ∷ (codes "disk_used_percent", (true, row.disk_used_percent))
      ∷ (codes "disk_available_percent", (true, row.disk_available_percent))
      ∷ (codes "temp_celsius", (row.temp_valid, row.temp_celsius))
      ∷ (codes "net_rx_bps", (row.net_valid, row.net_rx_bps))
      ∷ (codes "net_tx_bps", (row.net_valid, row.net_tx_bps))
      ∷ (codes "uptime_seconds", (true, row.uptime_seconds))
      ∷ (codes "swap_free_mb", (row.swap_valid, row.swap_free_mb))
      ∷ (codes "swap_used_mb", (row.swap_valid, row.swap_used_mb))
      ∷ (codes "swap_free_percent", (row.swap_valid, row.swap_free_percent))
      ∷ (codes "swap_used_percent", (row.swap_valid, row.swap_used_percent))
      ∷ (codes "swap_in_bps", (row.swap_io_valid, row.swap_in_bps))
      ∷ (codes "swap_out_bps", (row.swap_io_valid, row.swap_out_bps))
      ∷ (codes "swap_in_ram", (row.swap_io_valid, row.swap_in_ram))
      ∷ (codes "swap_out_ram", (row.swap_io_valid, row.swap_out_ram))
      ∷ []

  -- The first name that is equal; behind the last test `*valid` is 0 and the value 0.0.
  unfoldable pub first_named : Bytes → List (Bytes × (Bool × D)) → Bool × D
  first_named m [] = (false, nought)
  first_named m ((name, reading) ∷ rest) =
      let next = first_named m rest in if str_eq m name then reading else next

  unfoldable pub get_metric_value : DbRow D → Bytes → Bool × D
  get_metric_value row m = first_named m (readings row)

  -- a > b is b < a, and a >= b is b <= a; no other operator is met.
  unfoldable pub eval_op : D → Bytes → D → Bool
  eval_op val op thr =
      if str_eq op (codes ">")
      then d.lt thr val
      else if str_eq op (codes "<")
      then d.lt val thr
      else if str_eq op (codes ">=")
      then d.le thr val
      else if str_eq op (codes "<=")
      then d.le val thr
      else false
