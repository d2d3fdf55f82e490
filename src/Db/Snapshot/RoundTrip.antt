-- ===== src/Db/Snapshot/RoundTrip.antt =====
-- A sample that db_insert of src/db.c stores, as read_row reads it.
use minimoni.Prelude.{Bool, Bytes, false, refl, true, ℕ, ◌≡◌}
use minimoni.Double.{Double}
use minimoni.Db.Snapshot.{Metrics, bind_row, column_double, gated, is_real, read_row, under}

module _ {D : Type 0} ⦃d : Double D⦄ where
  is_real-gated : (valid : Bool) (x : D) → is_real (gated valid x) ≡ valid
  is_real-gated true x = refl
  is_real-gated false x = refl

  -- A field whose column is tested, and one beside it under the same flag.
  under-gated :
      (valid : Bool) (x y : D)
      → under (is_real (gated valid x)) (column_double (gated valid y)) ≡ under valid y
  under-gated true x y = refl
  under-gated false x y = refl

  -- The flags of a row that is read are those of the sample that was stored, and so are its values,
  -- which are 0 where the flag is not set: NULL columns bring no stale value back.
  pub read_row-bind_row :
      (interval_sec : ℕ) (ts : Bytes) (now : ℕ) (m : Metrics D)
      → let r = read_row (bind_row interval_sec ts now m) in
        ((r.timestamp ≡ ts) × (r.unix_time ≡ now))
        × ((r.cpu_valid ≡ m.cpu_valid)
            × (r.temp_valid ≡ m.temp_valid)
            × (r.net_valid ≡ m.net_valid)
            × (r.swap_valid ≡ m.swap_valid)
            × (r.swap_io_valid ≡ m.swap_io_valid))
        × ((r.load_1m ≡ m.load_1m) × (r.load_5m ≡ m.load_5m) × (r.load_15m ≡ m.load_15m))
        × ((r.cpu_user_percent ≡ under m.cpu_valid m.cpu_user_percent)
            × (r.cpu_system_percent ≡ under m.cpu_valid m.cpu_system_percent)
            × (r.cpu_idle_percent ≡ under m.cpu_valid m.cpu_idle_percent))
        × ((r.mem_total_mb ≡ m.mem_total_mb) × (r.mem_available_mb ≡ m.mem_available_mb))
        × ((r.disk_total_gb ≡ m.disk_total_gb) × (r.disk_available_gb ≡ m.disk_available_gb))
        × ((r.temp_celsius ≡ under m.temp_valid m.temp_celsius)
            × (r.uptime_seconds ≡ m.uptime_seconds))
        × ((r.net_rx_bps ≡ under m.net_valid m.net_rx_bps)
            × (r.net_tx_bps ≡ under m.net_valid m.net_tx_bps))
        × ((r.swap_total_mb ≡ under m.swap_valid m.swap_total_mb)
            × (r.swap_free_mb ≡ under m.swap_valid m.swap_free_mb))
        × ((r.swap_in_bps ≡ under m.swap_io_valid m.swap_in_bps)
            × (r.swap_out_bps ≡ under m.swap_io_valid m.swap_out_bps))
  read_row-bind_row interval_sec ts now m = (
    (refl, refl),
    (
      is_real-gated m.cpu_valid _,
      is_real-gated m.temp_valid _,
      is_real-gated m.net_valid _,
      is_real-gated m.swap_valid _,
      is_real-gated m.swap_io_valid _,
    ),
    (refl, refl, refl),
    (under-gated m.cpu_valid _ _, under-gated m.cpu_valid _ _, under-gated m.cpu_valid _ _),
    (refl, refl),
    (refl, refl),
    (under-gated m.temp_valid _ _, refl),
    (under-gated m.net_valid _ _, under-gated m.net_valid _ _),
    (under-gated m.swap_valid _ _, under-gated m.swap_valid _ _),
    (under-gated m.swap_io_valid _ _, under-gated m.swap_io_valid _ _),
  )
