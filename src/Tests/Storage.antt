-- ===== src/Tests/Storage.antt =====
-- src/db.c: the tables.
use minimoni.Double.{whole_double}
use minimoni.Prelude.{
  All, Bytes, In, List, [], arith, codes, contains, false, inl, length, none, refl, select, some,
  true, ℕ, ◌&&◌, ◌+◌, ◌/◌, ◌∷◌, ◌≡◌,
}
use minimoni.Db.Tiers.{
  Row, apply_tier, apply_tiers, bucket_start, db_consolidate, distinct, group_row, groups,
  in_bucket, is_due, is_finer, tier_transitions,
}
use minimoni.Db.Tiers.Stable.{consolidate_twice}
use minimoni.Db.Tiers.Coverage.{StandsFor, apply_tier_whole, consolidate_covers, tier_sizes}
use minimoni.Db.Tiers.Steps.{Kept}
use minimoni.Db.Store.{Store, cooled, db_alert_on_cooldown, db_prune, on_cooldown}
use minimoni.Db.Store.Pruning.{answers, prune_cuts_cooldown, works}
use minimoni.Db.Snapshot.{DbRow, Metrics, bind_row, read_row}
use minimoni.Db.Snapshot.RoundTrip.{read_row-bind_row}

abbrev total : List ℕ → ℕ
total [] = 0
total (x ∷ xs) = x + total xs

abbrev mean : List ℕ → ℕ
mean xs = total xs / length xs

-- Three old samples in one bucket of five seconds, and a young one.
abbrev old_row : Row ℕ
old_row = record { ts = 1001; bucket_sec = none; values = 10 }

abbrev young_row : Row ℕ
young_row = record { ts = 9000; bucket_sec = some 1; values = 7 }

abbrev small_table : List (Row ℕ)
small_table =
    old_row
    ∷ record { ts = 1002; bucket_sec = some 1; values = 20 }
    ∷ record { ts = 1004; bucket_sec = some 1; values = 30 }
    ∷ young_row
    ∷ []

consolidated :
    db_consolidate mean true 9100 small_table
    ≡ (young_row ∷ record { ts = 1000; bucket_sec = some 5; values = 20 } ∷ [], true)
unfolding db_consolidate apply_tiers apply_tier is_due select groups distinct contains
consolidated = refl

consolidate_twice_example :
    All (λ t. Kept 9100 t (db_consolidate mean true 9100 small_table).0) tier_transitions
    × (db_consolidate mean true 9100 (db_consolidate mean true 9100 small_table).0
        ≡ db_consolidate mean true 9100 small_table)
consolidate_twice_example = consolidate_twice mean 9100 small_table

consolidate_covers_example :
    (r' : Row ℕ) × In r' (db_consolidate mean true 9100 small_table).0
    × StandsFor (λ b. In b tier_sizes) old_row r'
consolidate_covers_example = consolidate_covers mean 9100 small_table old_row true (inl refl)

apply_tier_whole_example :
    In
      (group_row mean 5
        (select (is_due 9100 (record { bucket_sec = 5; threshold_sec = 7200 })) small_table)
        (bucket_start 5 1001))
      (apply_tier mean 9100 (record { bucket_sec = 5; threshold_sec = 7200 }) small_table)
    × All
        (λ q. (in_bucket 5 (bucket_start 5 1001) q && is_finer 5 q.bucket_sec) ≡ false)
        (apply_tier mean 9100 (record { bucket_sec = 5; threshold_sec = 7200 }) small_table)
unfolding is_due
apply_tier_whole_example =
    apply_tier_whole mean 9100 (record { bucket_sec = 5; threshold_sec = 7200 }) small_table old_row
      (inl refl) refl

abbrev disk_name : Bytes
disk_name = codes "disk"

abbrev one_fire : Store ℕ
one_fire = record {
  metrics = [];
  alert_log = record { alert_name = disk_name; fired_at = 500 } ∷ [];
}

-- A cooldown of three days, a retention of one day, and two days after the fire.
prune_cuts_cooldown_example :
    (db_alert_on_cooldown disk_name 259200 173300 answers one_fire ≡ on_cooldown)
    × (db_alert_on_cooldown disk_name 259200 173300 answers
          (db_prune 1 173300 works works one_fire).0
        ≡ cooled)
prune_cuts_cooldown_example =
    prune_cuts_cooldown disk_name 259200 1 173300 500 one_fire refl (omega arith) (omega arith)

-- A sample with no temperature sensor and no swap.
abbrev pub sample : Metrics ℕ
sample = record {
  load_1m = 1;
  load_5m = 2;
  load_15m = 3;
  cpu_valid = true;
  cpu_user_percent = 40;
  cpu_system_percent = 10;
  cpu_idle_percent = 50;
  mem_total_mb = 8000;
  mem_available_mb = 6000;
  disk_total_gb = 100;
  disk_available_gb = 25;
  temp_valid = false;
  temp_celsius = 99;
  net_valid = true;
  net_rx_bps = 1000;
  net_tx_bps = 2000;
  uptime_seconds = 3600;
  swap_valid = false;
  swap_total_mb = 5;
  swap_free_mb = 4;
  swap_io_valid = false;
  swap_in_bps = 3;
  swap_out_bps = 2;
}

abbrev pub stored : DbRow ℕ
stored = read_row ⦃d = whole_double⦄ (bind_row 60 (codes "2026-01-01T00:00:00Z") 1767225600 sample)

percents :
    (stored.mem_used_percent ≡ 25) × (stored.disk_used_percent ≡ 75) × (stored.temp_celsius ≡ 0)
percents = (refl, refl, refl)

read_row-bind_row_example :
    ((stored.timestamp ≡ codes "2026-01-01T00:00:00Z") × (stored.unix_time ≡ 1767225600))
    × ((stored.cpu_valid ≡ true)
        × (stored.temp_valid ≡ false)
        × (stored.net_valid ≡ true)
        × (stored.swap_valid ≡ false)
        × (stored.swap_io_valid ≡ false))
    × ((stored.load_1m ≡ 1) × (stored.load_5m ≡ 2) × (stored.load_15m ≡ 3))
    × ((stored.cpu_user_percent ≡ 40)
        × (stored.cpu_system_percent ≡ 10)
        × (stored.cpu_idle_percent ≡ 50))
    × ((stored.mem_total_mb ≡ 8000) × (stored.mem_available_mb ≡ 6000))
    × ((stored.disk_total_gb ≡ 100) × (stored.disk_available_gb ≡ 25))
    × ((stored.temp_celsius ≡ 0) × (stored.uptime_seconds ≡ 3600))
    × ((stored.net_rx_bps ≡ 1000) × (stored.net_tx_bps ≡ 2000))
    × ((stored.swap_total_mb ≡ 0) × (stored.swap_free_mb ≡ 0))
    × ((stored.swap_in_bps ≡ 0) × (stored.swap_out_bps ≡ 0))
read_row-bind_row_example =
    read_row-bind_row ⦃d = whole_double⦄ 60 (codes "2026-01-01T00:00:00Z") 1767225600 sample
