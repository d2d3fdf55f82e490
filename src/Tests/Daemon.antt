-- ===== src/Tests/Daemon.antt =====
-- src/main.c: the options, the parts of the two commands, and the daemon's cycle.
use minimoni.Prelude.{
  Bool, Bytes, List, OnSome, Option, [], arith, codes, false, none, refl, some, suc, true, zero, ℕ,
  ◌*◌, ◌+◌, ◌<◌, ◌∷◌, ◌≡◌,
}
use minimoni.Double.{whole_double}
use minimoni.Db.Snapshot.{Columns, bind_row, read_row}
use minimoni.Db.Store.{Store, done, row, step_with_retry}
use minimoni.Alerts.Evaluate.{Attempt, alerts_evaluate}
use minimoni.Metrics.Collect.{Host, no_snapshots}
use minimoni.Serve.Cycle.{Daemon, Storing, Wake, serve_loop, store_sample, tidy}
use minimoni.Serve.Cycle.Fresh.{store_sample-judged, stored}
use minimoni.Serve.Cycle.Loop.{after_turns, asks_stop, cycles_of, serve_loop-stops}
use minimoni.Serve.Main.{parse_config_flag, run_collect, run_serve}
use minimoni.Serve.Main.Flags.{flags, last_path, parse_config_flag-pairs}
use minimoni.Serve.Main.Parts.{EndsWell, judges, loops, run-EndsWell}
use minimoni.Tests.Storage.{sample}
use minimoni.Tests.Alerting.{disk_alert}

abbrev pub no_iso : ℕ → Bytes
no_iso t = codes "2026-01-01T00:00:00Z"

-- The columns of the last row stand for the average.
abbrev pub any_avg : List (Columns ℕ) → Columns ℕ
any_avg [] = bind_row 60 (no_iso 0) 0 sample
any_avg (c ∷ cs) = c

abbrev pub earlier : Store (Columns ℕ)
earlier = record {
  metrics =
      record { ts = 1000; bucket_sec = some 60; values = bind_row 60 (no_iso 1000) 1000 sample }
      ∷ [];
  alert_log = [];
}

abbrev delivers : Attempt
delivers = record {
  webhook_ok = true;
  command_ok = false;
  check_now = 1060;
  check_steps = λ i. row;
  log_now = 1060;
  log_steps = λ i. done;
}

abbrev storing_at : ℕ → Storing
storing_at now = record {
  insert_now = now;
  insert_steps = λ i. done;
  consolidated = true;
  consolidate_now = now;
  prune_now = now;
  prune_metrics_steps = λ i. done;
  prune_alerts_steps = λ i. done;
  current_prepared = true;
  current_step = row;
  attempts = λ i. delivers;
}

-- A sample a minute after the only row, with the alert on the disk.
store_sample-judged_example :
    store_sample ⦃d = whole_double⦄ no_iso any_avg 60 2
      (disk_alert ∷ [])
      (storing_at 1060)
      sample
      earlier
    ≡ (let (after, acts) =
          alerts_evaluate ⦃d = whole_double⦄
            (λ i. delivers)
            (read_row ⦃d = whole_double⦄ (bind_row 60 (no_iso 1060) 1060 sample))
            (disk_alert ∷ [])
            (tidy no_iso any_avg 60 2 (disk_alert ∷ []) (storing_at 1060) (
              stored ⦃d = whole_double⦄ no_iso any_avg 60 2
                (disk_alert ∷ [])
                (storing_at 1060)
                sample
                earlier)) in
        (after, acts, true))
unfolding step_with_retry
store_sample-judged_example =
    store_sample-judged ⦃d = whole_double⦄ no_iso any_avg 60 2 (disk_alert ∷ []) (storing_at 1060)
      sample earlier refl (omega arith, tt) (omega arith) (omega arith) refl refl

abbrev silent : Host
silent = record {
  loadavg = none;
  meminfo = none;
  disk = none;
  uptime = none;
  stat = none;
  zone_type = λ z. none;
  zone_temp = λ z. none;
  net_time = record { tv_sec = 0; tv_nsec = 0 };
  net_dev = none;
  vmstat_time = record { tv_sec = 0; tv_nsec = 0 };
  vmstat = none;
}

abbrev turn : Bool → Bool → Wake
turn stops sleeps = record {
  flag_before = false;
  flag_after = stops;
  slept = sleeps;
  host = silent;
  storing = storing_at 1060;
}

-- A turn that sleeps, one that a signal wakes, and then the one that is asked to stop.
abbrev turns : ℕ → Wake
turns zero = turn false true
turns (suc zero) = turn false false
turns (suc (suc i)) = turn true false

abbrev no_strtod : Bytes → Option (ℕ × Bytes)
no_strtod s = none

abbrev at_start : Daemon ℕ
at_start = record {
  sampler = no_snapshots;
  m = sample;
  next_sec = 1060;
  failed_run = 0;
  store = earlier;
  actions_done = [];
}

abbrev at_end : Daemon ℕ
at_end =
    after_turns ⦃d = whole_double⦄ no_iso any_avg no_strtod 9223372036854775807 4096 60 2 [] turns 2
      at_start

quiet_before : (j : ℕ) → j < 2 → asks_stop (turns j) ≡ false
quiet_before zero h = refl
quiet_before (suc zero) h = refl
quiet_before (suc (suc j)) h = absurd (omega arith)

serve_loop-stops_example :
    (serve_loop ⦃d = whole_double⦄ no_iso any_avg no_strtod 9223372036854775807 4096 60 2 [] turns 3
        0 at_start
      ≡ some at_end)
    × (serve_loop ⦃d = whole_double⦄ no_iso any_avg no_strtod 9223372036854775807 4096 60 2 [] turns
          2 0 at_start
        ≡ none)
    × (at_end.next_sec ≡ 1060 + 1 * 60)
unfolding cycles_of
serve_loop-stops_example =
    serve_loop-stops ⦃d = whole_double⦄ no_iso any_avg no_strtod 9223372036854775807 4096 60 2 []
      turns 2 at_start quiet_before refl

-- The server's port is taken, and the first collection of the other command fails.
run-EndsWell_example :
    EndsWell loops
      (run_serve (record { config_ok = true; db_ok = true; db_ro_ok = true; http_ok = false }))
    × EndsWell judges (
        run_collect (record {
          config_ok = true;
          db_ok = true;
          seed_ok = false;
          sample_ok = true;
          insert_ok = true;
        }))
run-EndsWell_example =
    run-EndsWell (record { config_ok = true; db_ok = true; db_ro_ok = true; http_ok = false })
      (record {
        config_ok = true;
        db_ok = true;
        seed_ok = false;
        sample_ok = true;
        insert_ok = true;
      })

parse_config_flag-pairs_example :
    (parse_config_flag (flags (codes "a" ∷ codes "b" ∷ [])) none
      ≡ some (last_path (codes "a" ∷ codes "b" ∷ []) none))
    × OnSome
        (λ path.
          (given : List Bytes) × (codes "--config" ∷ [] ≡ flags given)
          × (path ≡ last_path given none))
        (parse_config_flag (codes "--config" ∷ []) none)
parse_config_flag-pairs_example =
    parse_config_flag-pairs (codes "--config" ∷ []) (codes "a" ∷ codes "b" ∷ []) none
