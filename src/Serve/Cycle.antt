-- ===== src/Serve/Cycle.antt =====
-- run_serve and run_collect of src/main.c: the cycle that collects, stores, consolidates, prunes and
-- judges the alerts, and the loop around it. `iso` is the text of a second, and `avg` the SQL
-- function AVG on the columns of rows.
pub mod Fresh
pub mod Loop
use minimoni.Prelude.{
  Bool, Bytes, List, Option, [], false, if◌then◌else◌, none, not, some, suc, true, zero, ℕ, ◌++◌,
  ◌+◌, ◌||◌,
}
use minimoni.Double.{Double}
use minimoni.Config.Settings.{AlertCfg}
use minimoni.Db.Snapshot.{Columns, DbRow, Metrics, bind_row, read_row}
use minimoni.Db.Tiers.{Row, db_consolidate}
use minimoni.Db.Store.{Rc, Store, db_insert, db_prune}
use minimoni.Db.Query.{Current, current, db_current, no_rows, not_prepared}
use minimoni.Alerts.Evaluate.{Action, Attempt, alerts_evaluate}
use minimoni.Metrics.Collect.{Host, Sampler, metrics_collect, metrics_run_note}

-- What SQLite, the clock and the alerts' deliveries answer once a sample is there.
pub record Storing : Type 0 where
  pub insert_now : ℕ
  pub insert_steps : ℕ → Rc
  pub consolidated : Bool
  pub consolidate_now : ℕ
  pub prune_now : ℕ
  pub prune_metrics_steps : ℕ → Rc
  pub prune_alerts_steps : ℕ → Rc
  pub current_prepared : Bool
  pub current_step : Rc
  pub attempts : ℕ → Attempt

-- One turn of the loop: shutdown_flag where it is read, whether clock_nanosleep returned 0, and
-- what the host and the database answer.
pub record Wake : Type 0 where
  pub flag_before : Bool
  pub flag_after : Bool
  pub slept : Bool
  pub host : Host
  pub storing : Storing

-- What the loop holds: the static snapshots, m, next.tv_sec, run.failed and the database; and the
-- alerts' actions so far.
pub record Daemon (D : Type 0) : Type 0 where
  pub sampler : Sampler
  pub m : Metrics D
  pub next_sec : ℕ
  pub failed_run : ℕ
  pub store : Store (Columns D)
  pub actions_done : List Action

module _ {D : Type 0} ⦃d : Double D⦄ (iso : ℕ → Bytes) (avg : List (Columns D) → Columns D)
    (interval days : ℕ) (alerts : List (AlertCfg D)) where
  -- The row as db_current reads it.
  abbrev pub read_current : Row (Columns D) → DbRow D
  read_current r = read_row (record r.values { stamp = iso r.ts; seconds = r.ts })

  abbrev pub sample_of : ℕ → Metrics D → Columns D
  sample_of now m = bind_row interval (iso now) now m

  -- db_consolidate and db_prune
  unfoldable pub tidy : Storing → Store (Columns D) → Store (Columns D)
  tidy w s =
      (db_prune days w.prune_now w.prune_metrics_steps w.prune_alerts_steps (record s {
        metrics = (db_consolidate avg w.consolidated w.consolidate_now s.metrics).0;
      })).0

  -- if (db_current(&db, &row) == 0) alerts_evaluate(&db, &cfg, &row);
  abbrev pub judge :
      Storing → Current (Columns D) → Store (Columns D) → Store (Columns D) × List Action
  judge w (current r) s = alerts_evaluate w.attempts (read_current r) alerts s
  judge w no_rows s = (s, [])
  judge w not_prepared s = (s, [])

  -- From db_insert on; `false` when it fails.
  unfoldable pub store_sample :
      Storing → Metrics D → Store (Columns D) → Store (Columns D) × List Action × Bool
  store_sample w m s =
      let (inserted, ok) =
        db_insert interval w.insert_now (sample_of w.insert_now m) w.insert_steps s in
      if not ok
      then (inserted, [], false)
      else (let tidied = tidy w inserted in
          let (judged, acts) =
            judge w (db_current w.current_prepared w.current_step tidied) tidied in
          (judged, acts, true))

module _ {D : Type 0} ⦃d : Double D⦄ (iso : ℕ → Bytes) (avg : List (Columns D) → Columns D)
    (strtod : Bytes → Option (D × Bytes)) (long_max page : ℕ) (interval days : ℕ)
    (alerts : List (AlertCfg D)) where
  -- The rest of the turn, with what metrics_collect gave.
  abbrev pub after_collect : Wake → Sampler × Option (Metrics D) → Daemon D → Daemon D
  after_collect w (sampler, none) x = record x {
    sampler = sampler;
    next_sec = x.next_sec + interval;
    failed_run = (metrics_run_note x.failed_run false).0;
  }
  after_collect w (sampler, some m) x =
      let (store, acts, ok) = store_sample iso avg interval days alerts w.storing m x.store in
      record {
        sampler = sampler;
        m = m;
        next_sec = x.next_sec + interval;
        failed_run = (metrics_run_note x.failed_run true).0;
        store = store;
        actions_done = x.actions_done ++ acts;
      }

  unfoldable pub cycle : Wake → Daemon D → Daemon D
  cycle w x = after_collect w (metrics_collect strtod long_max page w.host x.sampler x.m) x

  -- The loop's turns, from the i-th on: `some` when it ends, `none` when it still runs after `turns`
  -- of them.
  unfoldable pub serve_loop : (ℕ → Wake) → ℕ → ℕ → Daemon D → Option (Daemon D)
  serve_loop wakes zero i x = none
  serve_loop wakes (suc turns) i x =
      let idle = serve_loop wakes turns (i + 1) x in
      let busy_turn = serve_loop wakes turns (i + 1) (cycle (wakes i) x) in
      if (wakes i).flag_before || (wakes i).flag_after
      then some x
      else if (wakes i).slept
      then busy_turn
      else idle
