-- ===== src/Db/Store.antt =====
-- src/db.c: the two tables and the statements that write them, and those of the alert log.
-- A text timestamp ("YYYY-MM-DDTHH:MM:SSZ") is the second that it names: such texts compare as
-- their seconds do. A cutoff `now - k` is moved to the other side of its comparison, so that no
-- difference is taken. `step` gives the results of the successive calls of sqlite3_step.
pub mod Pruning
use minimoni.Prelude.{
  Bool, Bytes, List, [], false, if◌then◌else◌, leb, length, ltb, not, select, some, str_eq, suc,
  true, zero, ℕ, ◌&&◌, ◌*◌, ◌++◌, ◌+◌, ◌∷◌,
}
use minimoni.Db.Tiers.{Row}

-- SQLITE_DONE, SQLITE_ROW, SQLITE_BUSY, and every error
pub data Rc : Type 0 where
  done row busy error : Rc

abbrev pub is_busy : Rc → Bool
is_busy busy = true
is_busy _ = false

abbrev pub is_done : Rc → Bool
is_done done = true
is_done _ = false

abbrev pub is_row : Rc → Bool
is_row row = true
is_row _ = false

-- The loop of step_with_retry, with `tries` left and `i` steps made. With none left the last
-- result, which was SQLITE_BUSY, is returned.
pub retry : (ℕ → Rc) → ℕ → ℕ → Rc
retry step zero i = busy
retry step (suc tries) i =
    let rest = retry step tries (i + 1) in if is_busy (step i) then rest else step i

unfoldable pub step_with_retry : (ℕ → Rc) → Rc
unfolding retry
step_with_retry step = retry step 3 0

pub record Fire : Type 0 where
  pub alert_name : Bytes
  pub fired_at : ℕ

pub record Store (V : Type 0) : Type 0 where
  pub metrics : List (Row V)
  pub alert_log : List Fire

-- What db_alert_on_cooldown answers: 0, 1 and -1.
pub data Cooldown : Type 0 where
  cooled on_cooldown failed : Cooldown

-- fired_at > now - cooldown_seconds
abbrev pub is_recent : Bytes → ℕ → ℕ → Fire → Bool
is_recent name cooldown_seconds now f =
    str_eq f.alert_name name && ltb now (f.fired_at + cooldown_seconds)

-- DELETE FROM alert_log WHERE fired_at < now - retention
abbrev pub keep_fires : ℕ → ℕ → List Fire → List Fire
keep_fires retention now = select (λ f. leb now (f.fired_at + retention))

module _ {V : Type 0} where
  unfoldable pub db_insert : ℕ → ℕ → V → (ℕ → Rc) → Store V → Store V × Bool
  db_insert interval_sec now values step s =
      if is_done (step_with_retry step)
      then (
        record s {
          metrics =
              s.metrics
              ++ record { ts = now; bucket_sec = some interval_sec; values = values } ∷ [];
        },
        true,
      )
      else (s, false)

  -- DELETE FROM metrics WHERE timestamp < now - retention
  abbrev pub keep_rows : ℕ → ℕ → List (Row V) → List (Row V)
  keep_rows retention now = select (λ r. leb now (r.ts + retention))

  unfoldable pub db_prune : ℕ → ℕ → (ℕ → Rc) → (ℕ → Rc) → Store V → Store V × Bool
  db_prune retention_days now step_metrics step_alerts s =
      let pruned = record s { metrics = keep_rows (retention_days * 86400) now s.metrics } in
      if not (is_done (step_with_retry step_metrics))
      then (s, false)
      else if not (is_done (step_with_retry step_alerts))
      then (pruned, false)
      else (record pruned { alert_log = keep_fires (retention_days * 86400) now s.alert_log }, true)

  unfoldable pub db_alert_on_cooldown : Bytes → ℕ → ℕ → (ℕ → Rc) → Store V → Cooldown
  db_alert_on_cooldown name cooldown_seconds now step s =
      if not (is_row (step_with_retry step))
      then failed
      else if ltb 0 (length (select (is_recent name cooldown_seconds now) s.alert_log))
      then on_cooldown
      else cooled

  unfoldable pub db_alert_log_fire : Bytes → ℕ → (ℕ → Rc) → Store V → Store V × Bool
  db_alert_log_fire name now step s =
      if is_done (step_with_retry step)
      then (
        record s { alert_log = s.alert_log ++ record { alert_name = name; fired_at = now } ∷ [] },
        true,
      )
      else (s, false)
