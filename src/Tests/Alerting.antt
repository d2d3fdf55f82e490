-- ===== src/Tests/Alerting.antt =====
-- src/alerts.c and src/config.c: an alert from the configuration to its delivery.
use minimoni.Prelude.{
  Bool, Bytes, List, [], arith, codes, false, inl, inr, refl, select, some, str_eq, true, ℕ, ◌*◌,
  ◌∷◌, ◌≡◌, ◌≤◌,
}
use minimoni.Double.{whole_double}
use minimoni.Config.Settings.{AlertCfg, config_defaults}
use minimoni.Config.Datum.{Datum, Files, single, unknown}
use minimoni.Config.Load.{config_load, load_collect, load_dashboard, load_server, load_webhooks}
use minimoni.Serve.{retention_days}
use minimoni.Serve.Retention.{retention_days-covers}
use minimoni.Config.Load.Sound.{IsConfig, config_load-IsConfig}
use minimoni.Config.Duration.{last_byte, parse_duration, range_in_bounds, range_of, valid_range}
use minimoni.Strtol.{from_digits, skip_spaces, strtol, take_digits, take_sign}
use minimoni.Db.Store.{Store, db_alert_log_fire, db_alert_on_cooldown, step_with_retry}
use minimoni.Db.Store.Pruning.{answers, works}
use minimoni.Alerts.Condition.{eval_op, first_named, get_metric_value, readings}
use minimoni.Alerts.Evaluate.{Attempt, evaluate_alert, posted}
use minimoni.Alerts.Evaluate.Cooling.{
  Between, evaluate_alert-cooldown, evaluated, happen_all, pruned, rows_changed,
}
use minimoni.Tests.Storage.{stored}

-- Used disk space of 75 % against a threshold of 70.
abbrev pub disk_alert : AlertCfg ℕ
disk_alert = record {
  name = codes "disk";
  metric = codes "disk_used_percent";
  op = codes ">";
  threshold = 70;
  webhook = codes "https://a.b/c";
  command = [];
  cooldown_seconds = 300;
}

abbrev empty_store : Store ℕ
empty_store = record { metrics = []; alert_log = [] }

-- An attempt at a second, delivered or not, with a database that works.
abbrev pub attempt_at : ℕ → Bool → Attempt
attempt_at now ok = record {
  webhook_ok = ok;
  command_ok = false;
  check_now = now;
  check_steps = answers;
  log_now = now;
  log_steps = works;
}

fires : evaluate_alert ⦃d = whole_double⦄ (attempt_at 1000 true) stored disk_alert empty_store ≡ (
  record { metrics = []; alert_log = record { alert_name = codes "disk"; fired_at = 1000 } ∷ [] },
  posted (codes "disk") ∷ [],
)
unfolding evaluate_alert get_metric_value first_named readings eval_op str_eq db_alert_on_cooldown
    step_with_retry db_alert_log_fire select
fires = refl

abbrev fired : Store ℕ
fired = (evaluate_alert ⦃d = whole_double⦄ (attempt_at 1000 true) stored disk_alert empty_store).0

-- What happens in the next five minutes: a sample, a pruning and another evaluation.
abbrev meanwhile : List (Between ℕ ℕ)
meanwhile =
    rows_changed (record { ts = 1050; bucket_sec = some 60; values = 7 } ∷ [])
    ∷ pruned 1060 works works
    ∷ evaluated (λ i. attempt_at 1100 true) stored (disk_alert ∷ [])
    ∷ []

evaluate_alert-cooldown_example :
    let s' = happen_all ⦃d = whole_double⦄ 1 meanwhile fired in
    evaluate_alert ⦃d = whole_double⦄ (attempt_at 1299 true) stored disk_alert s' ≡ (s', [])
unfolding get_metric_value first_named readings eval_op str_eq db_alert_on_cooldown step_with_retry
    select
evaluate_alert-cooldown_example =
    evaluate_alert-cooldown ⦃d = whole_double⦄ 1 (attempt_at 1000 true) (attempt_at 1299 true)
      meanwhile stored stored disk_alert empty_store refl refl refl refl (omega arith) (omega arith)
      (tt, (omega arith, (tt, tt)))

-- LONG_MAX where a long has 64 bits
abbrev long_max : ℕ
long_max = 9223372036854775807

abbrev system : Files
system = record { statvfs_ok = λ path. true; has_certificate = λ path. false }

-- A file that sets nothing.
abbrev blank : Bytes → Datum ℕ
blank key = single unknown

abbrev same_float : ℕ → ℕ
same_float x = x

config_load-IsConfig_example : IsConfig {D = ℕ} (config_defaults ⦃d = whole_double⦄)
unfolding config_load load_server load_collect load_webhooks load_dashboard
config_load-IsConfig_example =
    config_load-IsConfig long_max same_float ⦃d = whole_double⦄ system blank
      (config_defaults ⦃d = whole_double⦄) refl

retention_days-covers_example :
    (d : ℕ) × (parse_duration long_max (codes "72h") ≡ some d)
    × (d ≤ retention_days long_max (codes "1d" ∷ codes "72h" ∷ []) * 86400)
unfolding valid_range range_in_bounds range_of last_byte strtol skip_spaces take_sign take_digits
    from_digits
retention_days-covers_example =
    retention_days-covers long_max (codes "1d" ∷ codes "72h" ∷ []) (codes "72h") (inr (inl refl))
      refl refl
