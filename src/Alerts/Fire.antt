-- ===== src/Alerts/Fire.antt =====
-- The body of alerts_evaluate's loop in src/alerts.c with the delivery that it makes.
pub mod Recorded
use minimoni.Prelude.{Bool, Bytes, List, Option, [], codes, none, some, take, ◌∷◌}
use minimoni.Double.{Double}
use minimoni.Config.Settings.{AlertCfg, WebhookCfg}
use minimoni.Db.Snapshot.{DbRow}
use minimoni.Db.Store.{Store}
use minimoni.Alerts.Condition.{get_metric_value}
use minimoni.Alerts.Evaluate.{Action, Attempt, evaluate_alert}
use minimoni.Alerts.Deliver.{Net, Wire, post_webhook}

-- hostname: cfg->title, or what gethostname gives, in 127 bytes
unfoldable pub hostname_of : Bytes → Option Bytes → Bytes
hostname_of [] none = codes "unknown"
hostname_of [] (some name) = name
hostname_of (c ∷ title) name = take 127 (c ∷ title)

module _ {D : Type 0} ⦃d : Double D⦄ (cfg : WebhookCfg) (net : Net) (hostname : Bytes) where
  -- post_webhook(cfg, a, value, row->timestamp, hostname)
  abbrev pub posts : DbRow D → AlertCfg D → Wire × Bool
  posts r a = post_webhook cfg net a (get_metric_value r a.metric).1 r.timestamp hostname

  -- The loop's body, the webhook's result being post_webhook's.
  unfoldable pub fire_alert :
      {V : Type 0} → Attempt → DbRow D → AlertCfg D → Store V → Store V × List Action
  fire_alert att r a s = evaluate_alert (record att { webhook_ok = (posts r a).1 }) r a s
