-- ===== src/Alerts/Evaluate.antt =====
-- alerts_evaluate of src/alerts.c. What the network, the shell, the clock and SQLite answer while an
-- alert is handled is its `Attempt`: `webhook_ok` is post_webhook's result and `command_ok`
-- run_command's. What they are given is in Alerts.Deliver; here only that they are called.
pub mod Cooling
use minimoni.Prelude.{
  Bool, Bytes, List, [], false, if◌then◌else◌, not, true, ℕ, ◌&&◌, ◌++◌, ◌+◌, ◌||◌, ◌∷◌,
}
use minimoni.Double.{Double}
use minimoni.Config.Settings.{AlertCfg}
use minimoni.Config.Datum.{is_empty}
use minimoni.Db.Snapshot.{DbRow}
use minimoni.Db.Store.{
  Cooldown, Rc, Store, cooled, db_alert_log_fire, db_alert_on_cooldown, failed, on_cooldown,
}
use minimoni.Alerts.Condition.{eval_op, get_metric_value}

pub record Attempt : Type 0 where
  pub webhook_ok : Bool
  pub command_ok : Bool
  -- the times that db_alert_on_cooldown and db_alert_log_fire read, and their statements
  pub check_now : ℕ
  pub check_steps : ℕ → Rc
  pub log_now : ℕ
  pub log_steps : ℕ → Rc

pub data Action : Type 0 where
  posted ran : Bytes → Action

abbrev pub is_cooled : Cooldown → Bool
is_cooled cooled = true
is_cooled on_cooldown = false
is_cooled failed = false

module _ {D : Type 0} ⦃d : Double D⦄ where
  abbrev pub has_webhook : AlertCfg D → Bool
  has_webhook a = not (is_empty a.webhook)

  abbrev pub has_command : AlertCfg D → Bool
  has_command a = not (is_empty a.command)

  abbrev pub is_met : DbRow D → AlertCfg D → Bool
  is_met r a =
      let (valid, val) = get_metric_value r a.metric in valid && eval_op val a.op a.threshold

  abbrev pub actions : AlertCfg D → List Action
  actions a =
      (if has_webhook a then posted a.name ∷ [] else [])
      ++ (if has_command a then ran a.name ∷ [] else [])

  abbrev pub is_delivered : Attempt → AlertCfg D → Bool
  is_delivered att a = has_webhook a && att.webhook_ok || has_command a && att.command_ok

module _ {D V : Type 0} ⦃d : Double D⦄ where
  abbrev pub is_free : Attempt → AlertCfg D → Store V → Bool
  is_free att a s =
      is_cooled (db_alert_on_cooldown a.name a.cooldown_seconds att.check_now att.check_steps s)

  -- The loop's body: what it does to the store, and the actions in order.
  unfoldable pub evaluate_alert : Attempt → DbRow D → AlertCfg D → Store V → Store V × List Action
  evaluate_alert att r a s =
      if not (is_met r a)
      then (s, [])
      else if not (is_free att a s)
      then (s, [])
      else if not (is_delivered att a)
      then (s, actions a)
      else ((db_alert_log_fire a.name att.log_now att.log_steps s).0, actions a)

  -- The i-th pass of the loop has the answers `att i`.
  unfoldable pub evaluate_from :
      (ℕ → Attempt) → ℕ → DbRow D → List (AlertCfg D) → Store V → Store V × List Action
  evaluate_from att i r [] s = (s, [])
  evaluate_from att i r (a ∷ rest) s =
      let (s', now) = evaluate_alert (att i) r a s in
      let (s'', later) = evaluate_from att (i + 1) r rest s' in (s'', now ++ later)

  unfoldable pub alerts_evaluate :
      (ℕ → Attempt) → DbRow D → List (AlertCfg D) → Store V → Store V × List Action
  alerts_evaluate att r alerts s = evaluate_from att 0 r alerts s
