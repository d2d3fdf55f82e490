-- ===== src/Alerts/Fire/Recorded.antt =====
-- When alerts_evaluate of src/alerts.c records an alert.
use minimoni.Prelude.{
  Bool, Bool-cases, Bytes, Option, arith, false, false≢true, inl, inr, none, some, true, ◌≡◌, ◌⊎◌,
}
use minimoni.Double.{Double}
use minimoni.Config.Settings.{AlertCfg, WebhookCfg}
use minimoni.Db.Snapshot.{DbRow}
use minimoni.Db.Store.{Store}
use minimoni.Alerts.Url.{Url}
use minimoni.Alerts.Condition.{get_metric_value}
use minimoni.Alerts.Evaluate.{Attempt, has_command}
use minimoni.Alerts.Evaluate.Cooling.{evaluate_alert-undelivered}
use minimoni.Alerts.Deliver.{Net, Wire, post_request, post_webhook, prepare}
use minimoni.Alerts.Deliver.Verified.{IsSafe, post_request-IsSafe}
use minimoni.Alerts.Fire.{fire_alert, posts}

module _ (cfg : WebhookCfg) (net : Net) where
  -- The request was made and answered with a success, on a wire that is safe for its URL.
  abbrev pub Delivered : Option (Url × Bytes) → Wire × Bool → Type 0
  Delivered none sent = ⊥
  Delivered (some (url, req)) sent = (sent.1 ≡ true) × IsSafe cfg net url req sent

  post_request-Delivered :
      (p : Option (Url × Bytes))
      → (post_request cfg net p).1 ≡ true
      → Delivered p (post_request cfg net p)
  unfolding post_request
  post_request-Delivered none ok = absurd (false≢true ok)
  post_request-Delivered (some (url, req)) ok = (ok, post_request-IsSafe cfg net url req)

module _ {D V : Type 0} ⦃d : Double D⦄ (cfg : WebhookCfg) (net : Net) (hostname : Bytes) where
  -- An alert without a command changes the store only if its request was made and answered with a
  -- success, on a wire that is safe for its URL: in the clear for http only, and for https behind
  -- the trust anchors or with insecure_skip_verify. In every other case the store is as before, so
  -- that the cooldown does not start.
  pub fire_alert-Delivered :
      (att : Attempt) (r : DbRow D) (a : AlertCfg D) (s : Store V)
      → has_command a ≡ false
      → ((fire_alert cfg net hostname att r a s).0 ≡ s)
        ⊎ Delivered cfg net
            (prepare a (get_metric_value r a.metric).1 r.timestamp hostname)
            (posts cfg net hostname r a)
  unfolding fire_alert post_webhook
  fire_alert-Delivered att r a s silent = elim (Bool-cases (posts cfg net hostname r a).1) [
    | inl ok ↦ inr (
        post_request-Delivered cfg net
          (prepare a (get_metric_value r a.metric).1 r.timestamp hostname) ok)
    | inr bad ↦ inl (
        evaluate_alert-undelivered (record att { webhook_ok = (posts cfg net hostname r a).1 }) r a
          s (ground arith))
  ]
