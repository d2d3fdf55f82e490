-- ===== src/Alerts/Deliver/Verified.antt =====
-- What post_webhook of src/alerts.c sends, and when it counts as delivered.
use minimoni.Prelude.{
  Bool, Bool-cases, Bytes, Option, [], arith, false, if-holds, inl, inr, none, not, refl, some,
  true, ℕ, ◌&&◌, ◌≡◌,
}
use minimoni.Config.Settings.{WebhookCfg}
use minimoni.Alerts.Url.{Url}
use minimoni.Alerts.Reply.{read_reply, reply_ok}
use minimoni.Alerts.Deliver.{
  Net, Wire, connect_any, exchange, exchange_on, load_anchors, nothing_sent, plain, post_request,
  tls_checked, tls_reply, tls_unchecked, write_all,
}

module _ (cfg : WebhookCfg) (net : Net) where
  -- What may go out for a request.
  abbrev pub IsSafe : Url → Bytes → Wire × Bool → Type 0
  IsSafe url req (nothing_sent, ok) = ok ≡ false
  IsSafe url req (plain sent, ok) =
      (url.https ≡ false)
      × (ok ≡ reply_ok (read_reply [] net.reads))
      × (sent ≡ write_all net.in_time net.sends req)
  IsSafe url req (tls_checked sent, ok) =
      (url.https ≡ true)
      × (ok ≡ reply_ok (tls_reply net))
      × (sent ≡ req)
      × (load_anchors net.readable net.load cfg.ca_file ≡ true)
  IsSafe url req (tls_unchecked sent, ok) =
      (url.https ≡ true)
      × (ok ≡ reply_ok (tls_reply net))
      × (sent ≡ req)
      × (cfg.insecure_skip_verify ≡ true)

  exchange-IsSafe :
      (url : Url) (req : Bytes)
      → ((url.https && not cfg.insecure_skip_verify)
          && not (load_anchors net.readable net.load cfg.ca_file))
        ≡ false
      → IsSafe url req (exchange cfg net url req)
  unfolding exchange
  exchange-IsSafe url req checked =
      if-holds (IsSafe url req) url.https _ _
        (λ tls. elim (Bool-cases cfg.insecure_skip_verify) [
          | inl skips ↦ simp skips (tls, refl, refl, refl)
          | inr checks ↦ simp checks (tls, refl, refl, ground arith)
        ])
        (λ clear. (clear, refl, refl))

  exchange_on-IsSafe :
      (fd : Option ℕ) (url : Url) (req : Bytes)
      → ((url.https && not cfg.insecure_skip_verify)
          && not (load_anchors net.readable net.load cfg.ca_file))
        ≡ false
      → IsSafe url req (exchange_on cfg net fd url req)
  exchange_on-IsSafe none url req checked = refl
  exchange_on-IsSafe (some fd) url req checked = exchange-IsSafe url req checked

  -- A webhook's request goes out in the clear only to an http URL, and over TLS without a check of
  -- the chain only with insecure_skip_verify; with the check only when the trust anchors were
  -- loaded; and it counts as delivered exactly if what was read of the reply is a success. Where
  -- nothing is sent it does not.
  pub post_request-IsSafe :
      (url : Url) (req : Bytes) → IsSafe url req (post_request cfg net (some (url, req)))
  unfolding post_request
  post_request-IsSafe url req =
      if-holds (IsSafe url req)
        ((url.https && not cfg.insecure_skip_verify)
          && not (load_anchors net.readable net.load cfg.ca_file))
        _ _ (λ unchecked. refl)
        (λ checked.
          if-holds (IsSafe url req) (not net.resolved) _ _ (λ unresolved. refl)
            (λ resolved_to. exchange_on-IsSafe (connect_any net.addresses).0 url req checked))
