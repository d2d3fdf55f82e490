-- ===== src/Alerts/Deliver.antt =====
-- The delivery of an alert in src/alerts.c: post_webhook with its request, write_all, connect_any
-- and load_anchors, and run_command. The sockets, the resolver, the clock and BearSSL answer through
-- `Net`; the messages to stderr are not modelled.
pub mod Sent
pub mod Verified
use Prim.Native.Nat.{min}
use minimoni.Prelude.{
  Bool, Bytes, List, Option, [], codes, drop, false, if◌then◌else◌, length, ltb, none, not, some,
  str_eq, suc, take, zero, ℕ, ◌&&◌, ◌++◌, ◌+◌, ◌==◌, ◌>>=◌, ◌||◌, ◌∷◌,
}
use minimoni.Double.{Double}
use minimoni.Config.Settings.{AlertCfg, WebhookCfg}
use minimoni.Config.Datum.{is_empty}
use minimoni.Json.Escape.{json_escape}
use minimoni.Json.Buffer.{digits_of}
use minimoni.Alerts.Url.{Url, default_port, fit, parse_url}
use minimoni.Alerts.Reply.{read_reply, reply_ok}
use minimoni.Trust.Pem.{trust_system_file}

-- The loop of write_all from its i-th call of send: what is handed over. `in_time i` is whether the
-- deadline has passed before it, and `sends i` the bytes that it takes at most, 0 for an error. Each
-- call takes a byte or is the last.
unfoldable pub write_from : (ℕ → Bool) → (ℕ → ℕ) → ℕ → ℕ → Bytes → Bytes
write_from in_time sends zero i buf = []
write_from in_time sends (suc calls) i buf =
    let n = min (sends i) (length buf) in
    let rest = write_from in_time sends calls (i + 1) (drop n buf) in
    if length buf == 0 || not (in_time i) || n == 0 then [] else take n buf ++ rest

unfoldable pub write_all : (ℕ → Bool) → (ℕ → ℕ) → Bytes → Bytes
write_all in_time sends buf = write_from in_time sends (length buf) 0 buf

-- One address: whether it is reached in time, whether a socket is made, and what connect comes to.
pub data Attempted : Type 0 where
  too_late no_socket refused timed_out connected : Attempted

-- connect_any: the number of the address that connects, and the sockets opened and closed.
unfoldable pub connect_from : ℕ → List Attempted → Option ℕ × List ℕ × List ℕ
connect_from i [] = (none, [], [])
connect_from i (too_late ∷ rest) = (none, [], [])
connect_from i (no_socket ∷ rest) = connect_from (i + 1) rest
connect_from i (connected ∷ rest) = (some i, i ∷ [], [])
connect_from i (_ ∷ rest) =
    let (fd, made, closed) = connect_from (i + 1) rest in (fd, i ∷ made, i ∷ closed)

unfoldable pub connect_any : List Attempted → Option ℕ × List ℕ × List ℕ
connect_any addresses = connect_from 0 addresses

-- path = ca_file[0] ? ca_file : trust_system_file(), and whether trust_load of it is above 0
unfoldable pub load_anchors : (Bytes → Bool) → (Bytes → Option ℕ) → Bytes → Bool
load_anchors readable load ca_file =
    let path = if is_empty ca_file then trust_system_file readable else some ca_file in
    loads (path >>= load)
  where
    loads : Option ℕ → Bool
    loads none = false
    loads (some n) = ltb 0 n

-- The port goes in Host unless it is the scheme's default.
abbrev pub shown_port : Url → Bytes
shown_port url = if str_eq url.port (default_port url.https) then [] else b':' ∷ url.port

abbrev pub crlf : Bytes
crlf = 13 ∷ 10 ∷ []

unfoldable pub request_of : Url → Bytes → Option Bytes
request_of url body = fit 1024 (
    codes "POST "
    ++ url.path
    ++ codes " HTTP/1.0"
    ++ crlf
    ++ codes "Host: "
    ++ url.host
    ++ shown_port url
    ++ crlf
    ++ codes "Content-Type: application/json"
    ++ crlf
    ++ codes "Content-Length: "
    ++ digits_of 20 (length body) []
    ++ crlf
    ++ codes "Connection: close"
    ++ crlf
    ++ crlf
    ++ body)

module _ {D : Type 0} ⦃d : Double D⦄ where
  -- The body of the POST, if it fits 1024 bytes.
  unfoldable pub body_of : Bytes → Bytes → Bytes → D → D → Bytes → Bytes → Option Bytes
  body_of ename emetric ehost measured threshold op timestamp = fit 1024 (
      codes "{\"alert\":\""
      ++ ename
      ++ codes "\",\"metric\":\""
      ++ emetric
      ++ codes "\",\"value\":"
      ++ d.format_g 6 measured
      ++ codes ",\"threshold\":"
      ++ d.format_g 6 threshold
      ++ codes ",\"operator\":\""
      ++ op
      ++ codes "\",\"timestamp\":\""
      ++ timestamp
      ++ codes "\",\"hostname\":\""
      ++ ehost
      ++ codes "\"}")

  -- parse_url, json_escape and the two fit_printf; `none` where the webhook is skipped.
  unfoldable pub prepare : AlertCfg D → D → Bytes → Bytes → Option (Url × Bytes)
  prepare a measured timestamp hostname = do
    url ← parse_url a.webhook
    ename ← json_escape 256 a.name
    emetric ← json_escape 256 a.metric
    ehost ← json_escape 512 hostname
    body ← body_of ename emetric ehost measured a.threshold a.op timestamp
    req ← request_of url body
    some (url, req)

-- What the network answers to one delivery. `tls_ok` is whether BearSSL sent the request, and `tls_chunks`
-- what it then read; `reads` are the chunks of a plain reply that come in time.
pub record Net : Type 0 where
  pub readable : Bytes → Bool
  pub load : Bytes → Option ℕ
  pub resolved : Bool
  pub addresses : List Attempted
  pub in_time : ℕ → Bool
  pub sends : ℕ → ℕ
  pub reads : List Bytes
  pub tls_ok : Bool
  pub tls_chunks : List Bytes

-- What goes out: the request in the clear, or by TLS, with or without a check of the chain.
pub data Wire : Type 0 where
  nothing_sent : Wire
  plain : Bytes → Wire
  tls_checked tls_unchecked : Bytes → Wire

abbrev pub tls_wire : Bool → Bytes → Wire
tls_wire skip_verify req = if skip_verify then tls_unchecked req else tls_checked req

abbrev pub tls_reply : Net → Bytes
tls_reply net = if net.tls_ok then read_reply [] net.tls_chunks else []

module _ (cfg : WebhookCfg) (net : Net) where
  -- Once connected.
  unfoldable pub exchange : Url → Bytes → Wire × Bool
  exchange url req =
      if url.https
      then (tls_wire cfg.insecure_skip_verify req, reply_ok (tls_reply net))
      else (plain (write_all net.in_time net.sends req), reply_ok (read_reply [] net.reads))

  abbrev pub exchange_on : Option ℕ → Url → Bytes → Wire × Bool
  exchange_on none url req = (nothing_sent, false)
  exchange_on (some fd) url req = exchange url req

  unfoldable pub post_request : Option (Url × Bytes) → Wire × Bool
  post_request none = (nothing_sent, false)
  post_request (some (url, req)) =
      if (url.https && not cfg.insecure_skip_verify)
        && not (load_anchors net.readable net.load cfg.ca_file)
      then (nothing_sent, false)
      else if not net.resolved
      then (nothing_sent, false)
      else exchange_on (connect_any net.addresses).0 url req

module _ {D : Type 0} ⦃d : Double D⦄ (cfg : WebhookCfg) (net : Net) where
  -- What is sent, and the result 1 or 0.
  unfoldable pub post_webhook : AlertCfg D → D → Bytes → Bytes → Wire × Bool
  post_webhook a measured timestamp hostname =
      post_request cfg net (prepare a measured timestamp hostname)

  -- The variables that run_command exports to the shell, and then removes.
  unfoldable pub command_env : AlertCfg D → D → List (Bytes × Bytes)
  command_env a measured =
      (codes "MINIMONI_ALERT_NAME", a.name)
      ∷ (codes "MINIMONI_ALERT_METRIC", a.metric)
      ∷ (codes "MINIMONI_ALERT_VALUE", d.format_g 6 measured)
      ∷ (codes "MINIMONI_ALERT_THRESHOLD", d.format_g 6 a.threshold)
      ∷ (codes "MINIMONI_ALERT_OPERATOR", a.op)
      ∷ []
