-- ===== src/Tests/Commands.antt =====
-- src/db_cmd.c, src/trust.c, the deliveries of src/alerts.c, the unknown keys of src/config.c and the
-- helpers of src/migrate.
use minimoni.Prelude.{
  Bool, Bytes, List, OnSome, [], arith, codes, false, flatten, length, ltb, refl, select, some,
  str_eq, suc, true, zero, ℕ, ◌++◌, ◌==◌, ◌∷◌, ◌≡◌, ◌≢◌, ◌≤◌, ◌⊎◌,
}
use minimoni.Config.Settings.{WebhookCfg}
use minimoni.Config.Unknown.{key_distance}
use minimoni.Config.Unknown.Levenshtein.{key_distance-levenshtein, levenshtein, reverse_onto}
use minimoni.Alerts.Url.{Url}
use minimoni.Alerts.Deliver.{Net, connected, post_request, prepare, refused, write_all}
use minimoni.Double.{whole_double}
use minimoni.Db.Store.{Store}
use minimoni.Alerts.Condition.{get_metric_value}
use minimoni.Alerts.Fire.{fire_alert, posts}
use minimoni.Alerts.Fire.Recorded.{Delivered, fire_alert-Delivered}
use minimoni.Tests.Alerting.{attempt_at, disk_alert}
use minimoni.Tests.Storage.{stored}
use minimoni.Alerts.Deliver.Sent.{write_all-StartOf}
use minimoni.Alerts.Deliver.Verified.{IsSafe, post_request-IsSafe}
use minimoni.Trust.Anchor.{Certificate, add_anchor, ec_key}
use minimoni.Trust.Anchor.Added.{add_anchor-whole, always, anchor_of}
use minimoni.Trust.Pem.{Event, begin_object, decoded, end_object, trust_load}
use minimoni.Trust.Pem.Loaded.{certificates, sound, trust_load-certificates}
use minimoni.DbCmd.Exec.{
  Prepared, blob, db_cmd_exec, hex, null_value, prepare_error, print_columns, print_rows,
  print_value, shown, statement,
}
use minimoni.DbCmd.Exec.Output.{all_run, db_cmd_exec-printed, up_to_failure}
use minimoni.Migrate.Exec.{Pipe, Poll, Polled, drain_both, interrupted, opened, some_ready}
use minimoni.Migrate.Exec.Drained.{ErrCut, OutCut, drain_both-captures}
use minimoni.Migrate.Exec.Sink.{Holds}

abbrev poll_of : Polled → Bool → Poll
poll_of polled fails = record {
  polled = polled;
  out_first = false;
  both_ready = false;
  out_bytes = 1;
  err_bytes = 0;
  out_fails = fails;
  err_fails = false;
}

-- A signal comes first; then the errors are read to their end, and the first read of the output
-- fails.
abbrev polls : ℕ → Poll
polls zero = poll_of interrupted false
polls (suc i) = poll_of some_ready (i == 5)

quiet_later : (j : ℕ) → 1 ≤ j → (polls j).polled ≢ interrupted
quiet_later zero h = absurd (omega arith)
quiet_later (suc j) h = λ e. cc e

drain_both-captures_example :
    (p : Pipe) × (q : Pipe) × (drain_both polls 10 0
        (opened 3 (codes "ok\n"))
        (opened 9 (codes "warn"))
      ≡ some (p, q))
    × Holds (OutCut polls) (codes "ok\n") 3 p
    × Holds (ErrCut polls) (codes "warn") 9 q
drain_both-captures_example =
    drain_both-captures polls 1 (codes "ok\n") (codes "warn") 3 9 quiet_later

abbrev hook : Url
hook = record { https = true; host = codes "a.b"; port = codes "443"; path = codes "/" }

abbrev checked_webhooks : WebhookCfg
checked_webhooks = record { ca_file = codes "/ca.pem"; insecure_skip_verify = false }

abbrev net : Net
net = record {
  readable = λ f. true;
  load = λ f. some 2;
  resolved = true;
  addresses = refused ∷ connected ∷ [];
  in_time = λ i. true;
  sends = λ i. 1;
  reads = [];
  tls_ok = true;
  tls_chunks = codes "HTTP/1.0 204 No" ∷ [];
}

-- The second address takes the request.
post_request-IsSafe_example :
    IsSafe checked_webhooks net hook
      (codes "POST /")
      (post_request checked_webhooks net (some (hook, codes "POST /")))
post_request-IsSafe_example = post_request-IsSafe checked_webhooks net hook (codes "POST /")

abbrev nothing_fired : Store ℕ
nothing_fired = record { metrics = []; alert_log = [] }

-- The alert on the disk, whose webhook is over https.
fire_alert-Delivered_example :
    ((fire_alert ⦃d = whole_double⦄ checked_webhooks net
        (codes "host")
        (attempt_at 1000 false)
        stored
        disk_alert
        nothing_fired).0
      ≡ nothing_fired)
    ⊎ Delivered checked_webhooks net
        (prepare ⦃d = whole_double⦄ disk_alert
          (get_metric_value ⦃d = whole_double⦄ stored (codes "disk_used_percent")).1
          stored.timestamp
          (codes "host"))
        (posts ⦃d = whole_double⦄ checked_webhooks net (codes "host") stored disk_alert)
fire_alert-Delivered_example =
    fire_alert-Delivered ⦃d = whole_double⦄ checked_webhooks net (codes "host")
      (attempt_at 1000 false) stored disk_alert nothing_fired refl

abbrev authority : Certificate
authority = record {
  dn_parts = codes "CN=" ∷ codes "x" ∷ [];
  pkey = some (ec_key 23 (4 ∷ 7 ∷ []));
  is_ca = true;
}

-- An EC key; in one run memory ends at three bytes.
add_anchor-whole_example :
    OnSome
      (λ after. after ≡ anchor_of authority (ec_key 23 (4 ∷ 7 ∷ [])) ∷ [])
      (add_anchor (λ n. ltb n 3) always always [] authority)
    × (add_anchor always always always [] authority
        ≡ some (anchor_of authority (ec_key 23 (4 ∷ 7 ∷ [])) ∷ []))
add_anchor-whole_example =
    add_anchor-whole (λ n. ltb n 3) always always [] authority (ec_key 23 (4 ∷ 7 ∷ [])) refl

-- A certificate cut into two chunks, and a key.
abbrev chunks : List (List Event)
chunks =
    (begin_object (codes "CERTIFICATE") ∷ decoded (1 ∷ []) ∷ [])
    ∷ (decoded (2 ∷ []) ∷ end_object ∷ begin_object (codes "PRIVATE KEY") ∷ end_object ∷ [])
    ∷ []

trust_load-certificates_example :
    trust_load (λ n. true) (λ der. length der == 2) (some chunks) [] false ≡ some 1
unfolding sound certificates flatten select str_eq
trust_load-certificates_example =
    trust_load-certificates (λ n. true) (λ der. length der == 2) chunks [] false (λ n. refl)

key_distance-levenshtein_example : key_distance (codes "prot") (codes "port") ≡ 2
unfolding levenshtein reverse_onto
key_distance-levenshtein_example = key_distance-levenshtein (codes "prot") (codes "port")

-- A query that succeeds, and one that fails after a row.
abbrev script : List Prepared
script =
    statement
      (record { params = 1; rows = (shown (codes "1") ∷ null_value ∷ []) ∷ []; ends_done = true })
    ∷ statement (record { params = 0; rows = (blob (255 ∷ []) ∷ []) ∷ []; ends_done = false })
    ∷ prepare_error
    ∷ []

db_cmd_exec-printed_example :
    (db_cmd_exec true (some (codes "7")) script ≡ (codes "1\tNULL\nX'FF'\n", 1))
    × (db_cmd_exec false (some (codes "7")) script ≡ ([], 2))
unfolding up_to_failure all_run flatten print_rows print_columns print_value hex
db_cmd_exec-printed_example = db_cmd_exec-printed (some (codes "7")) script

-- A connection that takes a byte at a time, and one that times out at its third call.
write_all-StartOf_example :
    (write_all (λ i. true) (λ i. 1) (codes "POST") ≡ codes "POST")
    × ((rest : Bytes) × (codes "POST" ≡ write_all (λ i. ltb i 2) (λ i. 1) (codes "POST") ++ rest))
write_all-StartOf_example =
    write_all-StartOf (λ i. true) (λ i. ltb i 2) (λ i. 1) (λ i. 1) (codes "POST") (λ j. refl)
      (λ j. omega arith)
