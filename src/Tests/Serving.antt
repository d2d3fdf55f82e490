-- ===== src/Tests/Serving.antt =====
-- src/downsample.c, src/units.c and src/http.c.
use minimoni.Double.{whole_double}
use minimoni.Prelude.{
  All, In, List, [], arith, codes, false, leb, none, pos, refl, some, true, ℕ, ◌%◌, ◌+◌, ◌∷◌, ◌≡◌,
  ◌≢◌, ◌≤◌, ◌⊎◌,
}
use minimoni.Downsample.{best_bucket, buckets, consider, diff, pick_bucket}
use minimoni.Downsample.Nearest.{IsNearest, pick_bucket-IsNearest}
use minimoni.Http.Slots.{
  Slots, acquiring, goes, http_start, loads, move, outside, sse_reserve, stays, streaming, streams,
  takes,
}
use minimoni.Http.Slots.Limit.{streams_limit}
use minimoni.Config.Duration.{last_byte, parse_duration, range_in_bounds, range_of, valid_range}
use minimoni.Db.Store.{busy, done, error, row}
use minimoni.Db.Query.{Growing, fetch_all}
use minimoni.Db.Query.Whole.{HoldsRows, fetch_all-whole}
use minimoni.Db.Open.{Answers, db_open}
use minimoni.Db.Open.Outcome.{Outcome, db_open-Outcome}
use minimoni.Strtol.{from_digits, skip_spaces, strtol, take_digits, take_sign}
use minimoni.Http.Stream.{Client, Sent, stream_from}
use minimoni.Http.Stream.Ends.{stream_from-ends}
use minimoni.Http.Answer.{Request, handler_metrics, pick_range, range_seconds}
use minimoni.Http.Answer.Parts.{handler_metrics-json, metrics_json, rows_for}
use minimoni.Http.Answer.Range.{pick_range-configured}
use minimoni.Tests.Texts.{defaults, host}
use minimoni.Tests.Daemon.{any_avg, earlier, no_iso}

-- A week of samples a minute apart, for the default 240 points.
week : pick_bucket 604800 60 0 none ≡ 3600
unfolding pick_bucket best_bucket consider diff
week = refl

pick_bucket-IsNearest_example :
    IsNearest 604800 60 240 buckets (pick_bucket 604800 60 0 none)
    ⊎ (All (λ b. b % 60 ≢ 0) buckets × (pick_bucket 604800 60 0 none ≡ 60))
unfolding pick_bucket best_bucket consider diff
pick_bucket-IsNearest_example = pick_bucket-IsNearest 604800 60 0 none (omega arith)

abbrev opened : Slots
opened = http_start 1

-- One worker takes the only slot.
streams_limit_example :
    (1 ≡ streams (streaming ∷ outside ∷ outside ∷ []))
    × (streams (streaming ∷ outside ∷ outside ∷ []) ≤ 1)
    × (streams (streaming ∷ outside ∷ outside ∷ []) + 2 ≤ 3)
unfolding sse_reserve
streams_limit_example =
    streams_limit 1 (record { sse_active = 1; workers = streaming ∷ outside ∷ outside ∷ [] })
      (goes opened (move opened 0 0 (acquiring 0)) _ (loads opened 0 refl) (
        goes (move opened 0 0 (acquiring 0)) _ _
          (takes (move opened 0 0 (acquiring 0)) 0 0 refl (omega arith) refl) (stays _)))

abbrev client : Client
client = record {
  stopping = λ t. leb 5 t;
  has_row = λ t. true;
  frame_ok = λ t. true;
  keepalive_ok = λ t. true;
}

-- A frame every three seconds, and a server that stops after five.
stream_from-ends_example :
    (end : ℕ) × (sent : List Sent) × (stream_from 3 2 client 6 0 ≡ some (end, sent)) × (end ≤ 5)
stream_from-ends_example = stream_from-ends 3 2 client 5 (omega arith) refl

abbrev two_rows : List ℕ
two_rows = 7 ∷ 8 ∷ []

fetch_all-whole_example :
    ((h : Growing ℕ) × (j : ℕ) × (fetch_all (λ n. true) two_rows done ≡ some h)
      × HoldsRows two_rows j h)
    × (fetch_all (λ n. true) two_rows error ≡ none)
    × (fetch_all (λ n. true) two_rows busy ≡ none)
fetch_all-whole_example = fetch_all-whole (λ n. true) two_rows (λ n. refl)

abbrev long_max : ℕ
long_max = 9223372036854775807

-- A range that is not configured.
pick_range-configured_example :
    In (pick_range (codes "1d" ∷ codes "6h" ∷ []) (codes "9d")) (codes "1d" ∷ codes "6h" ∷ [])
    × (parse_duration long_max (pick_range (codes "1d" ∷ codes "6h" ∷ []) (codes "9d"))
        ≡ some (range_seconds long_max (pick_range (codes "1d" ∷ codes "6h" ∷ []) (codes "9d"))))
unfolding valid_range range_in_bounds range_of last_byte strtol skip_spaces take_sign take_digits
    from_digits
pick_range-configured_example =
    pick_range-configured long_max (codes "1d") (codes "6h" ∷ []) (codes "9d")
      ((omega arith, refl, refl), ((omega arith, refl, refl), tt))

abbrev asked : Request
asked = record {
  range_var = codes "1d";
  points_var = [];
  count_now = 1060;
  count_prepared = true;
  count_step = row;
  query_now = 1060;
  query_prepared = true;
  query_last = done;
  alloc = λ n. true;
}

handler_metrics-json_example :
    handler_metrics ⦃d = whole_double⦄ no_iso any_avg long_max defaults host asked earlier
    ≡ record {
      status = 200;
      content_length = none;
      body =
          metrics_json ⦃d = whole_double⦄ no_iso any_avg long_max defaults host
            (pick_range defaults.dashboard.ranges (codes "1d"))
            (rows_for ⦃d = whole_double⦄ no_iso any_avg long_max defaults host asked earlier);
    }
handler_metrics-json_example =
    handler_metrics-json ⦃d = whole_double⦄ no_iso any_avg long_max defaults host asked earlier
      (λ n. refl) refl refl

-- A file of another application.
abbrev foreign : Answers
foreign = record {
  existed_before = true;
  is_directory = false;
  created = true;
  opened = true;
  app_id = some (pos 0);
  version = some (pos 0);
  schema_created = true;
  prepared = λ i. true;
  allocated = true;
}

db_open-Outcome_example : Outcome foreign (db_open foreign)
db_open-Outcome_example = db_open-Outcome foreign
