-- ===== src/Lib.antt =====
-- A model of minimoni, a system monitor in C: a daemon that samples the host, keeps the samples in
-- SQLite in ever coarser tiers, serves them over HTTP to a dashboard, and runs alerts; and
-- minimoni-migrate, which upgrades a database of an older version.
--
-- The parts, by the file of src/ that they model:
-- Metrics      metrics.c: Read takes numbers out of a line, Cpu, Memory, Rates, Net and Temp are the
--              collectors over the text of the files of /proc and /sys, Collect is metrics_collect with
--              the snapshots that the file keeps between two calls, and metrics_run_note.
-- Db           db.c: Open is db_open, db_open_readonly and db_close as the trace of their effects, Tiers
--              is db_consolidate, Store the statements on the two tables with their retries, Snapshot
--              the binding and reading of a row, Query the latest row, the count and the range query
--              with its growing block. The SQL is read as what it does to the list of rows.
-- Serve        main.c: retention_days; Cycle is a turn of the daemon and its loop, Main the arguments
--              and the parts that run_serve and run_collect open and close.
-- Http         http.c: Slots has the slots of the live dashboards as steps of the workers, Stream
--              stream_loop, Answer the other handlers as the answers that they write, Cores the number
--              of cores and the critical temperature.
-- Alerts       alerts.c: Condition is get_metric_value and eval_op, Evaluate alerts_evaluate, Url
--              parse_url, Reply the reading of a webhook's reply, Deliver post_webhook with what it
--              calls, and run_command. Evaluate takes the results of a delivery from Attempt, and Fire the
--              webhook's from post_webhook.
-- Trust        trust.c: Buffer is the growing block, Pem the loading of certificates, Anchor what is
--              taken of one; Pem is given whether it is taken.
-- Config       config.c, config.h: Duration has the durations and ranges, with range_to_days of
--              main.c; Settings the structure and its defaults; Datum the reading of one value; Load
--              config_load. toml_seek in the parsed file is a function, and statvfs and
--              has_certificate are answers; Open config_open; Unknown the warnings on unknown keys,
--              with key_distance, and has_certificate.
-- Json         json.c: Escape, Buffer, and the serializers Serialize, Point and Magnitude, as the
--              calls (Call) that they make of the writers.
-- DbCmd        db_cmd.c: Exec is db exec, Report db info with the texts of Info.
-- Migrate      migrate/main.c, migrate/migrations.c: Run is do_migrate as the trace of its effects, Args
--              the arguments of main; migrate/snapshot.c: Snapshot, on the files at its two names and
--              beside them; migrate/exec.c: Exec, whose polls and reads may fail;
--              migrate/preflight.c and migrate/consolidate.c: Preflight.
-- Downsample   downsample.c: pick_bucket, the bucket that a range query aggregates into.
-- Units        units.c: the display units. Double is what the program does with a C double.
-- Strtol       strtol of the C library as documented, for the texts that the program gives it.
-- Tests        runs on small inputs.
-- Prelude      shared names, lists, C strings, signed integers, and chains of steps that may fail.
--
-- Serve.Cycle puts Metrics.Collect, Db and Alerts.Evaluate together: a turn samples, inserts,
-- consolidates, prunes and judges the alerts on the row that db_current reads. Http.Answer reads the
-- same tables through Db.Query and writes them with Json. Db.Store is the state that Alerts reads and
-- writes between two prunings; Db.Snapshot is the row that Alerts, Json and Http read; Config.Settings
-- is what they are configured by; Alerts.Deliver loads its anchors by Trust.
--
-- Numbers are natural numbers where the source keeps them from being negative, and ℤ of Prelude.Int
-- where it does not; counters of 64 bits wrap, and range_to_days wraps as an int does. Fuel: the
-- migration loop has one pass more than there are migrations, each of which raises the version; printing
-- a long has twenty digits, and a long has at most nineteen; the retry loop has the source's three tries;
-- a block that doubles has a step for each byte that it has to hold; write_all a call for each byte, of
-- which each call takes one or is the last. The daemon's loop, a live stream and the reading of a
-- child's streams answer `none` when they run out; their fuel is an argument.
--
-- Not modelled: SQLite, CivetWeb, tomlc17, BearSSL and the C library's files, network and processes,
-- which answer through parameters; messages to stderr; the signal handler, whose flag a turn is given;
-- trust_free and the freeing of memory; the start of the HTTP server and stream_frame; fork and the
-- pipes of migrate_exec; the schema fingerprints of minimoni-migrate, which answer through its
-- environment; format_timestamp; the page in the browser.
pub mod Prelude
pub mod Trust
pub mod DbCmd
pub mod Downsample
pub mod Strtol
pub mod Double
pub mod Units
pub mod Config
pub mod Db
pub mod Metrics
pub mod Json
pub mod Alerts
pub mod Http
pub mod Migrate
pub mod Serve
pub mod Tests
