-- ===== src/DbCmd/Report.antt =====
-- db_cmd_info of src/db_cmd.c: what it prints, and its exit code. `fixed k x` is printf("%.<k>f"), and
-- `timestamp` what format_timestamp makes of a time by the C library's calendar.
pub mod Foreign
use minimoni.Prelude.{
  Bool, Bytes, List, Option, [], codes, if◌then◌else◌, is_negative, is_positive, none, not,
  pos_part, some, ℕ, ℤ, ◌&&◌, ◌++◌, ◌+◌, ◌∷◌,
}
use minimoni.Double.{Double}
use minimoni.Db.Open.{application_id, holds}
use minimoni.DbCmd.Info.{
  decimal_of, format_application_id, format_duration, format_size, signed, tier_lines,
}

-- What stat and SQLite answer: a size is `none` where stat fails, a number -1 where its query does.
pub record InfoAnswers (D : Type 0) : Type 0 where
  pub db_size : Option ℕ
  pub wal_size : Option ℕ
  pub shm_size : Option ℕ
  pub opened : Bool
  pub app_id : ℤ
  pub version : ℤ
  pub has_metrics : Bool
  pub row_count : ℤ
  pub oldest_epoch : ℤ
  pub newest_epoch : ℤ
  pub span_sec : D
  pub tiers : List (Option ℕ × ℕ)
  pub has_alert_log : Bool
  pub alert_count : ℤ
  pub latest : Option (ℤ × Option Bytes)

abbrev pub line : Bytes → Bytes → Bytes
line label text = label ++ (text ++ (b'\n' ∷ []))

abbrev pub newline : Bytes
newline = b'\n' ∷ []

module _ {D : Type 0} ⦃d : Double D⦄ (fixed : ℕ → D → Bytes) (timestamp : ℤ → Bytes) where
  -- The sizes of the -wal and -shm files.
  unfoldable pub extras : Option ℕ → Option ℕ → Bytes
  extras none none = []
  extras (some w) none = codes "  (+ " ++ (format_size fixed w ++ codes " WAL)")
  extras none (some s) = codes "  (+ " ++ (format_size fixed s ++ codes " SHM)")
  extras (some w) (some s) =
      codes "  (+ " ++ format_size fixed w ++ codes " WAL, " ++ format_size fixed s ++ codes " SHM)"

  unfoldable pub head_text : Bytes → ℕ → InfoAnswers D → Bytes
  head_text db_path db_size a =
      line (codes "File:           ") db_path
      ++ line (codes "Size on disk:   ") (format_size fixed db_size ++ extras a.wal_size a.shm_size)
      ++ line (codes "Format:         ") (format_application_id a.app_id a.version)

  abbrev pub span_text : D → Bytes
  span_text span_sec =
      if d.le (d.literal 0 0) span_sec
      then line (codes "  Time span:    ") (format_duration fixed span_sec)
      else []

  abbrev pub spans : InfoAnswers D → Bool
  spans a =
      is_positive a.row_count
      && not (is_negative a.oldest_epoch)
      && not (is_negative a.newest_epoch)

  unfoldable pub metrics_text : InfoAnswers D → Bytes
  metrics_text a =
      codes "Metrics:\n"
      ++ line (codes "  Total rows:   ") (decimal_of (pos_part a.row_count))
      ++ (if spans a
          then line (codes "  Oldest:       ") (timestamp a.oldest_epoch)
            ++ line (codes "  Newest:       ") (timestamp a.newest_epoch)
            ++ span_text a.span_sec
          else [])
      ++ newline

  unfoldable pub tiers_text : InfoAnswers D → Bytes
  tiers_text a =
      (if not (is_positive a.version)
        then codes "Tier distribution:  no tiered data (schema v0)\n"
        else if is_positive a.row_count
        then codes "Tier distribution (only buckets with rows shown):\n" ++ tier_lines a.tiers
        else [])
      ++ newline

  abbrev pub latest_text : Option (ℤ × Option Bytes) → Bytes
  latest_text none = []
  latest_text (some (epoch, none)) =
      line (codes "  Most recent:  ") (timestamp epoch ++ codes " (?)")
  latest_text (some (epoch, some name)) =
      line (codes "  Most recent:  ") (timestamp epoch ++ (codes " (" ++ (name ++ codes ")")))

  unfoldable pub alerts_text : InfoAnswers D → Bytes
  alerts_text a =
      if not a.has_alert_log
      then []
      else codes "Alert log:\n"
        ++ line (codes "  Rows:         ") (signed a.alert_count)
        ++ (if is_positive a.alert_count then latest_text a.latest else [])

  abbrev pub body_text : InfoAnswers D → Bytes
  body_text a =
      if not a.has_metrics
      then codes "Metrics:        no metrics table\n"
      else metrics_text a ++ tiers_text a ++ alerts_text a

  abbrev pub sized : Option ℕ → Bytes → InfoAnswers D → Bytes × ℕ
  sized none db_path a = ([], 1)
  sized (some db_size) db_path a =
      if not a.opened
      then ([], 1)
      else if not (holds application_id (some a.app_id))
      then (head_text db_path db_size a, 0)
      else (head_text db_path db_size a ++ (newline ++ body_text a), 0)

  unfoldable pub db_cmd_info : Bytes → InfoAnswers D → Bytes × ℕ
  db_cmd_info db_path a = sized a.db_size db_path a
