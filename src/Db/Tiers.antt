-- ===== src/Db/Tiers.antt =====
-- src/db.c, db_consolidate: the tiered consolidation, and its copy in src/migrate/consolidate.c.
-- A table is the list of its rows. A row has its timestamp in seconds since the epoch, its
-- `bucket_sec` (`none` for NULL) and its measured columns, of which only their average is needed
-- here: `avg` stands for the SQL function AVG, taken column by column.
-- The SQL text is read as what it does to the rows: INSERT ... SELECT ... GROUP BY appends one row
-- for each bucket, and DELETE drops the rows that its condition selects. The order of the groups is
-- that of their last rows; no query depends on it.
pub mod Steps
pub mod Stable
pub mod Coverage
use minimoni.Prelude.{
  Bool, List, Option, [], contains, false, if◌then◌else◌, leb, ltb, map, none, not, select, some,
  true, ℕ, ◌&&◌, ◌*◌, ◌++◌, ◌+◌, ◌/◌, ◌==◌, ◌∷◌,
}

-- struct tier_transition
pub record Tier : Type 0 where
  pub bucket_sec : ℕ
  pub threshold_sec : ℕ

abbrev pub tier_transitions : List Tier
tier_transitions =
    record { bucket_sec = 5; threshold_sec = 2 * 3600 }
    ∷ record { bucket_sec = 30; threshold_sec = 12 * 3600 }
    ∷ record { bucket_sec = 300; threshold_sec = 5 * 86400 }
    ∷ record { bucket_sec = 3600; threshold_sec = 60 * 86400 }
    ∷ record { bucket_sec = 21600; threshold_sec = 365 * 86400 }
    ∷ []

pub record Row (V : Type 0) : Type 0 where
  pub ts : ℕ
  pub bucket_sec : Option ℕ
  pub values : V

-- (ts / bs) * bs
abbrev pub bucket_start : ℕ → ℕ → ℕ
bucket_start bs t = t / bs * bs

-- bucket_sec IS NULL OR bucket_sec < bs
abbrev pub is_finer : ℕ → Option ℕ → Bool
is_finer bs none = true
is_finer bs (some b) = ltb b bs

-- Without repeats: the groups of a GROUP BY.
unfoldable pub distinct : List ℕ → List ℕ
distinct [] = []
distinct (k ∷ ks) = let rest = distinct ks in if contains k ks then rest else k ∷ rest

module _ {V : Type 0} where
  -- The WHERE clause of both statements: `bucket_start + bs <= now - threshold`, with the threshold
  -- on the other side, since `cut` may be negative.
  unfoldable pub is_due : ℕ → Tier → Row V → Bool
  is_due now tier r =
      leb (bucket_start tier.bucket_sec r.ts + tier.bucket_sec + tier.threshold_sec) now
      && is_finer tier.bucket_sec r.bucket_sec

  abbrev pub in_bucket : ℕ → ℕ → Row V → Bool
  in_bucket bs start r = bucket_start bs r.ts == start

  module _ (avg : List V → V) where
    -- One row of the SELECT: the bucket's start, the averages, the tier's bucket size.
    abbrev pub group_row : ℕ → List (Row V) → ℕ → Row V
    group_row bs rows start = record {
      ts = start;
      bucket_sec = some bs;
      values = avg (map (λ r. r.values) (select (in_bucket bs start) rows));
    }

    unfoldable pub groups : ℕ → List (Row V) → List (Row V)
    groups bs rows = map (group_row bs rows) (distinct (map (λ r. bucket_start bs r.ts) rows))

    -- INSERT INTO metrics ... SELECT ... GROUP BY; DELETE FROM metrics WHERE ...
    unfoldable pub apply_tier : ℕ → Tier → List (Row V) → List (Row V)
    apply_tier now tier table =
        let inserted = table ++ groups tier.bucket_sec (select (is_due now tier) table) in
        select (λ r. not (is_due now tier r)) inserted

    -- The loop over the transitions.
    unfoldable pub apply_tiers : ℕ → List Tier → List (Row V) → List (Row V)
    apply_tiers now [] table = table
    apply_tiers now (tier ∷ tiers) table = apply_tiers now tiers (apply_tier now tier table)

    -- One transaction: all of it, or with an error the ROLLBACK.
    unfoldable pub db_consolidate : Bool → ℕ → List (Row V) → List (Row V) × Bool
    db_consolidate succeeds now table =
        if succeeds then (apply_tiers now tier_transitions table, true) else (table, false)
