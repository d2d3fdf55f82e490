-- ===== src/Migrate/Preflight/Passes.antt =====
-- The passes of migrate_consolidate_and_vacuum in src/migrate/consolidate.c.
use minimoni.Prelude.{List, refl, suc, true, zero, ℕ, ◌+◌, ◌≡◌}
use minimoni.Db.Tiers.{Row, db_consolidate}
use minimoni.Db.Tiers.Stable.{consolidate_twice}
use minimoni.Migrate.Preflight.{Pass, passes_from}

module _ {V : Type 0} (avg : List V → V) (now : ℕ) (passes : ℕ → Pass)
    (same : (i : ℕ) → passes i ≡ record { succeeds = true; now = now }) where
  pass_alone :
      (i : ℕ) (table : List (Row V))
      → passes_from avg passes 1 i table ≡ db_consolidate avg true now table
  unfolding passes_from db_consolidate
  pass_alone i table = rw (same i) refl

  pass_more :
      (left i : ℕ) (table : List (Row V))
      → passes_from avg passes (suc (suc left)) i table
        ≡ passes_from avg passes (suc left) (i + 1) (db_consolidate avg true now table).0
  unfolding passes_from db_consolidate
  pass_more left i table = rw (same i) refl

  -- If every pass succeeds at the same instant, then any number of passes from 1 leave exactly what
  -- the first leaves.
  pub passes_from-first :
      (left i : ℕ) (table : List (Row V))
      → passes_from avg passes (suc left) i table ≡ db_consolidate avg true now table
  passes_from-first zero i table = pass_alone i table
  passes_from-first (suc left) i table =
      let twice = (consolidate_twice avg now table).1 in
      rw (pass_more left i table)
        (rw (passes_from-first left (i + 1) (db_consolidate avg true now table).0) twice)
