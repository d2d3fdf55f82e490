-- ===== src/Migrate/Preflight.antt =====
-- src/migrate/preflight.c and migrate_consolidate_and_vacuum of src/migrate/consolidate.c. What a
-- query comes to is migrate_exec's result with what it captured.
pub mod Passes
use minimoni.Prelude.{
  Bool, Bytes, List, Option, [], codes, false, if◌then◌else◌, negsuc, none, not, pos, refuse, some,
  str_eq, suc, to_int32, true, zero, ℕ, ℤ, ◌&&◌, ◌+◌, ◌==◌, ◌>>=◌, ◌∷◌,
}
use minimoni.Strtol.{strtol}
use minimoni.Db.Open.{application_id}
use minimoni.Db.Tiers.{Row, db_consolidate}

unfoldable pub chomp : Bytes → Bytes
chomp [] = []
chomp (c ∷ []) = if c == b'\n' then [] else c ∷ []
chomp (c ∷ d ∷ s) = c ∷ chomp (d ∷ s)

-- `none` for a result that is not 0
unfoldable pub read_scalar : ℤ × Bytes → Option Bytes
read_scalar (pos zero, out) = some (chomp out)
read_scalar (_, out) = none

-- The four queries.
pub record Queries : Type 0 where
  pub integrity_check : ℤ × Bytes
  pub application_id_of : ℤ × Bytes
  pub timestamp_columns : ℤ × Bytes
  pub user_version : ℤ × Bytes

abbrev pub is_number : ℕ → ℤ → Bool
is_number n (pos z) = z == n
is_number n (negsuc z) = false

-- *out_version; `none` for the result 1
unfoldable pub migrate_preflight : ℕ → Queries → Option ℤ
migrate_preflight long_max q = do
  integrity ← read_scalar q.integrity_check
  checked ← refuse (not (str_eq integrity (codes "ok"))) integrity
  app_id ← read_scalar q.application_id_of
  ours ← refuse (not (is_number application_id (strtol long_max app_id).0)) app_id
  columns ← read_scalar q.timestamp_columns
  there ← refuse (not (is_number 1 (strtol long_max columns).0)) columns
  version ← read_scalar q.user_version
  some (to_int32 (strtol long_max version).0)

-- One pass: whether its SQL fits and db exec returns 0, and its time.
pub record Pass : Type 0 where
  pub succeeds : Bool
  pub now : ℕ

module _ {V : Type 0} (avg : List V → V) where
  -- The loop, with `left` passes to go: what they leave, and whether each succeeded.
  unfoldable pub passes_from : (ℕ → Pass) → ℕ → ℕ → List (Row V) → List (Row V) × Bool
  passes_from passes zero i table = (table, true)
  passes_from passes (suc left) i table =
      let (next, ok) = db_consolidate avg (passes i).succeeds (passes i).now table in
      let rest = passes_from passes left (i + 1) next in if ok then rest else (next, false)

  -- NUM_TIER_TRANSITIONS + 3 passes, then VACUUM, which changes no row; the result 0 or 2.
  unfoldable pub migrate_consolidate_and_vacuum :
      Bool → (ℕ → Pass) → Bool → List (Row V) → List (Row V) × ℕ
  migrate_consolidate_and_vacuum allocated passes vacuumed table =
      if not allocated
      then (table, 2)
      else (let (next, ok) = passes_from passes 8 0 table in
          (next, if ok && vacuumed then 0 else 2))
