-- ===== src/Migrate/Run.antt =====
-- The registry of src/migrate/migrations.c, and do_migrate of src/migrate/main.c.
pub mod Chain
pub mod Safety
use minimoni.Prelude.{
  Bool, List, Option, [], false, if◌then◌else◌, ltb, negsuc, none, not, pos, some, suc, true, zero,
  ℕ, ℤ, ◌++◌, ◌==◌, ◌||◌, ◌∷◌,
}

pub record Migration : Type 0 where
  pub from_version : ℕ
  pub to_version : ℕ

abbrev pub migrations : List Migration
migrations =
    record { from_version = 0; to_version = 1 } ∷ record { from_version = 1; to_version = 2 } ∷ []

-- MIGRATIONS[NUM_MIGRATIONS - 1].to_version, or 0
unfoldable pub latest_of : List Migration → ℕ
latest_of [] = 0
latest_of (m ∷ []) = m.to_version
latest_of (m ∷ n ∷ ms) = latest_of (n ∷ ms)

unfoldable pub find_in : List Migration → ℤ → Option Migration
find_in [] from = none
find_in (m ∷ ms) from =
    let rest = find_in ms from in if is_nat from m.from_version then some m else rest
  where
    -- z == n
    is_nat : ℤ → ℕ → Bool
    is_nat (pos k) n = k == n
    is_nat (negsuc k) n = false

abbrev pub migrations_latest_version : ℕ
migrations_latest_version = latest_of migrations

abbrev pub migrations_find : ℤ → Option Migration
migrations_find = find_in migrations

pub data Place : Type 0 where
  original copy backup : Place

pub data Effect : Type 0 where
  -- migrate_snapshot of the database to a place; a migration's script on a place
  snapshot : Place → Effect
  script : Place → ℕ → Effect
  remove_copy compact : Effect

pub data Status : Type 0 where
  absent blocked up_to_date migration_pending : Status

pub record Env : Type 0 where
  -- stat fails with ENOENT; the version that migrate_preflight reads, unless it refuses
  pub missing : Bool
  pub preflight : Option ℤ
  -- verify_source of the migration from a version
  pub verify : ℕ → Bool
  pub dry_path_fits : Bool
  pub backup_path_fits : Bool
  pub snapshot_ok : Place → Bool
  pub script_ok : Place → ℕ → Bool
  pub compact_ok : Bool

-- The exit code, the printed status, and the trace.
pub record Outcome : Type 0 where
  pub code : ℕ
  pub status : Option Status
  pub trace : List Effect

abbrev pub says : Bool → Status → Option Status
says dry_run s = if dry_run then some s else none

abbrev pub compare_version : ℤ → ℕ → ℕ
compare_version (pos n) latest = if ltb n latest then 0 else if n == latest then 1 else 2
compare_version (negsuc n) latest = 0

-- The loop `while (current < latest)`; `true` is an rc_apply of 0, and without fuel it is false.
abbrev pub apply_one :
    Env → Place → Option Migration → (ℤ → Bool × List Effect) → Bool × List Effect
apply_one env target none next = (false, [])
apply_one env target (some m) next =
    if env.script_ok target m.from_version
    then (let (ok, later) = next (pos m.to_version) in (ok, script target m.from_version ∷ later))
    else (false, script target m.from_version ∷ [])

unfoldable pub apply_from : Env → Place → ℕ → ℤ → Bool × List Effect
apply_from env target zero current = (false, [])
apply_from env target (suc fuel) current =
    let next = λ (v : ℤ). apply_from env target fuel v in
    let rest = apply_one env target (migrations_find current) next in
    if compare_version current migrations_latest_version == 0 then rest else (true, [])

-- One pass of the loop more than there are migrations.
abbrev pub chain_fuel : ℕ
chain_fuel = 3

unfoldable pub source_ok : Env → ℤ → Bool
source_ok env current = elim (migrations_find current) [
  | none ↦ true
  | some m ↦ env.verify m.from_version
]

-- The migration of the database itself, behind the snapshot in `before`.
unfoldable pub apply_original : Env → ℤ → List Effect → Outcome
apply_original env current before =
    let (ok, effects) = apply_from env original chain_fuel current in
    if not ok then record { code = 2; status = none; trace = before ++ effects } else record {
      code = if env.compact_ok then 0 else 2;
      status = none;
      trace = before ++ (effects ++ compact ∷ []);
    }

pub rehearse : Env → ℤ → Outcome
rehearse env current =
    let (ok, effects) = apply_from env copy chain_fuel current in
    if not env.dry_path_fits
    then record { code = 1; status = some blocked; trace = [] }
    else if not (env.snapshot_ok copy)
    then record { code = 1; status = some blocked; trace = remove_copy ∷ snapshot copy ∷ [] }
    else record {
      code = if ok then 0 else 1;
      status = some (if ok then migration_pending else blocked);
      trace = remove_copy ∷ snapshot copy ∷ (effects ++ remove_copy ∷ []);
    }

unfoldable pub backed_up : Env → ℤ → Outcome
backed_up env current =
    let applied = apply_original env current (snapshot backup ∷ []) in
    if not env.backup_path_fits
    then record { code = 3; status = none; trace = [] }
    else if not (env.snapshot_ok backup)
    then record { code = 3; status = none; trace = snapshot backup ∷ [] }
    else applied

unfoldable pub migrate_from : Env → Bool → Bool → Bool → ℤ → Outcome
migrate_from env do_backup dry_run force current =
    if compare_version current migrations_latest_version == 1
    then record { code = 0; status = says dry_run up_to_date; trace = [] }
    else if compare_version current migrations_latest_version == 2
    then record { code = 1; status = says dry_run blocked; trace = [] }
    else if not (force || source_ok env current)
    then record { code = 1; status = says dry_run blocked; trace = [] }
    else if dry_run
    then rehearse env current
    else if do_backup
    then backed_up env current
    else apply_original env current []

unfoldable pub do_migrate : Env → Bool → Bool → Bool → Outcome
do_migrate env do_backup dry_run force =
    if env.missing
    then record { code = 0; status = says dry_run absent; trace = [] }
    else elim env.preflight [
      | none ↦ record { code = 1; status = says dry_run blocked; trace = [] }
      | some current ↦ migrate_from env do_backup dry_run force current
    ]
