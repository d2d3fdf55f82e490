-- ===== src/Migrate/Args.antt =====
-- main of src/migrate/main.c: the arguments. The messages and the usage text are not modelled, and
-- which minimoni binary is used only matters to the child processes, which `env` answers for.
pub mod Forced
use minimoni.Prelude.{
  Bool, Bytes, List, Option, [], codes, false, if◌then◌else◌, none, not, some, str_eq, true, ℕ,
  ◌&&◌, ◌==◌, ◌||◌, ◌∷◌,
}
use minimoni.Migrate.Run.{Env, Outcome, do_migrate}

pub record Flags : Type 0 where
  pub do_backup : Bool
  pub dry_run : Bool
  pub force : Bool
  pub cli_use : Option Bytes
  pub db_path : Option Bytes

-- An early return of the loop with its exit code, or the flags behind it.
pub data Parsed : Type 0 where
  exits : ℕ → Parsed
  flags : Flags → Parsed

abbrev pub default_flags : Flags
default_flags = record {
  do_backup = true;
  dry_run = false;
  force = false;
  cli_use = none;
  db_path = none;
}

abbrev pub is_flag : Bytes → Bool
is_flag [] = false
is_flag (c ∷ s) = c == b'-'

abbrev pub is_set : Option Bytes → Bool
is_set none = false
is_set (some s) = true

-- The loop over argv[1] and on.
unfoldable pub parse_args : List Bytes → Flags → Parsed
parse_args [] f = flags f
parse_args (a ∷ []) f =
    if str_eq a (codes "--help") || str_eq a (codes "-h")
    then exits 0
    else if str_eq a (codes "--version")
    then exits 0
    else if str_eq a (codes "--no-backup")
    then flags (record f { do_backup = false })
    else if str_eq a (codes "--dry-run")
    then flags (record f { dry_run = true })
    else if str_eq a (codes "--force")
    then flags (record f { force = true })
    else if str_eq a (codes "--use")
    then exits 1
    else if is_flag a
    then exits 1
    else if is_set f.db_path
    then exits 1
    else flags (record f { db_path = some a })
parse_args (a ∷ b ∷ args) f =
    let unbacked = parse_args (b ∷ args) (record f { do_backup = false }) in
    let dry = parse_args (b ∷ args) (record f { dry_run = true }) in
    let forced = parse_args (b ∷ args) (record f { force = true }) in
    let used = parse_args args (record f { cli_use = some b }) in
    let named = parse_args (b ∷ args) (record f { db_path = some a }) in
    if str_eq a (codes "--help") || str_eq a (codes "-h")
    then exits 0
    else if str_eq a (codes "--version")
    then exits 0
    else if str_eq a (codes "--no-backup")
    then unbacked
    else if str_eq a (codes "--dry-run")
    then dry
    else if str_eq a (codes "--force")
    then forced
    else if str_eq a (codes "--use")
    then used
    else if is_flag a
    then exits 1
    else if is_set f.db_path
    then exits 1
    else named

abbrev pub no_effect : ℕ → Outcome
no_effect code = record { code = code; status = none; trace = [] }

unfoldable pub finish : Env → Parsed → Outcome
finish env (exits code) = no_effect code
finish env (flags f) =
    if not (is_set f.db_path)
    then no_effect 1
    else if f.force && not f.do_backup
    then no_effect 1
    else do_migrate env f.do_backup f.dry_run f.force

unfoldable pub run_main : Env → List Bytes → Outcome
run_main env args = finish env (parse_args args default_flags)
