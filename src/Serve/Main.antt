-- ===== src/Serve/Main.antt =====
-- main, parse_config_flag, run_serve and run_collect of src/main.c, as the parts that they open and
-- close and the code that they exit with. What run_serve's loop does is Serve.Cycle. A list of
-- arguments starts with argv[1], and the commands of db_cmd.c are named by their arguments.
pub mod Flags
pub mod Parts
use minimoni.Prelude.{
  Bool, Bytes, List, Option, [], codes, if◌then◌else◌, none, not, some, str_eq, ℕ, ◌||◌, ◌∷◌,
}

-- What the program is told to do: exit at once with a code, or run a command. The path of `none` is
-- NULL.
pub data Command : Type 0 where
  exit : ℕ → Command
  collect serve : Option Bytes → Command
  db_info : Bytes → Command
  db_exec : Bytes → Bytes → Option Bytes → Command

-- The loop over the options, with *out so far; `none` for -1.
unfoldable pub parse_config_flag : List Bytes → Option Bytes → Option (Option Bytes)
parse_config_flag [] out = some out
parse_config_flag (a ∷ []) out = none
parse_config_flag (a ∷ path ∷ argv) out =
    let rest = parse_config_flag argv (some path) in
    if not (str_eq a (codes "--config")) then none else rest

abbrev pub command_or : (Option Bytes → Command) → Option (Option Bytes) → Command
command_or run none = exit 1
command_or run (some path) = run path

unfoldable pub db_command : List Bytes → Command
db_command [] = exit 1
db_command (action ∷ argv) =
    if str_eq action (codes "info")
    then info argv
    else if str_eq action (codes "exec")
    then exec argv
    else exit 1
  where
    info : List Bytes → Command
    info [] = exit 1
    info (path ∷ argv) = db_info path

    exec : List Bytes → Command
    exec (path ∷ sql ∷ []) = db_exec path sql none
    exec (path ∷ sql ∷ value ∷ []) = db_exec path sql (some value)
    exec _ = exit 1

unfoldable pub main : List Bytes → Command
main [] = exit 1
main (name ∷ argv) =
    if str_eq name (codes "--version")
    then exit 0
    else if str_eq name (codes "--help") || str_eq name (codes "-h")
    then exit 0
    else if str_eq name (codes "collect")
    then command_or collect (parse_config_flag argv none)
    else if str_eq name (codes "serve")
    then command_or serve (parse_config_flag argv none)
    else if str_eq name (codes "db")
    then db_command argv
    else exit 1

-- The two connections and the server.
pub data Part : Type 0 where
  db db_ro http : Part

pub data Step : Type 0 where
  opened closed : Part → Step
  -- the seeding collection, and the loop, or what run_collect does with a stored sample
  seeded looped slept collected judged : Step

-- What run_serve is answered.
pub record ServeAnswers : Type 0 where
  pub config_ok : Bool
  pub db_ok : Bool
  pub db_ro_ok : Bool
  pub http_ok : Bool

unfoldable pub run_serve : ServeAnswers → List Step × ℕ
run_serve a =
    if not a.config_ok
    then ([], 1)
    else if not a.db_ok
    then ([], 1)
    else if not a.db_ro_ok
    then (opened db ∷ closed db ∷ [], 1)
    else if not a.http_ok
    then (opened db ∷ opened db_ro ∷ closed db_ro ∷ closed db ∷ [], 1)
    else (
      opened db
          ∷ opened db_ro
          ∷ opened http
          ∷ seeded
          ∷ looped
          ∷ closed http
          ∷ closed db_ro
          ∷ closed db
          ∷ [],
      0,
    )

pub record CollectAnswers : Type 0 where
  pub config_ok : Bool
  pub db_ok : Bool
  pub seed_ok : Bool
  pub sample_ok : Bool
  pub insert_ok : Bool

unfoldable pub run_collect : CollectAnswers → List Step × ℕ
run_collect a =
    if not a.config_ok || not a.db_ok
    then ([], 1)
    else if not a.seed_ok
    then (opened db ∷ closed db ∷ [], 1)
    else if not a.sample_ok
    then (opened db ∷ seeded ∷ slept ∷ closed db ∷ [], 1)
    else if not a.insert_ok
    then (opened db ∷ seeded ∷ slept ∷ collected ∷ closed db ∷ [], 1)
    else (opened db ∷ seeded ∷ slept ∷ collected ∷ judged ∷ closed db ∷ [], 0)
