-- ===== src/Db/Open.antt =====
-- db_open, db_open_readonly and db_close of src/db.c, as the trace of what they do to the file and
-- to SQLite's handle. The messages are not modelled.
pub mod Outcome
use minimoni.Prelude.{
  Bool, List, Option, [], false, if◌then◌else◌, not, pos, some, suc, true, zero, ℕ, ℤ, ◌&&◌, ◌++◌,
  ◌+◌, ◌==◌, ◌||◌, ◌∷◌,
}

-- MINIMONI_APPLICATION_ID and MINIMONI_SCHEMA_VERSION
abbrev pub application_id : ℕ
application_id = 0x6D6F6E69

abbrev pub schema_version : ℕ
schema_version = 2

-- db_t: whether the handle is set, how many of the five statements are, and whether sql_consolidate is
pub record Db : Type 0 where
  pub handle : Bool
  pub statements : ℕ
  pub sql_consolidate : Bool

abbrev pub zeroed : Db
zeroed = record { handle = false; statements = 0; sql_consolidate = false }

pub data Effect : Type 0 where
  create_file open_handle set_journal_mode set_synchronous set_cache_size : Effect
  create_schema write_application_id write_user_version close_handle : Effect

-- What the host and SQLite answer. A pragma is `none` if it cannot be read.
pub record Answers : Type 0 where
  pub existed_before : Bool
  pub is_directory : Bool
  pub created : Bool
  pub opened : Bool
  pub app_id : Option ℤ
  pub version : Option ℤ
  pub schema_created : Bool
  pub prepared : ℕ → Bool
  pub allocated : Bool

abbrev pub holds : ℕ → Option ℤ → Bool
holds n (some (pos z)) = z == n
holds n _ = false

abbrev pub pragmas : List Effect
pragmas = set_journal_mode ∷ set_synchronous ∷ set_cache_size ∷ []

-- The five statements, prepared until one fails: `left` are left.
unfoldable pub prepare_from : (ℕ → Bool) → ℕ → ℕ → ℕ × Bool
prepare_from prepared zero i = (i, true)
prepare_from prepared (suc left) i =
    let rest = prepare_from prepared left (i + 1) in if prepared i then rest else (i, false)

unfoldable pub db_close : Db → Db × List Effect
db_close db = if db.handle then (zeroed, close_handle ∷ []) else (db, [])

-- The end of db_open, with the effects so far.
unfoldable pub prepare_all : Answers → List Effect → Db × List Effect × Bool
prepare_all a effects =
    let (n, all) = prepare_from a.prepared 5 0 in
    let db : Db = record { handle = true; statements = n; sql_consolidate = all && a.allocated } in
    if all && a.allocated
    then (db, effects, true)
    else (let (closed, more) = db_close db in (closed, effects ++ more, false))

-- The connection, once it is open.
unfoldable pub check_or_create : Answers → List Effect → Db × List Effect × Bool
check_or_create a effects =
    if a.existed_before
    then if not (holds application_id a.app_id) || not (holds schema_version a.version)
      then (zeroed, effects ++ close_handle ∷ [], false)
      else prepare_all a effects
    else if not a.schema_created
    then (zeroed, effects ++ create_schema ∷ close_handle ∷ [], false)
    else prepare_all a (effects ++ create_schema ∷ write_application_id ∷ write_user_version ∷ [])

unfoldable pub db_open : Answers → Db × List Effect × Bool
db_open a =
    if a.existed_before && a.is_directory
    then (zeroed, [], false)
    else if not a.existed_before && not a.created
    then (zeroed, [], false)
    else (let file = if a.existed_before then [] else create_file ∷ [] in
        if not a.opened
        then (zeroed, file ++ open_handle ∷ close_handle ∷ [], false)
        else check_or_create a (file ++ open_handle ∷ pragmas))

unfoldable pub db_open_readonly : Bool → Db × List Effect × Bool
db_open_readonly opened =
    if opened
    then (record zeroed { handle = true }, open_handle ∷ set_cache_size ∷ [], true)
    else (zeroed, open_handle ∷ close_handle ∷ [], false)
