-- ===== src/DbCmd/Exec.antt =====
-- db_cmd_exec and print_value of src/db_cmd.c. A script is what SQLite makes of its statements in turn.
pub mod Output
use minimoni.Prelude.{
  Bool, Bytes, List, Option, [], codes, false, if◌then◌else◌, ltb, none, not, some, true, ℕ, ◌%◌,
  ◌&&◌, ◌++◌, ◌+◌, ◌-◌, ◌/◌, ◌==◌, ◌||◌, ◌∷◌,
}

-- One value of a row: `shown` is sqlite3_column_text of an integer, a real or a text.
pub data Value : Type 0 where
  null_value : Value
  blob : Bytes → Value
  shown : Bytes → Value

-- "%02X" of a byte
abbrev pub hex_digit : ℕ → ℕ
hex_digit n = if ltb n 10 then b'0' + n else b'A' + (n - 10)

unfoldable pub hex : Bytes → Bytes
hex [] = []
hex (b ∷ bs) = hex_digit (b / 16) ∷ hex_digit (b % 16) ∷ hex bs

unfoldable pub print_value : Value → Bytes
print_value null_value = codes "NULL"
print_value (blob bytes) = codes "X'" ++ (hex bytes ++ codes "'")
print_value (shown text) = text

-- The columns with a tab between each two.
unfoldable pub print_columns : List Value → Bytes
print_columns [] = []
print_columns (v ∷ []) = print_value v
print_columns (v ∷ w ∷ vs) = print_value v ++ (b'\t' ∷ print_columns (w ∷ vs))

abbrev pub print_row : List Value → Bytes
print_row vs = print_columns vs ++ (b'\n' ∷ [])

unfoldable pub print_rows : List (List Value) → Bytes
print_rows [] = []
print_rows (r ∷ rs) = print_row r ++ print_rows rs

-- A statement: how many values it takes, the rows that it gives, and whether it ends in SQLITE_DONE.
pub record Statement : Type 0 where
  pub params : ℕ
  pub rows : List (List Value)
  pub ends_done : Bool

-- What sqlite3_prepare_v2 gives: an error, nothing for a blank tail, or a statement.
pub data Prepared : Type 0 where
  prepare_error : Prepared
  blank_tail : Prepared
  statement : Statement → Prepared

-- What is printed, and the exit code.
abbrev pub Outcome : Type 0
Outcome = Bytes × ℕ

abbrev pub is_some : Option Bytes → Bool
is_some none = false
is_some (some v) = true

abbrev pub takes_wrong : Option Bytes → Statement → Bool
takes_wrong value s = ltb 1 s.params || (s.params == 1 && not (is_some value))

-- The loop over the statements.
unfoldable pub run_script : Option Bytes → List Prepared → Outcome
run_script value [] = ([], 0)
run_script value (prepare_error ∷ rest) = ([], 1)
run_script value (blank_tail ∷ rest) = run_script value rest
run_script value (statement s ∷ rest) =
    let (later, code) = run_script value rest in
    if takes_wrong value s
    then ([], 1)
    else if not s.ends_done
    then (print_rows s.rows, 1)
    else (print_rows s.rows ++ later, code)

unfoldable pub db_cmd_exec : Bool → Option Bytes → List Prepared → Outcome
db_cmd_exec opened value script = if not opened then ([], 2) else run_script value script
