-- ===== src/DbCmd/Exec/Output.antt =====
-- What db_cmd_exec of src/db_cmd.c prints.
use minimoni.Prelude.{
  Bool, Bool-cases, Bytes, List, Option, [], ap, append-nil, false, flatten, if◌then◌else◌, inl,
  inr, map, not, refl, sym, true, ℕ, ◌&&◌, ◌++◌, ◌∷◌, ◌≡◌,
}
use minimoni.DbCmd.Exec.{
  Prepared, blank_tail, db_cmd_exec, prepare_error, print_rows, run_script, statement, takes_wrong,
}

-- A statement that runs to its end.
abbrev pub runs : Option Bytes → Prepared → Bool
runs value prepare_error = false
runs value blank_tail = true
runs value (statement s) = not (takes_wrong value s) && s.ends_done

-- What a statement prints by itself.
abbrev pub printed : Option Bytes → Prepared → Bytes
printed value prepare_error = []
printed value blank_tail = []
printed value (statement s) = if takes_wrong value s then [] else print_rows s.rows

-- The statements up to the first that fails, that one included.
unfoldable pub up_to_failure : Option Bytes → List Prepared → List Prepared
up_to_failure value [] = []
up_to_failure value (p ∷ ps) =
    let rest = up_to_failure value ps in if runs value p then p ∷ rest else p ∷ []

unfoldable pub all_run : Option Bytes → List Prepared → Bool
all_run value [] = true
all_run value (p ∷ ps) = runs value p && all_run value ps

abbrev pub exit_code : Bool → ℕ
exit_code succeeded = if succeeded then 0 else 1

run_script-printed :
    (value : Option Bytes) (script : List Prepared)
    → run_script value script ≡ (
      flatten (map (printed value) (up_to_failure value script)),
      exit_code (all_run value script),
    )
unfolding run_script up_to_failure all_run flatten
run_script-printed value [] = refl
run_script-printed value (prepare_error ∷ ps) = refl
run_script-printed value (blank_tail ∷ ps) = run_script-printed value ps
run_script-printed value (statement s ∷ ps) = elim (Bool-cases (takes_wrong value s)) [
  | inl wrong ↦ simp wrong refl
  | inr right ↦ elim (Bool-cases s.ends_done) [
    | inl ends ↦
        let later = run_script-printed value ps in
        simp (right, ends) (λ j. (print_rows s.rows ++ (later j).0, (later j).1))
    | inr fails ↦ simp (right, fails) (ap (λ x. (x, 1)) (sym (append-nil (print_rows s.rows))))
  ]
]

-- On a database that opens, db exec prints the rows of each statement up to the first that fails,
-- with those that this one gave before it failed, and exits with 0 if none fails and 1 if one does;
-- a database that does not open gives 2 and prints nothing.
pub db_cmd_exec-printed :
    (value : Option Bytes) (script : List Prepared)
    → (db_cmd_exec true value script ≡ (
      flatten (map (printed value) (up_to_failure value script)),
      exit_code (all_run value script),
    ))
      × (db_cmd_exec false value script ≡ ([], 2))
unfolding db_cmd_exec
db_cmd_exec-printed value script = (run_script-printed value script, refl)
