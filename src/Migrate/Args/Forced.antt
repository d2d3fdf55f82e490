-- ===== src/Migrate/Args/Forced.antt =====
-- main of src/migrate/main.c on a database whose schema is not the one that is known.
use minimoni.Migrate.Args.{
  Parsed, default_flags, exits, finish, flags, is_set, parse_args, run_main,
}
use minimoni.Prelude.{
  Bool, Bool-cases, Bytes, List, Option, [], arith, false, false≢true, if◌then◌else◌, inl, inr,
  negsuc, none, not, pos, refl, some, suc, sym, true, zero, ℕ, ℤ, ◌&&◌, ◌==◌, ◌≡◌, ◌⊎◌,
}
use minimoni.Migrate.Run.{
  Env, Outcome, apply_from, apply_original, backed_up, backup, blocked, compare_version, do_migrate,
  find_in, latest_of, migrate_from, migrations_latest_version, rehearse, says, source_ok,
}
use minimoni.Migrate.Run.Safety.{
  IsBackedUp, Spares, do_migrate-IsBackedUp, dry_run-Spares, rehearse-Spares,
}

-- What the chain of checks lets through without --force.
abbrev pub Guarded : Env → Outcome → Type 0
Guarded env o = Spares o.trace ⊎ IsBackedUp env true o

-- No migration's source check passes.
abbrev pub Unknown : Env → Type 0
Unknown env = (v : ℕ) → env.verify v ≡ false

negative-Spares :
    (env : Env) (do_backup dry_run : Bool) (n : ℕ)
    → Spares
        (if dry_run
          then rehearse env (negsuc n)
          else if do_backup
          then backed_up env (negsuc n)
          else apply_original env (negsuc n) []).trace
unfolding backed_up apply_original apply_from find_in latest_of
negative-Spares env do_backup true n = rehearse-Spares env (negsuc n)
negative-Spares env false false n = tt
negative-Spares env true false n = elim (Bool-cases env.backup_path_fits) [
  | inr e ↦ simp e tt
  | inl e ↦ elim (Bool-cases (env.snapshot_ok backup)) [
    | inr f ↦ simp (e, f) (refl, tt)
    | inl f ↦ simp (e, f) (refl, tt)
  ]
]

never_below :
    (n : ℕ)
    → (compare_version (pos (suc (suc n))) migrations_latest_version == 1) ≡ false
    → (compare_version (pos (suc (suc n))) migrations_latest_version == 2) ≡ true
unfolding latest_of
never_below n h = ground arith

unforced-Spares :
    (env : Env) (do_backup dry_run : Bool) (current : ℤ)
    → Unknown env
    → Spares (migrate_from env do_backup dry_run false current).trace
unfolding migrate_from source_ok find_in latest_of
unforced-Spares env do_backup dry_run (negsuc n) h = negative-Spares env do_backup dry_run n
unforced-Spares env do_backup dry_run (pos zero) h =
    let e : source_ok env (pos 0) ≡ false = h 0 in rw e tt
unforced-Spares env do_backup dry_run (pos (suc zero)) h =
    let e : source_ok env (pos 1) ≡ false = h 1 in rw e tt
unforced-Spares env do_backup dry_run (pos (suc (suc n))) h =
    elim (Bool-cases (compare_version (pos (suc (suc n))) migrations_latest_version == 1)) [
      | inl a ↦ rw a tt
      | inr a ↦ let b = never_below n a in rw (a, b) tt
    ]

unforced_migrate-Spares :
    (env : Env) (do_backup dry_run : Bool)
    → Unknown env
    → Spares (do_migrate env do_backup dry_run false).trace
unfolding do_migrate
unforced_migrate-Spares env do_backup dry_run h = elim (Bool-cases env.missing) [
  | inl e ↦ rw e tt
  | inr e ↦ rw e (from_preflight env.preflight)
]
  where
    from_preflight :
        (p : Option ℤ)
        → Spares
            (elim p as (λ q. Outcome) [
              | none ↦ record { code = 1; status = says dry_run blocked; trace = [] }
              | some current ↦ migrate_from env do_backup dry_run false current
            ]).trace
    from_preflight none = tt
    from_preflight (some current) = unforced-Spares env do_backup dry_run current h

forced-Guarded :
    (env : Env) (do_backup dry_run force : Bool)
    → Unknown env
    → force && not do_backup ≡ false
    → Guarded env (do_migrate env do_backup dry_run force)
forced-Guarded env do_backup dry_run false h ok =
    inl (unforced_migrate-Spares env do_backup dry_run h)
forced-Guarded env do_backup true true h ok = inl (dry_run-Spares env do_backup true)
forced-Guarded env true false true h ok = inr (do_migrate-IsBackedUp env true)
forced-Guarded env false false true h ok = absurd (false≢true (sym ok))

-- If no source check passes, then whatever the arguments of minimoni-migrate are, the database is
-- not changed, or is changed only behind a backup that was made.
pub run_main-Guarded :
    (env : Env) (args : List Bytes) → Unknown env → Guarded env (run_main env args)
unfolding run_main finish
run_main-Guarded env args h = of_parsed (parse_args args default_flags)
  where
    of_parsed : (p : Parsed) → Guarded env (finish env p)
    of_parsed (exits code) = inl tt
    of_parsed (flags f) = elim (Bool-cases (is_set f.db_path)) [
      | inr e ↦ rw e (inl tt)
      | inl e ↦ elim (Bool-cases (f.force && not f.do_backup)) [
        | inl g ↦ rw (e, g) (inl tt)
        | inr g ↦ rw (e, g) (forced-Guarded env f.do_backup f.dry_run f.force h g)
      ]
    ]
