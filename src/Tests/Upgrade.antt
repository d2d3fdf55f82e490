-- ===== src/Tests/Upgrade.antt =====
-- src/migrate: upgrades and their copies.
use minimoni.Prelude.{[], codes, false, none, pos, refl, some, str_eq, true, ◌==◌, ◌∷◌, ◌≡◌}
use minimoni.Migrate.Run.{
  Env, apply_from, apply_original, backed_up, backup, chain_fuel, compact, copy, do_migrate,
  find_in, latest_of, migrate_from, original, script, snapshot, source_ok,
}
use minimoni.Migrate.Run.Chain.{apply_from-enough, apply_from-scripts}
use minimoni.Migrate.Run.Safety.{IsBackedUp, Spares, do_migrate-IsBackedUp, dry_run-Spares}
use minimoni.Migrate.Args.{finish, parse_args, run_main}
use minimoni.Migrate.Args.Forced.{Guarded, run_main-Guarded}
use minimoni.Migrate.Snapshot.{
  Copying, Files, database, dst, earlier, migrate_snapshot, nothing, partial, wal,
}
use minimoni.Migrate.Snapshot.Whole.{IsSnapshot, migrate_snapshot-whole, works}

-- A database at version 0 with room for everything, and one whose second script fails.
abbrev healthy : Env
healthy = record {
  missing = false;
  preflight = some (pos 0);
  verify = λ v. true;
  dry_path_fits = true;
  backup_path_fits = true;
  snapshot_ok = λ place. true;
  script_ok = λ place v. true;
  compact_ok = true;
}

abbrev failing : Env
failing = record healthy { script_ok = λ place v. v == 0 }

upgraded : do_migrate healthy true false false ≡ record {
  code = 0;
  status = none;
  trace = snapshot backup ∷ script original 0 ∷ script original 1 ∷ compact ∷ [];
}
unfolding do_migrate migrate_from source_ok backed_up apply_original apply_from find_in latest_of
upgraded = refl

do_migrate-IsBackedUp_example : IsBackedUp failing false (do_migrate failing true false false)
do_migrate-IsBackedUp_example = do_migrate-IsBackedUp failing false

dry_run-Spares_example : Spares (do_migrate failing true true false).trace
dry_run-Spares_example = dry_run-Spares failing true false

apply_from-scripts_example :
    (apply_from healthy copy chain_fuel (pos 0)).1 ≡ script copy 0 ∷ script copy 1 ∷ []
unfolding apply_from find_in latest_of
apply_from-scripts_example = apply_from-scripts healthy copy 0 refl

apply_from-enough_example :
    apply_from failing original 10 (pos 0) ≡ apply_from failing original chain_fuel (pos 0)
apply_from-enough_example = apply_from-enough failing original 7 (pos 0)

-- A database whose schema no migration knows.
abbrev altered : Env
altered = record healthy { verify = λ v. false }

refused :
    run_main altered (codes "--no-backup" ∷ codes "a.db" ∷ [])
    ≡ record { code = 1; status = none; trace = [] }
unfolding run_main finish parse_args str_eq do_migrate migrate_from source_ok find_in latest_of
refused = refl

run_main-Guarded_example : Guarded altered (run_main altered (codes "--force" ∷ codes "a.db" ∷ []))
run_main-Guarded_example =
    run_main-Guarded altered (codes "--force" ∷ codes "a.db" ∷ []) (λ v. refl)

-- An earlier backup, and a copy that fails.
abbrev full_disk : Copying
full_disk = record {
  tmp_path_fits = true;
  side_fits = λ b f. true;
  removable = λ b f. true;
  tmp_unlinked = true;
  created = true;
  vacuumed = false;
  left_over = λ c. partial;
  left_beside = λ f. nothing;
  renamed = true;
}

abbrev backups : Files
backups dst database = earlier
backups dst wal = earlier
backups b f = nothing

migrate_snapshot-whole_example :
    ((migrate_snapshot full_disk backups).1 ≡ works full_disk)
    × IsSnapshot full_disk backups (migrate_snapshot full_disk backups)
migrate_snapshot-whole_example = migrate_snapshot-whole full_disk backups
