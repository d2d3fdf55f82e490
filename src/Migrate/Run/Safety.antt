-- ===== src/Migrate/Run/Safety.antt =====
-- What do_migrate of src/migrate/main.c does to the database.
use minimoni.Prelude.{
  All, All-append, Bool, Bool-cases, List, Option, Option-cases, [], false, false≢true,
  if◌then◌else◌, inl, inr, none, not, pos, refl, some, subst, suc, sym, true, zero, ℕ, ℤ, ◌&&◌,
  ◌++◌, ◌==◌, ◌||◌, ◌∷◌, ◌≡◌, ◌⊎◌,
}
use minimoni.Migrate.Run.{
  Effect, Env, Migration, Outcome, Place, apply_from, apply_one, apply_original, backed_up, backup,
  blocked, chain_fuel, compact, compare_version, copy, do_migrate, migrate_from, migrations_find,
  migrations_latest_version, original, rehearse, remove_copy, says, script, snapshot, source_ok,
}
use minimoni.Migrate.Run.Chain.{apply_from-spares, writes_original}

abbrev pub Spares : List Effect → Type 0
Spares = All (λ e. writes_original e ≡ false)

pub rehearse-Spares : (env : Env) (current : ℤ) → Spares (rehearse env current).trace
unfolding rehearse
rehearse-Spares env current = elim (Bool-cases env.dry_path_fits) [
  | inr e ↦ simp e tt
  | inl e ↦ elim (Bool-cases (env.snapshot_ok copy)) [
    | inr f ↦ simp (e, f) (refl, (refl, tt))
    | inl f ↦
        simp (e, f)
          (
            refl,
            (
              refl,
              All-append (λ x. writes_original x ≡ false) (apply_from env copy chain_fuel current).1
                  (remove_copy ∷ []) (apply_from-spares env chain_fuel current) (refl, tt),
            ),
          )
  ]
]

migrate_from-Spares :
    (env : Env) (do_backup force : Bool) (current : ℤ)
    → Spares (migrate_from env do_backup true force current).trace
unfolding migrate_from
migrate_from-Spares env do_backup force current =
    elim (Bool-cases (compare_version current migrations_latest_version == 1)) [
      | inl a ↦ rw a tt
      | inr a ↦ elim (Bool-cases (compare_version current migrations_latest_version == 2)) [
        | inl b ↦ rw (a, b) tt
        | inr b ↦ elim (Bool-cases (force || source_ok env current)) [
          | inr c ↦ rw (a, b, c) tt
          | inl c ↦ rw (a, b, c) (rehearse-Spares env current)
        ]
      ]
    ]

-- Whatever the other flags and whatever fails, a dry run changes nothing in the database.
pub dry_run-Spares :
    (env : Env) (do_backup force : Bool) → Spares (do_migrate env do_backup true force).trace
unfolding do_migrate
dry_run-Spares env do_backup force = elim (Bool-cases env.missing) [
  | inl e ↦ rw e tt
  | inr e ↦ rw e (from_preflight env.preflight)
]
  where
    from_preflight :
        (p : Option ℤ)
        → Spares
            (elim p as (λ q. Outcome) [
              | none ↦ record { code = 1; status = says true blocked; trace = [] }
              | some current ↦ migrate_from env do_backup true force current
            ]).trace
    from_preflight none = tt
    from_preflight (some current) = migrate_from-Spares env do_backup force current

-- What became of the steps behind the backup: every script succeeded, and the closing compaction,
-- which comes last, did too.
unfoldable pub finished : Env → List Effect → Bool
finished env [] = false
finished env (compact ∷ []) = env.compact_ok
finished env (compact ∷ e ∷ rest) = false
finished env (script p v ∷ rest) = env.script_ok p v && finished env rest
finished env (snapshot p ∷ rest) = false
finished env (remove_copy ∷ rest) = false

-- Nothing to migrate: no database, or one of the latest version.
abbrev pub is_current : Env → Bool
is_current env =
    env.missing
    || says_version (λ v. compare_version v migrations_latest_version == 1) env.preflight
  where
    says_version : (ℤ → Bool) → Option ℤ → Bool
    says_version f none = false
    says_version f (some v) = f v

-- A check refuses: the preflight, a version above the latest, or without --force the schema.
abbrev pub is_refused : Env → Bool → Bool
is_refused env force = refuses env.preflight
  where
    refuses : Option ℤ → Bool
    refuses none = true
    refuses (some v) =
        compare_version v migrations_latest_version == 2 || not (force || source_ok env v)

-- The exit statuses of main's help, each with what makes it: 0 or 1 without any effect, 3 where the
-- backup could not be made, and behind a backup that was made 0 if every step succeeded and 2 if
-- not.
abbrev pub IsBackedUp : Env → Bool → Outcome → Type 0
IsBackedUp env force o =
    ((is_current env ≡ true) × (o.trace ≡ []) × (o.code ≡ 0))
    ⊎ ((is_current env ≡ false) × (is_refused env force ≡ true) × (o.trace ≡ []) × (o.code ≡ 1))
    ⊎ ((is_current env ≡ false)
        × (is_refused env force ≡ false)
        × ((env.backup_path_fits && env.snapshot_ok backup) ≡ false)
        × ((o.trace ≡ []) ⊎ (o.trace ≡ snapshot backup ∷ []))
        × (o.code ≡ 3))
    ⊎ ((is_current env ≡ false)
        × (is_refused env force ≡ false)
        × (env.snapshot_ok backup ≡ true)
        × ((rest : List Effect) × (o.trace ≡ snapshot backup ∷ rest)
            × (o.code ≡ (if finished env rest then 0 else 2))))

-- The chain's result stands in its trace.
abbrev Recounts : Env → Bool × List Effect → Type 0
Recounts env (ok, effects) =
    ((ok ≡ true) → finished env (effects ++ compact ∷ []) ≡ env.compact_ok)
    × ((ok ≡ false) → finished env effects ≡ false)

apply_one-Recounts :
    (env : Env) (p : Place) (found : Option Migration) (next : ℤ → Bool × List Effect)
    → ((v : ℤ) → Recounts env (next v))
    → Recounts env (apply_one env p found next)
unfolding finished
apply_one-Recounts env p none next h = (λ e. absurd (false≢true e), λ e. refl)
apply_one-Recounts env p (some m) next h = elim (Bool-cases (env.script_ok p m.from_version)) [
  | inl e ↦ rw (e, e) (h (pos m.to_version))
  | inr e ↦ rw (e, e) (λ f. absurd (false≢true f), λ f. refl)
]

apply_from-Recounts :
    (env : Env) (p : Place) (fuel : ℕ) (current : ℤ) → Recounts env (apply_from env p fuel current)
unfolding apply_from finished
apply_from-Recounts env p zero current = (λ e. absurd (false≢true e), λ e. refl)
apply_from-Recounts env p (suc fuel) current =
    elim (Bool-cases (compare_version current migrations_latest_version == 0)) [
      | inl e ↦ rw e (
          apply_one-Recounts env p (migrations_find current) (λ v. apply_from env p fuel v)
            (λ v. apply_from-Recounts env p fuel v))
      | inr e ↦ rw e (λ f. refl, λ f. refl)
    ]

apply_original-finished :
    (env : Env) (current : ℤ)
    → let o = apply_original env current (snapshot backup ∷ []) in
      (rest : List Effect) × (o.trace ≡ snapshot backup ∷ rest)
      × (o.code ≡ (if finished env rest then 0 else 2))
unfolding apply_original
apply_original-finished env current =
    let ran = apply_from env original chain_fuel current in
    let recounts = apply_from-Recounts env original chain_fuel current in
    elim (Bool-cases ran.0) [
      | inl h ↦ rw h (ran.1 ++ compact ∷ [], refl, rw (recounts.0 h) refl)
      | inr h ↦ rw h (ran.1, refl, rw (recounts.1 h) refl)
    ]

backed_up-IsBackedUp :
    (env : Env) (force : Bool) (current : ℤ)
    → is_current env ≡ false
    → is_refused env force ≡ false
    → IsBackedUp env force (backed_up env current)
unfolding backed_up
backed_up-IsBackedUp env force current older allowed = elim (Bool-cases env.backup_path_fits) [
  | inr e ↦ simp e (inr (inr (inl (older, allowed, refl, inl refl, refl))))
  | inl e ↦ elim (Bool-cases (env.snapshot_ok backup)) [
    | inr f ↦ simp (e, f) (inr (inr (inl (older, allowed, refl, inr refl, refl))))
    | inl f ↦
        simp (e, f) (inr (inr (inr (older, allowed, refl, apply_original-finished env current))))
  ]
]

migrate_from-IsBackedUp :
    (env : Env) (force : Bool) (current : ℤ)
    → env.missing ≡ false
    → env.preflight ≡ some current
    → IsBackedUp env force (migrate_from env true false force current)
unfolding migrate_from source_ok
migrate_from-IsBackedUp env force current there known =
    elim (Bool-cases (compare_version current migrations_latest_version == 1)) [
      | inl a ↦ rw a (inl (rw (there, known) a, refl, refl))
      | inr a ↦ elim (Bool-cases (compare_version current migrations_latest_version == 2)) [
        | inl b ↦ rw (a, b) (inr (inl (rw (there, known) a, rw (known, b) refl, refl, refl)))
        | inr b ↦ elim (Bool-cases (force || source_ok env current)) [
          | inr c ↦
              rw (a, b, c) (inr (inl (rw (there, known) a, rw (known, b, c) refl, refl, refl)))
          | inl c ↦
              rw (a, b, c)
                (backed_up-IsBackedUp env force current (rw (there, known) a)
                  (rw (known, b, c) refl))
        ]
      ]
    ]

do_migrate-known :
    (env : Env) (force : Bool) (current : ℤ)
    → env.missing ≡ false
    → env.preflight ≡ some current
    → do_migrate env true false force ≡ migrate_from env true false force current
unfolding do_migrate
do_migrate-known env force current there known = simp (there, known) refl

-- Without --dry-run and --no-backup, whatever fails, the database is changed only behind a snapshot
-- that was made, and the exit code is the one that the help promises: 0 where there is nothing to
-- migrate and 1 where a check refuses, both without any effect; 3 where the backup could not be
-- made, with no other effect than its attempt; and behind the backup 0 if every script and the
-- closing compaction succeeded, and 2 if one failed or was missing.
pub do_migrate-IsBackedUp :
    (env : Env) (force : Bool) → IsBackedUp env force (do_migrate env true false force)
unfolding do_migrate
do_migrate-IsBackedUp env force = elim (Bool-cases env.missing) [
  | inl e ↦ rw e (inl (refl, refl, refl))
  | inr e ↦ elim (Option-cases env.preflight) [
    | inl p ↦ rw (e, p) (inr (inl (refl, refl, refl, refl)))
    | inr (current, p) ↦
        subst (IsBackedUp env force) (sym (do_migrate-known env force current e p))
          (migrate_from-IsBackedUp env force current e p)
  ]
]
