-- ===== src/Migrate/Run/Chain.antt =====
-- The loop of do_migrate in src/migrate/main.c over the registry of src/migrate/migrations.c.
use minimoni.Prelude.{
  All, Bool, Bool-cases, List, Option, [], arith, false, inl, inr, negsuc, none, pos, refl, some,
  suc, true, zero, ℕ, ℤ, ◌==◌, ◌∷◌, ◌≡◌,
}
use minimoni.Migrate.Run.{
  Effect, Env, Migration, Place, apply_from, apply_one, backup, chain_fuel, compact,
  compare_version, copy, find_in, latest_of, migrations_find, migrations_latest_version, original,
  remove_copy, script, snapshot,
}

newer : (n : ℕ) → (compare_version (pos (suc (suc n))) migrations_latest_version == 0) ≡ false
unfolding latest_of
newer n = ground arith

-- Each migration in the registry raises the version, so the loop ends: with more fuel than the
-- passes that chain_fuel allows, it answers the same from every version.
pub apply_from-enough :
    (env : Env) (target : Place) (more : ℕ) (current : ℤ)
    → apply_from env target (suc (suc (suc more))) current
      ≡ apply_from env target chain_fuel current
unfolding apply_from find_in latest_of
apply_from-enough env target more (negsuc n) = refl
apply_from-enough env target more (pos zero) = refl
apply_from-enough env target more (pos (suc zero)) = refl
apply_from-enough env target more (pos (suc (suc n))) = rw (newer n) refl

-- What a chain runs when it succeeds.
abbrev pub scripts_from : Place → ℕ → List Effect
scripts_from target zero = script target 0 ∷ script target 1 ∷ []
scripts_from target (suc zero) = script target 1 ∷ []
scripts_from target (suc (suc n)) = []

-- A chain that succeeds ran the script of each version from the one it started at up to the latest,
-- in order and on its target only.
pub apply_from-scripts :
    (env : Env) (target : Place) (n : ℕ)
    → (apply_from env target chain_fuel (pos n)).0 ≡ true
    → (apply_from env target chain_fuel (pos n)).1 ≡ scripts_from target n
unfolding apply_from find_in latest_of
apply_from-scripts env target zero h = ground arith
apply_from-scripts env target (suc zero) h = ground arith
apply_from-scripts env target (suc (suc n)) h = rw (newer n) refl

-- What changes the database itself.
abbrev pub writes_original : Effect → Bool
writes_original (script original n) = true
writes_original (script copy n) = false
writes_original (script backup n) = false
writes_original (snapshot place) = false
writes_original remove_copy = false
writes_original compact = true

apply_one-spares :
    (env : Env) (found : Option Migration) (next : ℤ → Bool × List Effect)
    → ((v : ℤ) → All (λ e. writes_original e ≡ false) (next v).1)
    → All (λ e. writes_original e ≡ false) (apply_one env copy found next).1
apply_one-spares env none next h = tt
apply_one-spares env (some m) next h = elim (Bool-cases (env.script_ok copy m.from_version)) [
  | inl e ↦ rw e (refl, h (pos m.to_version))
  | inr e ↦ rw e (refl, tt)
]

-- A chain on the dry-run copy does not change the database.
pub apply_from-spares :
    (env : Env) (fuel : ℕ) (current : ℤ)
    → All (λ e. writes_original e ≡ false) (apply_from env copy fuel current).1
unfolding apply_from
apply_from-spares env zero current = tt
apply_from-spares env (suc fuel) current =
    elim (Bool-cases (compare_version current migrations_latest_version == 0)) [
      | inl e ↦ rw e (
          apply_one-spares env (migrations_find current) (λ v. apply_from env copy fuel v)
            (λ v. apply_from-spares env fuel v))
      | inr e ↦ rw e tt
    ]
