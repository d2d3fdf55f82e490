-- ===== src/Alerts/Condition/Known.antt =====
-- The names that config_load lets through and those that src/alerts.c knows: METRIC_NAMES and
-- get_metric_value, and valid_op and eval_op.
use minimoni.Prelude.{
  Bool, Bool-cases, Bytes, In, List, [], ap, arith, false, false≢true, inl, inr, map, refl, str_eq,
  str_eq_iff, subst, sym, true, ◌∙◌, ◌∷◌, ◌≡◌,
}
use minimoni.Double.{Double, nought}
use minimoni.Config.Settings.{in_list}
use minimoni.Config.Datum.{metric_names, valid_op}
use minimoni.Db.Snapshot.{DbRow}
use minimoni.Alerts.Condition.{eval_op, first_named, get_metric_value, readings}

module _ {D : Type 0} ⦃d : Double D⦄ where
  abbrev pub names : List (Bytes × (Bool × D)) → List Bytes
  names readings = map (λ r. r.0) readings

  names-readings : (r : DbRow D) → names (readings r) ≡ metric_names
  unfolding readings
  names-readings r = refl

  hit :
      (m name : Bytes) (reading : Bool × D) (rest : List (Bytes × (Bool × D)))
      → str_eq m name ≡ true
      → first_named m ((name, reading) ∷ rest) ≡ reading
  unfolding first_named
  hit m name reading rest e = rw e refl

  miss :
      (m name : Bytes) (reading : Bool × D) (rest : List (Bytes × (Bool × D)))
      → str_eq m name ≡ false
      → first_named m ((name, reading) ∷ rest) ≡ first_named m rest
  unfolding first_named
  miss m name reading rest e = rw e refl

  -- The pair that the chain of tests ends at.
  first_named-In :
      (m : Bytes) (rs : List (Bytes × (Bool × D))) → In m (names rs) → In (m, first_named m rs) rs
  first_named-In m [] h = absurd h
  first_named-In m ((name, reading) ∷ rest) h = elim (Bool-cases (str_eq m name)) [
    | inl e ↦ inl (
        ap (λ n. (n, first_named m ((name, reading) ∷ rest))) ((str_eq_iff m name).0 e)
        ∙ ap (λ k. (name, k)) (hit m name reading rest e))
    | inr e ↦ inr (
        subst (λ k. In (m, k) rest) (sym (miss m name reading rest e))
          (elim h [
            | inl same ↦ absurd (false≢true (sym e ∙ (str_eq_iff m name).1 same))
            | inr i ↦ first_named-In m rest i
          ]))
  ]

  -- Every metric that the configuration accepts is read from the row by its own name: what
  -- get_metric_value returns stands beside that name among the row's readings.
  pub get_metric_value-known :
      (r : DbRow D) (m : Bytes) → In m metric_names → In (m, get_metric_value r m) (readings r)
  unfolding get_metric_value
  get_metric_value-known r m h =
      first_named-In m (readings r) (subst (λ ns. In m ns) (sym (names-readings r)) h)

  -- A metric that the configuration refuses has no valid value, so no alert on it is met.
  unknown_invalid :
      (m : Bytes) (rs : List (Bytes × (Bool × D)))
      → in_list m (names rs) ≡ false
      → first_named m rs ≡ (false, nought)
  unfolding first_named in_list
  unknown_invalid m [] h = refl
  unknown_invalid m ((name, reading) ∷ rest) h = ground (arith, unknown_invalid m rest)

  pub get_metric_value-unknown :
      (r : DbRow D) (m : Bytes)
      → in_list m metric_names ≡ false
      → get_metric_value r m ≡ (false, nought)
  unfolding get_metric_value
  get_metric_value-unknown r m h =
      unknown_invalid m (readings r) (ap (in_list m) (names-readings r) ∙ h)

  -- An operator that the configuration refuses is never met.
  pub eval_op-unknown :
      (val thr : D) (op : Bytes) → valid_op op ≡ false → eval_op val op thr ≡ false
  unfolding eval_op in_list
  eval_op-unknown val thr op h = ground arith
