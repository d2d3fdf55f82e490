-- ===== src/Units/Ladder.antt =====
-- The rung of the unit ladder that unit_step of src/units.c answers.
use native.Mathlib.Decide.{dec_lt}
use minimoni.Prelude.{
  Bool-cases, arith, false, inl, inr, some, subst, suc, true, zero, ℕ, ◌+◌, ◌-◌, ◌<◌, ◌≡◌, ◌≤◌, ◌⊎◌,
}
use minimoni.Double.{Double, above_nought}
use minimoni.Units.{climb, too_wide, unit_step}

module _ {D : Type 0} ⦃d : Double D⦄ (max factor : D) where
  -- Every rung below `i` is too narrow for `max`, and `i` is the last rung or wide enough.
  pub record IsRung (last i : ℕ) : Type 0 where
    pub within : i ≤ last
    pub below : (k : ℕ) → k < i → too_wide max factor k ≡ true
    pub stops : (i ≡ last) ⊎ (too_wide max factor i ≡ false)

  below-suc :
      (i : ℕ)
      → ((k : ℕ) → k < i → too_wide max factor k ≡ true)
      → too_wide max factor i ≡ true
      → (k : ℕ) → k < i + 1
      → too_wide max factor k ≡ true
  below-suc i h wide k lt = elim (dec_lt k i) [
    | yes p ↦ h k p
    | no p ↦ subst (λ n. too_wide max factor n ≡ true) (omega arith) wide
  ]

  climb-IsRung :
      (left i : ℕ)
      → ((k : ℕ) → k < i → too_wide max factor k ≡ true)
      → IsRung (i + left) (climb max factor left i)
  unfolding climb
  climb-IsRung zero i h = record { within = omega arith; below = h; stops = inl (omega arith) }
  climb-IsRung (suc left) i h = elim (Bool-cases (too_wide max factor i)) [
    | inl wide ↦ rw wide (
        subst (λ n. IsRung n (climb max factor left (i + 1))) (omega arith)
          (climb-IsRung left (i + 1) (below-suc i h wide)))
    | inr fits ↦ rw fits (record { within = omega arith; below = h; stops = inr fits })
  ]

  climb-IsRung_start : (last : ℕ) → IsRung last (climb max factor last 0)
  climb-IsRung_start last =
      subst (λ n. IsRung n (climb max factor last 0)) (omega arith)
        (climb-IsRung last 0 (λ k lt. elim lt [ ]))

  -- For a value above 0 unit_step finds the first rung that is wide enough for it, and the last
  -- rung if none is.
  pub unit_step-IsRung :
      (steps : ℕ)
      → above_nought max ≡ true
      → (i : ℕ) × (unit_step max steps factor ≡ some i) × IsRung (steps - 1) i
  unfolding unit_step
  unit_step-IsRung steps e = (climb max factor (steps - 1) 0, rw e, climb-IsRung_start (steps - 1))
