-- ===== src/Db/Tiers/Stable.antt =====
-- All transitions of db_consolidate (src/db.c) together: what a pass leaves for a second one.
use minimoni.Prelude.{All, Bool, List, [], ap, arith, false, length, refl, true, ℕ, ◌∷◌, ◌≡◌, ◌≤◌}
use minimoni.Db.Tiers.{Row, Tier, apply_tier, apply_tiers, db_consolidate, tier_transitions}
use minimoni.Db.Tiers.Steps.{
  Kept, Kept-apply_tier, apply_tier-Kept, apply_tier_of_Kept, length-apply_tier,
}

-- The bucket sizes do not fall along the ladder.
abbrev pub Rising : List Tier → Type 0
Rising [] = Unit
Rising (t ∷ ts) = All (λ u. t.bucket_sec ≤ u.bucket_sec) ts × Rising ts

module _ {V : Type 0} (avg : List V → V) (now : ℕ) where
  Kept-apply_tiers :
      (tiers : List Tier) (small : Tier) (table : List (Row V))
      → All (λ u. small.bucket_sec ≤ u.bucket_sec) tiers
      → Kept now small table
      → Kept now small (apply_tiers avg now tiers table)
  unfolding apply_tiers
  Kept-apply_tiers [] small table h kept = kept
  Kept-apply_tiers (t ∷ tiers) small table h kept =
      Kept-apply_tiers tiers small _ h.1 (Kept-apply_tier avg now small t table h.0 kept)

  AllKept : List Tier → List (Row V) → Type 0
  AllKept tiers table = All (λ t. Kept now t table) tiers

  apply_tiers-Kept :
      (tiers : List Tier) (table : List (Row V))
      → Rising tiers
      → All (λ t. Kept now t (apply_tiers avg now tiers table)) tiers
  unfolding apply_tiers
  apply_tiers-Kept [] table h = tt
  apply_tiers-Kept (t ∷ tiers) table h = (
    Kept-apply_tiers tiers t _ h.0 (apply_tier-Kept avg now t table),
    apply_tiers-Kept tiers _ h.1,
  )

  apply_tiers_of_Kept :
      (tiers : List Tier) (table : List (Row V))
      → All (λ t. Kept now t table) tiers
      → apply_tiers avg now tiers table ≡ table
  unfolding apply_tiers
  apply_tiers_of_Kept [] table h = refl
  apply_tiers_of_Kept (t ∷ tiers) table h =
      rw (apply_tier_of_Kept avg now t table h.0) (apply_tiers_of_Kept tiers table h.1)

  length-apply_tiers :
      (tiers : List Tier) (table : List (Row V))
      → length (apply_tiers avg now tiers table) ≤ length table
  unfolding apply_tiers
  length-apply_tiers [] table = omega arith
  length-apply_tiers (t ∷ tiers) table = omega (
    arith,
    length-apply_tiers tiers (apply_tier avg now t table),
    length-apply_tier avg now t table,
  )

tier_transitions-Rising : Rising tier_transitions
tier_transitions-Rising = omega arith

module _ {V : Type 0} (avg : List V → V) (now : ℕ) (table : List (Row V)) where
  -- One pass of db_consolidate folds every backlog whole: after it no row is due in any of the five
  -- transitions, and a second pass at the same instant changes nothing, whatever the first found.
  pub consolidate_twice :
      All (λ t. Kept now t (db_consolidate avg true now table).0) tier_transitions
      × (db_consolidate avg true now (db_consolidate avg true now table).0
          ≡ db_consolidate avg true now table)
  unfolding db_consolidate
  consolidate_twice =
      let kept = apply_tiers-Kept avg now tier_transitions table tier_transitions-Rising in
      (kept, ap (λ rows. (rows, true)) (apply_tiers_of_Kept avg now tier_transitions _ kept))

  -- db_consolidate never makes the table longer, and an error leaves it as it was.
  pub length-db_consolidate :
      (succeeds : Bool)
      → (length (db_consolidate avg succeeds now table).0 ≤ length table)
        × (db_consolidate avg false now table ≡ (table, false))
  unfolding db_consolidate
  length-db_consolidate true = (length-apply_tiers avg now tier_transitions table, refl)
  length-db_consolidate false = (omega arith, refl)
