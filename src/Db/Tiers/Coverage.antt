-- ===== src/Db/Tiers/Coverage.antt =====
-- What db_consolidate (src/db.c) keeps of the history.
use minimoni.Prelude.{
  All, All-mono, Bool, Bool-cases, In, List, [], ap, arith, false, inl, inr, refl, select, some,
  true, ℕ, ◌&&◌, ◌*◌, ◌+◌, ◌/◌, ◌∷◌, ◌≡◌, ◌≤◌, ◌⊎◌,
}
use minimoni.Db.Tiers.{
  Row, Tier, apply_tier, apply_tiers, bucket_start, db_consolidate, group_row, in_bucket, is_due,
  is_finer, tier_transitions,
}
use minimoni.Db.Tiers.Steps.{In-apply_tier, In-apply_tier_group, apply_tier-Kept}

-- Buckets of size `b` lie whole inside buckets of size `c`.
abbrev Refines : ℕ → ℕ → Type 0
Refines b c = (x : ℕ) → x / b * b / c ≡ x / c

abbrev Nested : List Tier → Type 0
Nested [] = Unit
Nested (t ∷ ts) = All (λ u. Refines t.bucket_sec u.bucket_sec) ts × Nested ts

-- `r'` stands for `r`: it is `r`, or the row of its bucket in a tier with `P`.
abbrev pub StandsFor : {V : Type 0} → (ℕ → Type 0) → Row V → Row V → Type 0
StandsFor P r r' =
    (r' ≡ r) ⊎ ((b : ℕ) × P b × (r'.bucket_sec ≡ some b) × (r'.ts ≡ bucket_start b r.ts))

module _ {V : Type 0} (avg : List V → V) (now : ℕ) (P : ℕ → Type 0) where
  abbrev RefinesAll : List Tier → ℕ → Type 0
  RefinesAll tiers b = P b × All (λ u. Refines b u.bucket_sec) tiers

  -- The row of the next tier, at the same place for `r` as for the row that stood for it.
  StandsFor-next :
      (t : Tier) (tiers : List Tier) (r r' : Row V) (v : V)
      → P t.bucket_sec
      → All (λ u. Refines t.bucket_sec u.bucket_sec) tiers
      → StandsFor (RefinesAll (t ∷ tiers)) r r'
      → StandsFor (RefinesAll tiers) r (record {
        ts = bucket_start t.bucket_sec r'.ts;
        bucket_sec = some t.bucket_sec;
        values = v;
      })
  StandsFor-next t tiers r r' v p h (inl e) =
      inr (t.bucket_sec, (p, h), refl, ap (λ x. bucket_start t.bucket_sec x.ts) e)
  StandsFor-next t tiers r r' v p h (inr (b, q, sized, place)) =
      inr (t.bucket_sec, (p, h), refl, rw place (ap (λ k. k * t.bucket_sec) (q.1.0 r.ts)))

  StandsFor-keep :
      (t : Tier) (tiers : List Tier) (r r' : Row V)
      → StandsFor (RefinesAll (t ∷ tiers)) r r'
      → StandsFor (RefinesAll tiers) r r'
  StandsFor-keep t tiers r r' (inl e) = inl e
  StandsFor-keep t tiers r r' (inr (b, q, sized, place)) = inr (b, (q.0, q.1.1), sized, place)

  forget : (r r' : Row V) → StandsFor (RefinesAll []) r r' → StandsFor P r r'
  forget r r' (inl e) = inl e
  forget r r' (inr (b, q, sized, place)) = inr (b, q.0, sized, place)

  apply_tiers-StandsFor :
      (tiers : List Tier) (table : List (Row V)) (r r' : Row V)
      → All (λ t. P t.bucket_sec) tiers
      → Nested tiers
      → In r' table
      → StandsFor (RefinesAll tiers) r r'
      → (q : Row V) × In q (apply_tiers avg now tiers table) × StandsFor P r q
  unfolding apply_tiers
  apply_tiers-StandsFor [] table r r' p n m s = (r', m, forget r r' s)
  apply_tiers-StandsFor (t ∷ tiers) table r r' p n m s = elim (Bool-cases (is_due now t r')) [
    | inl due ↦
        apply_tiers-StandsFor tiers _ r _ p.1 n.1 (In-apply_tier_group avg now t table r' m due)
          (StandsFor-next t tiers r r' _ p.0 n.0 s)
    | inr young ↦
        apply_tiers-StandsFor tiers _ r r' p.1 n.1 (In-apply_tier avg now t table r' m young)
          (StandsFor-keep t tiers r r' s)
  ]

  In-apply_tiers :
      (tiers : List Tier) (table : List (Row V)) (r : Row V)
      → All (λ t. is_due now t r ≡ false) tiers
      → In r table
      → In r (apply_tiers avg now tiers table)
  unfolding apply_tiers
  In-apply_tiers [] table r young m = m
  In-apply_tiers (t ∷ tiers) table r young m =
      In-apply_tiers tiers _ r young.1 (In-apply_tier avg now t table r m young.0)

tier_transitions-Nested : Nested tier_transitions
tier_transitions-Nested = omega arith

abbrev pub tier_sizes : List ℕ
tier_sizes = 5 ∷ 30 ∷ 300 ∷ 3600 ∷ 21600 ∷ []

tier_transitions-sizes : All (λ t. In t.bucket_sec tier_sizes) tier_transitions
tier_transitions-sizes = omega arith

module _ {V : Type 0} (avg : List V → V) (now : ℕ) (table : List (Row V)) (r : Row V) where
  -- No sample's place in the history is lost: for every row of the table db_consolidate leaves that
  -- row, or a row of one of the five tiers at the start of the tier's bucket that the row lies in.
  pub consolidate_covers :
      (succeeds : Bool)
      → In r table
      → (r' : Row V) × In r' (db_consolidate avg succeeds now table).0
        × StandsFor (λ b. In b tier_sizes) r r'
  unfolding db_consolidate
  consolidate_covers true m =
      apply_tiers-StandsFor avg now (λ b. In b tier_sizes) tier_transitions table r r
        tier_transitions-sizes tier_transitions-Nested m (inl refl)
  consolidate_covers false m = (r, m, inl refl)

  pub not_due_yet : now ≤ r.ts + 7200 → All (λ t. is_due now t r ≡ false) tier_transitions
  unfolding is_due
  not_due_yet h = ground arith

  -- db_consolidate leaves every row of the last two hours in the table as it is.
  pub consolidate_young :
      (succeeds : Bool)
      → In r table
      → now ≤ r.ts + 7200
      → In r (db_consolidate avg succeeds now table).0
  unfolding db_consolidate
  consolidate_young true m h =
      In-apply_tiers avg now (λ b. In b tier_sizes) tier_transitions table r (not_due_yet h) m
  consolidate_young false m h = m

-- A transition takes a bucket whole or not at all: for a due row it leaves the row of the bucket
-- with the averages of all due rows in it, and in that bucket no row finer than the tier.
pub apply_tier_whole :
    {V : Type 0} (avg : List V → V) (now : ℕ) (t : Tier) (table : List (Row V)) (r : Row V)
    → In r table
    → is_due now t r ≡ true
    → In
        (group_row avg t.bucket_sec (select (is_due now t) table) (bucket_start t.bucket_sec r.ts))
        (apply_tier avg now t table)
      × All
          (λ q.
            (in_bucket t.bucket_sec (bucket_start t.bucket_sec r.ts) q
              && is_finer t.bucket_sec q.bucket_sec)
            ≡ false)
          (apply_tier avg now t table)
unfolding is_due
apply_tier_whole avg now t table r m due = (
  In-apply_tier_group avg now t table r m due,
  All-mono _ _ (apply_tier avg now t table) (λ q kept. ground arith)
      (apply_tier-Kept avg now t table),
)
