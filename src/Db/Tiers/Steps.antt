-- ===== src/Db/Tiers/Steps.antt =====
-- One transition of db_consolidate (src/db.c): what it leaves, and what it adds.
use minimoni.Prelude.{
  All, All-append, All-map, All-select, All-select_of_All, Bool-cases, In, In-append_left,
  In-append_right, In-map, In-select, List, [], ap, append-nil, arith, contains, contains_iff,
  false, inl, inr, length, length-append, length-map, length-select, map, not, select, select-All,
  select-append, select-nil, true, ℕ, ◌++◌, ◌∙◌, ◌∷◌, ◌≡◌, ◌≤◌,
}
use minimoni.Db.Tiers.{Row, Tier, apply_tier, bucket_start, distinct, group_row, groups, is_due}

In-distinct : (ks : List ℕ) (k : ℕ) → In k ks → In k (distinct ks)
unfolding distinct
In-distinct [] k m = elim m [ ]
In-distinct (x ∷ ks) k m = elim (Bool-cases (contains x ks)) [
  | inl old ↦ rw old (elim m [
    | inl e ↦ In-distinct ks k (rw e ((contains_iff x ks).0 old))
    | inr i ↦ In-distinct ks k i
  ])
  | inr new ↦ rw new (elim m [ inl e ↦ inl e | inr i ↦ inr (In-distinct ks k i) ])
]

length-distinct : (ks : List ℕ) → length (distinct ks) ≤ length ks
unfolding distinct
length-distinct [] = omega arith
length-distinct (k ∷ ks) = ground (arith, length-distinct ks)

-- A row that a transition leaves as it is.
abbrev pub Kept : {V : Type 0} → ℕ → Tier → List (Row V) → Type 0
Kept now tier table = All (λ r. is_due now tier r ≡ false) table

module _ {V : Type 0} (avg : List V → V) (now : ℕ) where
  -- A consolidated row is not due in any transition up to its own tier.
  groups-not_due :
      (tier : Tier) (bs : ℕ) (rows : List (Row V))
      → tier.bucket_sec ≤ bs
      → Kept now tier (groups avg bs rows)
  unfolding groups is_due
  groups-not_due tier bs rows h =
      All-map (λ r. is_due now tier r ≡ false) (group_row avg bs rows) _ (λ k. ground arith)

  not-true :
      (table : List (Row V)) (tier : Tier)
      → Kept now tier table
      → All (λ r. not (is_due now tier r) ≡ true) table
  not-true [] tier h = tt
  not-true (r ∷ table) tier h = (ap not h.0, not-true table tier h.1)

  false-not :
      (table : List (Row V)) (tier : Tier)
      → All (λ r. not (is_due now tier r) ≡ true) table
      → Kept now tier table
  false-not [] tier h = tt
  false-not (r ∷ table) tier h = (ground (arith, h.0), false-not table tier h.1)

  -- The DELETE spares the rows that the INSERT has just added.
  pub apply_tier-eq :
      (tier : Tier) (table : List (Row V))
      → apply_tier avg now tier table
        ≡ select (λ r. not (is_due now tier r)) table
          ++ groups avg tier.bucket_sec (select (is_due now tier) table)
  unfolding apply_tier
  apply_tier-eq tier table =
      select-append _ table _
      ∙ ap (λ new. select (λ r. not (is_due now tier r)) table ++ new)
          (select-All _ _ (not-true _ tier (groups-not_due tier tier.bucket_sec _ (omega arith))))

  -- After a transition no row is due in it.
  pub apply_tier-Kept :
      (tier : Tier) (table : List (Row V)) → Kept now tier (apply_tier avg now tier table)
  apply_tier-Kept tier table = false-not _ tier (
      rw apply_tier-eq (
        All-append _ _ _ (All-select _ table)
          (not-true _ tier (groups-not_due tier tier.bucket_sec _ (omega arith)))))

  -- A later transition, to a larger bucket, makes no row due again.
  pub Kept-apply_tier :
      (small large : Tier) (table : List (Row V))
      → small.bucket_sec ≤ large.bucket_sec
      → Kept now small table
      → Kept now small (apply_tier avg now large table)
  Kept-apply_tier small large table h kept = rw apply_tier-eq (
      All-append (λ r. is_due now small r ≡ false) _ _ (All-select_of_All _ _ table kept)
        (groups-not_due small large.bucket_sec _ h))

  -- A transition in which no row is due changes nothing.
  pub apply_tier_of_Kept :
      (tier : Tier) (table : List (Row V))
      → Kept now tier table
      → apply_tier avg now tier table ≡ table
  unfolding groups distinct
  apply_tier_of_Kept tier table kept =
      rw
        (
          apply_tier-eq,
          select-nil (is_due now tier) table kept,
          select-All (λ r. not (is_due now tier r)) table (not-true table tier kept),
        )
        (append-nil table)

  length-groups : (bs : ℕ) (rows : List (Row V)) → length (groups avg bs rows) ≤ length rows
  unfolding groups
  length-groups bs rows = omega (
    arith,
    length-map (distinct (map (λ r. bucket_start bs r.ts) rows)) (group_row avg bs rows),
    length-distinct (map (λ r. bucket_start bs r.ts) rows),
    length-map rows (λ r. bucket_start bs r.ts),
  )

  pub length-apply_tier :
      (tier : Tier) (table : List (Row V)) → length (apply_tier avg now tier table) ≤ length table
  length-apply_tier tier table =
      rw (apply_tier-eq, length-append)
        (omega (
          arith,
          length-groups tier.bucket_sec (select (is_due now tier) table),
          length-select (is_due now tier) table,
        ))

  -- A due row has its bucket's row in the result.
  In-groups :
      (bs : ℕ) (rows : List (Row V)) (r : Row V)
      → In r rows
      → In (group_row avg bs rows (bucket_start bs r.ts)) (groups avg bs rows)
  unfolding groups
  In-groups bs rows r m =
      In-map (group_row avg bs rows) _ _
        (In-distinct _ _ (In-map (λ r. bucket_start bs r.ts) rows r m))

  pub In-apply_tier :
      (tier : Tier) (table : List (Row V)) (r : Row V)
      → In r table
      → is_due now tier r ≡ false
      → In r (apply_tier avg now tier table)
  In-apply_tier tier table r m young =
      rw apply_tier-eq (In-append_left _ _ r (In-select _ table m (ap not young)))

  pub In-apply_tier_group :
      (tier : Tier) (table : List (Row V)) (r : Row V)
      → In r table
      → is_due now tier r ≡ true
      → In
          (group_row avg tier.bucket_sec
            (select (is_due now tier) table)
            (bucket_start tier.bucket_sec r.ts))
          (apply_tier avg now tier table)
  In-apply_tier_group tier table r m due =
      rw apply_tier-eq
        (In-append_right _ _ _ (In-groups tier.bucket_sec _ r (In-select _ table m due)))
