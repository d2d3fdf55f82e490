-- ===== src/Metrics/Temp/Zone.antt =====
-- The zone that collect_temp of src/metrics.c reads.
use minimoni.Prelude.{
  ==_iff, Bool-cases, Bytes, Option, Option-cases, ap, arith, codes, if-holds, if◌then◌else◌, inl,
  inr, ltb, none, refl, some, str_eq, subst, suc, sym, zero, ℕ, ◌+◌, ◌<◌, ◌==◌, ◌∙◌, ◌≡◌, ◌≢◌, ◌≤◌,
  ◌⊎◌,
}
use minimoni.Metrics.Read.{fgets}
use minimoni.Metrics.Temp.{Best, best_of, best_zone, cut_line, prefer, prefer_type, preferred}

-- The place of a type among the preferred ones, and 4 for any other.
abbrev pub place : Bytes → ℕ
place type =
    if str_eq type (codes "x86_pkg_temp")
    then 0
    else if str_eq type (codes "cpu-thermal")
    then 1
    else if str_eq type (codes "soc_thermal")
    then 2
    else 4

abbrev pub place_of : Option Bytes → ℕ
place_of none = 4
place_of (some line) = place (cut_line line)

abbrev pub rank_of : Option Bytes → ℕ
rank_of none = 4
rank_of (some file) = place_of (fgets 32 file)

module _ (zone_type : ℕ → Option Bytes) where
  abbrev pub rank : ℕ → ℕ
  rank z = rank_of (zone_type z)

  -- Of the n zones the first of the best rank, or zone 0 if no type is a preferred one.
  abbrev pub IsBestOf : ℕ → Best → Type 0
  IsBestOf n b =
      ((y : ℕ) → y < n → b.pri ≤ rank y)
      × (((b.zone < n) × (rank b.zone ≡ b.pri) × ((y : ℕ) → y < b.zone → b.pri < rank y))
          ⊎ ((b.zone ≡ 0) × (b.pri ≡ 4)))

  -- The zones up to the first that is missing, 32 at most.
  abbrev pub AreZones : ℕ → ℕ → ℕ → Type 0
  AreZones z left n =
      (z ≤ n)
      × (n ≤ z + left)
      × ((y : ℕ) → z ≤ y → y < n → zone_type y ≢ none)
      × ((n ≡ z + left) ⊎ (zone_type n ≡ none))

abbrev take_better : ℕ → ℕ → Best → Best
take_better r z b = if ltb r b.pri then record { zone = z; pri = r } else b

prefer-place :
    (type : Bytes) (z : ℕ) (b : Best)
    → b.pri ≤ 4
    → prefer preferred 0 type z b ≡ take_better (place type) z b
unfolding prefer
prefer-place type z b h = ground arith

prefer_type-rank :
    (file : Bytes) (z : ℕ) (b : Best)
    → b.pri ≤ 4
    → prefer_type (fgets 32 file) z b ≡ take_better (rank_of (some file)) z b
prefer_type-rank file z b h = of_line (fgets 32 file)
  where
    of_line : (o : Option Bytes) → prefer_type o z b ≡ take_better (place_of o) z b
    of_line none = ground arith
    of_line (some line) = prefer-place (cut_line line) z b h

module _ (zone_type : ℕ → Option Bytes) where
  below_suc : (y z : ℕ) → y < z + 1 → (y < z) ⊎ (y ≡ z)
  below_suc y z h = ground arith

  take_better-IsBestOf :
      (z : ℕ) (b : Best)
      → b.pri ≤ 4
      → IsBestOf zone_type z b
      → IsBestOf zone_type (z + 1) (take_better (rank zone_type z) z b)
  take_better-IsBestOf z b h (low, kept) =
      if-holds (IsBestOf zone_type (z + 1)) (ltb (rank zone_type z) b.pri)
        (record { zone = z; pri = rank zone_type z }) b
        (λ better. (
          λ y below. elim (below_suc y z below) [
            | inl earlier ↦ let old = low y earlier in ground arith
            | inr same ↦ rw same (omega arith)
          ],
          inl (omega arith, refl, λ y below. let old = low y below in ground arith),
        ))
        (λ worse. (
          λ y below. elim (below_suc y z below) [
            | inl earlier ↦ low y earlier
            | inr same ↦ rw same (ground arith)
          ],
          elim kept [
            | inl (at, best, ahead) ↦ inl (omega arith, best, ahead)
            | inr start ↦ inr start
          ],
        ))

  take_better-low : (z : ℕ) (b : Best) → b.pri ≤ 4 → (take_better (rank zone_type z) z b).pri ≤ 4
  take_better-low z b h = ground arith

  AreZones-next :
      (z left n : ℕ)
      → zone_type z ≢ none
      → AreZones zone_type (z + 1) left n
      → AreZones zone_type z (suc left) n
  AreZones-next z left n there (from, to, all, end) = (
    omega arith,
    omega arith,
    λ y a c. elim (Bool-cases (y == z)) [
      | inl same ↦ subst (λ x. zone_type x ≢ none) (sym ((==_iff y z).0 same)) there
      | inr other ↦ all y (ground arith) c
    ],
    elim end [ inl e ↦ inl (omega arith) | inr e ↦ inr e ],
  )

  best_of-IsBestOf :
      (left z : ℕ) (b : Best)
      → b.pri ≤ 4
      → IsBestOf zone_type z b
      → (n : ℕ) × AreZones zone_type z left n × IsBestOf zone_type n (best_of zone_type left z b)
  unfolding best_of
  best_of-IsBestOf zero z b h best =
      (z, (omega arith, omega arith, λ y a c. absurd (omega arith), inl (omega arith)), best)
  best_of-IsBestOf (suc left) z b h best = elim (Option-cases (zone_type z)) [
    | inl e ↦
        rw (best_of, e) (z, (omega arith, omega arith, λ y a c. absurd (omega arith), inr e), best)
    | inr (file, e) ↦
        let step : prefer_type (fgets 32 file) z b ≡ take_better (rank zone_type z) z b =
          prefer_type-rank file z b h ∙ ap (λ o. take_better (rank_of o) z b) (sym e) in
        let (n, zones, found) =
          best_of-IsBestOf left (z + 1) (take_better (rank zone_type z) z b) (take_better-low z b h)
            (take_better-IsBestOf z b h best) in
        rw (best_of, e, step) (n, AreZones-next z left n (λ q. ground (arith, e, q)) zones, found)
  ]

  -- The zone whose temperature is read is, of the zones up to the first that is missing and 32 at
  -- most, the first whose type stands earliest among the preferred ones, or zone 0 if there is none.
  pub best_zone-IsBestOf :
      (n : ℕ) × (r : ℕ) × AreZones zone_type 0 32 n
      × IsBestOf zone_type n (record { zone = best_zone zone_type; pri = r })
  unfolding best_zone
  best_zone-IsBestOf =
      let (n, zones, found) =
        best_of-IsBestOf 32 0 (record { zone = 0; pri = 4 }) (omega arith)
          (λ y h. absurd (omega arith), inr (refl, refl)) in
      (n, (best_of zone_type 32 0 (record { zone = 0; pri = 4 })).pri, zones, found)
