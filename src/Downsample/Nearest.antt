-- ===== src/Downsample/Nearest.antt =====
-- The bucket that pick_bucket of src/downsample.c chooses.
use minimoni.Prelude.{
  All, All-In, Bool-cases, In, List, Option, [], arith, inl, inr, leb, ltb, none, refl, some, true,
  ℕ, ◌%◌, ◌&&◌, ◌/◌, ◌<◌, ◌==◌, ◌↔◌, ◌∷◌, ◌≡◌, ◌≢◌, ◌≤◌, ◌⊎◌,
}
use minimoni.Downsample.{
  best_bucket, buckets, consider, diff, enough, or_interval, pick_bucket, target_points,
}

-- `b` is the best of the buckets `bs` that the collect interval divides, and of two that are as
-- good the smaller.
pub record IsNearest (range_sec interval_sec points : ℕ) (bs : List ℕ) (b : ℕ) : Type 0 where
  pub listed : In b bs
  pub multiple : b % interval_sec ≡ 0
  pub least :
      (c : ℕ) → In c bs → c % interval_sec ≡ 0 → diff range_sec points b ≤ diff range_sec points c
  pub ties :
      (c : ℕ)
      → In c bs
      → c % interval_sec ≡ 0
      → c < b
      → diff range_sec points b < diff range_sec points c

abbrev Ascending : List ℕ → Type 0
Ascending [] = Unit
Ascending (b ∷ bs) = All (λ c. b < c) bs × Ascending bs

module _ (range_sec interval_sec points : ℕ) where
  abbrev Nearest : List ℕ → ℕ → Type 0
  Nearest = IsNearest range_sec interval_sec points

  abbrev D : ℕ → ℕ
  D = diff range_sec points

  Nearest-take :
      (bs : List ℕ) (b c r : ℕ)
      → c % interval_sec ≡ 0
      → D c < D b
      → Nearest (c ∷ bs) r
      → Nearest (b ∷ c ∷ bs) r
  Nearest-take bs b c r divides closer n = record {
    listed = inr n.listed;
    multiple = n.multiple;
    least = λ x i m. elim i [
      | inl e ↦ rw e (omega (arith, n.least c (inl refl) divides))
      | inr j ↦ n.least x j m
    ];
    ties = λ x i m below. elim i [
      | inl e ↦ rw e (omega (arith, n.least c (inl refl) divides))
      | inr j ↦ n.ties x j m below
    ];
  }

  Nearest-keep :
      (bs : List ℕ) (b c r : ℕ)
      → b % interval_sec ≡ 0
      → (c % interval_sec ≡ 0 → D b ≤ D c)
      → b < c
      → Nearest (b ∷ bs) r
      → Nearest (b ∷ c ∷ bs) r
  Nearest-keep bs b c r divides kept lt n = record {
    listed = elim n.listed [ inl e ↦ inl e | inr j ↦ inr (inr j) ];
    multiple = n.multiple;
    least = λ x i m. elim i [
      | inl e ↦ n.least x (inl e) m
      | inr (inl e) ↦ rw e (omega (arith, n.least b (inl refl) divides, kept (rw e at m)))
      | inr (inr j) ↦ n.least x (inr j) m
    ];
    ties = λ x i m below. elim i [
      | inl e ↦ n.ties x (inl e) m below
      | inr (inl e) ↦ rw e (omega (arith, n.ties b (inl refl) divides, kept (rw e at m)))
      | inr (inr j) ↦ n.ties x (inr j) m below
    ];
  }

  best_from :
      (bs : List ℕ) (b : ℕ)
      → b % interval_sec ≡ 0
      → Ascending (b ∷ bs)
      → (r : ℕ) × (best_bucket range_sec interval_sec points (some b) bs ≡ some r)
        × Nearest (b ∷ bs) r
  unfolding best_bucket consider
  best_from [] b h a = (
    b,
    refl,
    record {
      listed = inl refl;
      multiple = h;
      least = λ x i m. elim i [ inl e ↦ rw e (omega arith) | inr j ↦ absurd j ];
      ties = λ x i m below. elim i [ inl e ↦ absurd (omega (arith, e)) | inr j ↦ absurd j ];
    },
  )
  best_from (c ∷ bs) b h a = elim (Bool-cases (c % interval_sec == 0 && ltb (D c) (D b))) [
    | inl closer ↦
        let divides : c % interval_sec ≡ 0 = ground arith in
        let (r, e, n) = best_from bs c divides a.1 in
        (r, rw closer e, Nearest-take bs b c r divides (ground arith) n)
    | inr kept ↦
        let (r, e, n) = best_from bs b h (a.0.1, a.1.1) in
        (r, rw kept e, Nearest-keep bs b c r h (λ m. ground arith) a.0.0 n)
  ]

  Nearest-skip : (bs : List ℕ) (b r : ℕ) → b % interval_sec ≢ 0 → Nearest bs r → Nearest (b ∷ bs) r
  Nearest-skip bs b r skipped n = record {
    listed = inr n.listed;
    multiple = n.multiple;
    least = λ x i m. elim i [ inl e ↦ absurd (skipped (rw e at m)) | inr j ↦ n.least x j m ];
    ties =
        λ x i m below. elim i [ inl e ↦ absurd (skipped (rw e at m)) | inr j ↦ n.ties x j m below ];
  }

  abbrev NoMultiple : List ℕ → Type 0
  NoMultiple = All (λ b. b % interval_sec ≢ 0)

  abbrev Chosen : List ℕ → Option ℕ → Type 0
  Chosen bs none = NoMultiple bs
  Chosen bs (some r) = Nearest bs r

  Chosen-skip :
      (bs : List ℕ) (b : ℕ) (o : Option ℕ) → b % interval_sec ≢ 0 → Chosen bs o → Chosen (b ∷ bs) o
  Chosen-skip bs b none skipped n = (skipped, n)
  Chosen-skip bs b (some r) skipped n = Nearest-skip bs b r skipped n

  best_bucket-Chosen :
      (bs : List ℕ) → Ascending bs → Chosen bs (best_bucket range_sec interval_sec points none bs)
  unfolding best_bucket consider
  best_bucket-Chosen [] a = tt
  best_bucket-Chosen (b ∷ bs) a = elim (Bool-cases (b % interval_sec == 0)) [
    | inl hit ↦ let (r, e, n) = best_from bs b (ground arith) a in rw (hit, e) n
    | inr miss ↦ rw miss (Chosen-skip bs b _ (ground arith) (best_bucket-Chosen bs a.1))
  ]

buckets-Ascending : Ascending buckets
buckets-Ascending = omega arith

abbrev Answer : ℕ → ℕ → ℕ → ℕ → Type 0
Answer range_sec interval_sec points r =
    IsNearest range_sec interval_sec points buckets r
    ⊎ (All (λ b. b % interval_sec ≢ 0) buckets × (r ≡ interval_sec))

module _ (range_sec interval_sec points : ℕ) where
  Answer-or_interval :
      (o : Option ℕ)
      → Chosen range_sec interval_sec points buckets o
      → Answer range_sec interval_sec points (or_interval interval_sec o)
  Answer-or_interval none n = inr (n, refl)
  Answer-or_interval (some r) n = inl n

  best_Answer :
      Answer range_sec interval_sec points
        (or_interval interval_sec (best_bucket range_sec interval_sec points none buckets))
  best_Answer =
      Answer-or_interval (best_bucket range_sec interval_sec points none buckets)
        (best_bucket-Chosen range_sec interval_sec points buckets buckets-Ascending)

  Answer-pos : (r : ℕ) → 0 < interval_sec → Answer range_sec interval_sec points r → 0 < r
  Answer-pos r h (inl n) = All-In (λ b. 0 < b) buckets (omega arith) n.listed
  Answer-pos r h (inr (none_divides, e)) = omega arith

  best-pos :
      0 < interval_sec
      → 0 < or_interval interval_sec (best_bucket range_sec interval_sec points none buckets)
  best-pos h = Answer-pos _ h best_Answer

-- No aggregation: the row count is known and within the target number of points, or the ideal
-- bucket is not above the collect interval.
abbrev pub IsRaw : ℕ → ℕ → ℕ → Option ℕ → Type 0
IsRaw range_sec interval_sec points count =
    (enough count (target_points points) ≡ true) ⊎ (range_sec / target_points points ≤ interval_sec)

-- For a positive collect interval pick_bucket answers 0, no aggregation, exactly if the row count
-- is known and within the target number of points, or the ideal bucket is not above the interval.
pub pick_bucket-IsRaw_iff :
    (range_sec interval_sec points : ℕ) (count : Option ℕ)
    → 0 < interval_sec
    → (pick_bucket range_sec interval_sec points count ≡ 0)
      ↔ IsRaw range_sec interval_sec points count
unfolding pick_bucket
pick_bucket-IsRaw_iff range_sec interval_sec points count h =
    let positive = best-pos range_sec interval_sec (target_points points) h in
    (ground arith, ground arith)

-- A bucket that pick_bucket answers, not 0, is the one of BUCKETS that the collect interval divides
-- and whose point count is nearest to the target, the smaller of two that are as near; only if the
-- interval divides none of BUCKETS it is the interval itself.
pub pick_bucket-IsNearest :
    (range_sec interval_sec points : ℕ) (count : Option ℕ)
    → pick_bucket range_sec interval_sec points count ≢ 0
    → IsNearest range_sec interval_sec
        (target_points points)
        buckets
        (pick_bucket range_sec interval_sec points count)
      ⊎ (All (λ b. b % interval_sec ≢ 0) buckets
          × (pick_bucket range_sec interval_sec points count ≡ interval_sec))
unfolding pick_bucket
pick_bucket-IsNearest range_sec interval_sec points count h =
    elim (Bool-cases (enough count (target_points points))) [
      | inl few ↦ absurd (h (rw few))
      | inr many ↦ elim (Bool-cases (leb (range_sec / target_points points) interval_sec)) [
        | inl fine ↦ absurd (h (rw (many, fine)))
        | inr coarse ↦ rw (many, coarse) (best_Answer range_sec interval_sec (target_points points))
      ]
    ]
