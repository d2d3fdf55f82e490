-- ===== src/Serve/Retention.antt =====
-- The retention period of src/main.c and the ranges of the dashboard.
use minimoni.Prelude.{
  Bytes, In, List, [], ap, arith, inl, inr, negsuc, pos, some, subst, sym, true, ℕ, ℤ, ◌*◌, ◌<◌,
  ◌∙◌, ◌∷◌, ◌≡◌, ◌≤◌,
}
use minimoni.Config.Duration.{parse_duration, range_in_bounds, range_to_days, valid_range}
use minimoni.Config.Duration.Bounds.{parse_duration_bounds}
use minimoni.Config.Duration.Days.{range_to_days-Rounds}
use minimoni.Serve.{keep_max, longest, or_default, retention_days}

keep_max-above : (max : ℕ) (z : ℤ) → max ≤ keep_max max z
keep_max-above max (pos d) = ground arith
keep_max-above max (negsuc d) = omega arith

keep_max-taken : (max n : ℕ) (z : ℤ) → z ≡ pos n → n ≤ keep_max max z
keep_max-taken max n z e = subst (λ y. n ≤ keep_max max y) (sym e) (taken max n)
  where
    taken : (max n : ℕ) → n ≤ keep_max max (pos n)
    taken max n = ground arith

module _ (long_max : ℕ) where
  longest-above : (ranges : List Bytes) (max : ℕ) → max ≤ longest long_max max ranges
  unfolding longest
  longest-above [] max = omega arith
  longest-above (r ∷ ranges) max =
      let step = keep_max-above max (range_to_days long_max r) in
      let rest = longest-above ranges (keep_max max (range_to_days long_max r)) in omega arith

  longest-In :
      (ranges : List Bytes) (max n : ℕ) (r : Bytes)
      → In r ranges
      → range_to_days long_max r ≡ pos n
      → n ≤ longest long_max max ranges
  unfolding longest
  longest-In [] max n r m e = absurd m
  longest-In (q ∷ ranges) max n r (inl same) e =
      let days : range_to_days long_max q ≡ pos n = ap (range_to_days long_max) (sym same) ∙ e in
      let taken = keep_max-taken max n (range_to_days long_max q) days in
      let rest = longest-above ranges (keep_max max (range_to_days long_max q)) in omega arith
  longest-In (q ∷ ranges) max n r (inr i) e =
      longest-In ranges (keep_max max (range_to_days long_max q)) n r i e

  or_default-above : (n max : ℕ) → n ≤ max → 0 < n → n ≤ or_default long_max max
  or_default-above n max h p = ground arith

  retention-days :
      (ranges : List Bytes) (n : ℕ) (r : Bytes)
      → In r ranges
      → range_to_days long_max r ≡ pos n
      → 0 < n
      → n ≤ retention_days long_max ranges
  unfolding retention_days
  retention-days [] n r m e p = absurd m
  retention-days (q ∷ ranges) n r m e p =
      or_default-above n (longest long_max 0 (q ∷ ranges)) (longest-In (q ∷ ranges) 0 n r m e) p

  -- Every range that config_load keeps is a duration that the retention period covers.
  pub retention_days-covers :
      (ranges : List Bytes) (r : Bytes)
      → In r ranges
      → valid_range long_max r ≡ true
      → range_in_bounds long_max r ≡ true
      → (d : ℕ) × (parse_duration long_max r ≡ some d)
        × (d ≤ retention_days long_max ranges * 86400)
  retention_days-covers ranges r m valid bounded =
      let (d, n, duration, days, above, close) = range_to_days-Rounds long_max r valid bounded in
      let positive = parse_duration_bounds long_max r d duration in
      let kept = retention-days ranges n r m days (omega arith) in (d, duration, omega arith)
