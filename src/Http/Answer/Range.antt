-- ===== src/Http/Answer/Range.antt =====
-- The range of /api/metrics in src/http.c.
use minimoni.Config.Settings.{in_list, in_list_iff}
use minimoni.Config.Duration.Bounds.{parse_duration_bounds}
use minimoni.Config.Duration.Days.{range_to_days-Rounds}
use minimoni.Prelude.{
  All, All-In, All-mono, Bytes, In, List, [], ap, arith, false≢true, if-holds, if◌then◌else◌, inl,
  is_positive, length, negsuc, pos, pos_part, refl, some, suc, sym, take, true, zero, ℕ, ℤ, ◌<◌,
  ◌==◌, ◌∙◌, ◌∷◌, ◌≡◌, ◌≤◌,
}
use minimoni.Strtol.{strtol}
use minimoni.Config.Duration.{
  duration_of, parse_duration, range_in_bounds, range_of, scaled, valid_range,
}
use minimoni.Http.Answer.{pick_range, range_seconds, unit_seconds}

seconds_or_day : (n : ℤ) (end : Bytes) → ℕ
seconds_or_day n end =
    let rsec = if is_positive n then unit_seconds (pos_part n) end else 0 in
    if rsec == 0 then 86400 else rsec

of_parts :
    (n : ℤ) (end : Bytes) (d : ℕ)
    → range_of n end ≡ true
    → duration_of n end ≡ some d
    → 0 < d
    → seconds_or_day n end ≡ d
unfolding range_of duration_of scaled seconds_or_day
of_parts n [] d r e h = absurd (false≢true r)
of_parts (pos n) (u ∷ []) d r e h = ground arith
of_parts (negsuc n) (u ∷ []) d r e h = absurd (false≢true r)
of_parts n (u ∷ v ∷ rest) d r e h = absurd (false≢true r)

module _ (long_max : ℕ) where
  range_seconds-duration :
      (r : Bytes) (d : ℕ)
      → valid_range long_max r ≡ true
      → parse_duration long_max r ≡ some d
      → range_seconds long_max r ≡ d
  unfolding range_seconds valid_range parse_duration seconds_or_day
  range_seconds-duration r d valid e =
      of_parts (strtol long_max r).0 (strtol long_max r).1 d valid e
        (parse_duration_bounds long_max r d e).0

  take_all : (n : ℕ) (s : Bytes) → length s ≤ n → take n s ≡ s
  take_all zero [] h = refl
  take_all zero (c ∷ s) h = absurd (omega arith)
  take_all (suc n) [] h = refl
  take_all (suc n) (c ∷ s) h = ap (◌∷◌ c) (take_all n s (omega arith))

  pick_range-In :
      (range : Bytes) (ranges : List Bytes) (range_var : Bytes)
      → All (λ r. length r ≤ 15) (range ∷ ranges)
      → In (pick_range (range ∷ ranges) range_var) (range ∷ ranges)
  unfolding pick_range
  pick_range-In range ranges range_var short =
      if-holds (λ r. In r (range ∷ ranges)) (in_list range_var (range ∷ ranges)) _ _
        (λ known. (in_list_iff range_var (range ∷ ranges)).0 known)
        (λ unknown. inl (take_all 15 range short.0))

  -- Whatever a client asks for, /api/metrics answers for a configured range: the one asked for, if
  -- it is one of them, and else the first; and the seconds it covers are that range's duration.
  pub pick_range-configured :
      (range : Bytes) (ranges : List Bytes) (range_var : Bytes)
      → All
          (λ r.
            (length r ≤ 15) × (valid_range long_max r ≡ true) × (range_in_bounds long_max r ≡ true))
          (range ∷ ranges)
      → In (pick_range (range ∷ ranges) range_var) (range ∷ ranges)
        × (parse_duration long_max (pick_range (range ∷ ranges) range_var)
            ≡ some (range_seconds long_max (pick_range (range ∷ ranges) range_var)))
  pick_range-configured range ranges range_var kept =
      let here =
        pick_range-In range ranges range_var
          (All-mono _ (λ r. length r ≤ 15) (range ∷ ranges) (λ r h. h.0) kept) in
      let (short, valid, bounded) = All-In _ (range ∷ ranges) kept here in
      let (d, n, duration, days, low, high) =
        range_to_days-Rounds long_max (pick_range (range ∷ ranges) range_var) valid bounded in
      (here, duration ∙ ap some (sym (range_seconds-duration _ d valid duration)))
