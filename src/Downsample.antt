-- ===== src/Downsample.antt =====
-- src/downsample.c: the bucket that a range query aggregates its rows into.
-- `range_sec`, `interval_sec` and `points` are natural numbers: a `points` of 0 stands for every
-- value up to 0, and `actual_count` is `none` for the negative "unknown". The callers' range and
-- interval are positive.
pub mod Nearest
use minimoni.Prelude.{
  Bool, List, Option, [], false, if◌then◌else◌, leb, ltb, none, some, ℕ, ◌%◌, ◌&&◌, ◌+◌, ◌-◌, ◌/◌,
  ◌==◌, ◌∷◌,
}

-- BUCKETS
abbrev pub buckets : List ℕ
buckets = 60 ∷ 120 ∷ 300 ∷ 600 ∷ 900 ∷ 1800 ∷ 3600 ∷ 7200 ∷ 10800 ∷ 21600 ∷ 43200 ∷ 86400 ∷ []

-- labs(range_sec / b - points)
unfoldable pub diff : ℕ → ℕ → ℕ → ℕ
diff range_sec points b = (range_sec / b - points) + (points - range_sec / b)

-- One round of the loop over BUCKETS. `best` is `none` for -1, when `best_diff` is LONG_MAX, which
-- every difference is below; else `best_diff` is the difference of the best bucket.
unfoldable pub consider : ℕ → ℕ → ℕ → Option ℕ → ℕ → Option ℕ
consider range_sec interval_sec points none b = if b % interval_sec == 0 then some b else none
consider range_sec interval_sec points (some best) b =
    if b % interval_sec == 0 && ltb (diff range_sec points b) (diff range_sec points best)
    then some b
    else some best

unfoldable pub best_bucket : ℕ → ℕ → ℕ → Option ℕ → List ℕ → Option ℕ
best_bucket range_sec interval_sec points best [] = best
best_bucket range_sec interval_sec points best (b ∷ bs) =
    best_bucket range_sec interval_sec points (consider range_sec interval_sec points best b) bs

-- `points <= 0` uses the default.
abbrev pub target_points : ℕ → ℕ
target_points points = if points == 0 then 240 else points

-- actual_count >= 0 && actual_count <= points
abbrev pub enough : Option ℕ → ℕ → Bool
enough none points = false
enough (some n) points = leb n points

-- (best >= 0) ? BUCKETS[best] : interval_sec
abbrev pub or_interval : ℕ → Option ℕ → ℕ
or_interval interval_sec none = interval_sec
or_interval interval_sec (some b) = b

unfoldable pub pick_bucket : ℕ → ℕ → ℕ → Option ℕ → ℕ
pick_bucket range_sec interval_sec points actual_count =
    let target = target_points points in
    if enough actual_count target
    then 0
    else if leb (range_sec / target) interval_sec
    then 0
    else or_interval interval_sec (best_bucket range_sec interval_sec target none buckets)
