-- ===== src/Serve.antt =====
-- src/main.c: retention_days, from which db_prune's cutoff follows. `ranges` are the configured ones,
-- and `long_max` is LONG_MAX.
pub mod Retention
pub mod Cycle
pub mod Main
use minimoni.Prelude.{Bytes, List, [], if◌then◌else◌, ltb, negsuc, pos, ℕ, ℤ, ◌∷◌}
use minimoni.Config.Duration.{range_to_days}

-- if (d > max) max = d;
abbrev pub keep_max : ℕ → ℤ → ℕ
keep_max max (pos d) = if ltb max d then d else max
keep_max max (negsuc d) = max

module _ (long_max : ℕ) where
  -- The loop.
  pub longest : ℕ → List Bytes → ℕ
  longest max [] = max
  longest max (r ∷ ranges) = longest (keep_max max (range_to_days long_max r)) ranges

  abbrev pub or_default : ℕ → ℕ
  or_default max = if ltb 0 max then max else 90

  unfoldable pub retention_days : List Bytes → ℕ
  retention_days [] = 90
  retention_days (r ∷ ranges) = or_default (longest 0 (r ∷ ranges))
