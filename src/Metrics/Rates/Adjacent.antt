-- ===== src/Metrics/Rates/Adjacent.antt =====
-- The swap rates of src/metrics.c over successive samples.
use minimoni.Prelude.{Bool, Bytes, Option, ap, if◌then◌else◌, none, refl, some, ℕ, ◌∙◌, ◌≡◌}
use minimoni.Double.{Double}
use minimoni.Db.Snapshot.{Metrics}
use minimoni.Metrics.Rates.{
  Counters, Timespec, counter_rates, sample_swap_io, set_swap_io, swap_counters, take_sample,
}

module _ {D : Type 0} ⦃d : Double D⦄ where
  -- What two samples in a row give, with what stood in /proc/vmstat.
  abbrev pub rates_between : Option Counters → Option Counters → Bool → Option (D × D)
  rates_between none cur swap_valid = none
  rates_between (some prev) none swap_valid = none
  rates_between (some prev) (some cur) swap_valid =
      if swap_valid then counter_rates prev cur else none

  take_sample-snapshot :
      (prev cur : Option Counters) (m : Metrics D) → (take_sample prev cur m).0 ≡ cur
  take_sample-snapshot prev none m = refl
  take_sample-snapshot prev (some cur) m = refl

  take_sample-rates :
      (prev cur : Option Counters) (m : Metrics D)
      → (take_sample prev cur m).1 ≡ set_swap_io (rates_between prev cur m.swap_valid) m
  take_sample-rates none none m = refl
  take_sample-rates (some p) none m = refl
  take_sample-rates none (some c) m = refl
  take_sample-rates (some p) (some c) m = refl

  -- The swap rates of a sample are those between it and the sample just before, whatever came
  -- earlier: with a failed read in either, a gap in the counters or no swap there are none.
  pub sample_swap_io-adjacent :
      (s : Option Counters) (page : ℕ) (f g : Option Bytes) (t u : Timespec) (m n : Metrics D)
      → sample_swap_io (sample_swap_io s page f t m).0 page g u n ≡ (
        swap_counters page u g,
        set_swap_io
            (rates_between (swap_counters page t f) (swap_counters page u g) n.swap_valid)
            n,
      )
  unfolding sample_swap_io
  sample_swap_io-adjacent s page f g t u m n =
      ap (λ p. take_sample p (swap_counters page u g) n)
        (take_sample-snapshot s (swap_counters page t f) m)
      ∙ (λ j. (
        take_sample-snapshot (swap_counters page t f) (swap_counters page u g) n j,
        take_sample-rates (swap_counters page t f) (swap_counters page u g) n j,
      ))
