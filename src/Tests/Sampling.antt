-- ===== src/Tests/Sampling.antt =====
-- src/metrics.c: the samples of a host.
use minimoni.Strtol.{take_digits}
use minimoni.Prelude.{
  Bytes, Option, [], arith, codes, false, none, some, str_eq, suc, true, zero, ℕ, ◌+◌, ◌<◌, ◌∷◌,
  ◌≡◌, ◌≤◌, ◌⊎◌,
}
use minimoni.Double.{whole_double}
use minimoni.Metrics.Read.{fgets_all, first_word, number_of, pieces, read_number, split_key_value}
use minimoni.Metrics.Cpu.{CpuRaw, collect_cpu}
use minimoni.Metrics.Cpu.Shares.{after, collect_cpu-after}
use minimoni.Metrics.Memory.{available_kb, read_meminfo}
use minimoni.Metrics.Memory.Last.{last_info, last_of, read_meminfo-last}
use minimoni.Metrics.Rates.{Timespec, sample_swap_io, swap_counters}
use minimoni.Metrics.Rates.Adjacent.{sample_swap_io-adjacent}
use minimoni.Metrics.Temp.{best_zone}
use minimoni.Metrics.Temp.Zone.{AreZones, IsBestOf, best_zone-IsBestOf}
use minimoni.Metrics.Collect.{note_all}
use minimoni.Metrics.Collect.Notes.{Alternates, failures, note_all-Alternates, reported}
use minimoni.Tests.Storage.{sample}

abbrev meminfo : Bytes
meminfo = codes "MemTotal:  8000 kB\nMemFree:  1000 kB\nMemAvailable:  9000 kB\n"

-- More memory is available than there is, so that MemFree stands in.
read_meminfo-last_example :
    (read_meminfo ⦃d = whole_double⦄ meminfo sample
      ≡ some (record sample { mem_total_mb = 7; mem_available_mb = 0 }))
    × ((available_kb (last_info (fgets_all 128 meminfo)) ≤ 8000)
        ⊎ ((available_kb (last_info (fgets_all 128 meminfo)) ≡ 1000) × (8000 < 1000)))
unfolding last_of pieces split_key_value first_word read_number number_of take_digits str_eq
read_meminfo-last_example = read_meminfo-last ⦃d = whole_double⦄ meminfo sample

abbrev before_ticks : CpuRaw
before_ticks = record {
  user = 18446744073709551610;
  nice = 0;
  system = 5;
  idle = 7;
  iowait = 0;
  irq = 0;
  softirq = 0;
}

abbrev ticks : CpuRaw
ticks = record { user = 10; nice = 10; system = 20; idle = 50; iowait = 10; irq = 0; softirq = 0 }

-- The first counter wraps.
collect_cpu-after_example :
    collect_cpu ⦃d = whole_double⦄ (some before_ticks) (some (after before_ticks ticks)) sample ≡ (
      some (after before_ticks ticks),
      record sample {
        cpu_user_percent = 20;
        cpu_system_percent = 20;
        cpu_idle_percent = 60;
        cpu_valid = true;
      },
    )
collect_cpu-after_example =
    collect_cpu-after ⦃d = whole_double⦄ before_ticks ticks sample
      (omega arith, omega arith, omega arith, omega arith, omega arith, omega arith, omega arith)
      (omega arith) (omega arith)

abbrev vmstat : Bytes
vmstat = codes "pswpin 10\npswpout 20\n"

abbrev at_second : ℕ → Timespec
at_second t = record { tv_sec = t; tv_nsec = 0 }

-- The second read fails, so the third has no rate.
sample_swap_io-adjacent_example :
    sample_swap_io ⦃d = whole_double⦄
      (sample_swap_io ⦃d = whole_double⦄ none 4096 none (at_second 1) sample).0
      4096
      (some vmstat)
      (at_second 2)
      sample
    ≡ (swap_counters 4096 (at_second 2) (some vmstat), record sample { swap_io_valid = false })
sample_swap_io-adjacent_example =
    sample_swap_io-adjacent ⦃d = whole_double⦄ none 4096 none (some vmstat) (at_second 1)
      (at_second 2) sample sample

abbrev zone_types : ℕ → Option Bytes
zone_types zero = some (codes "acpitz\n")
zone_types (suc zero) = some (codes "x86_pkg_temp\n")
zone_types (suc (suc z)) = none

best_zone-IsBestOf_example :
    (n : ℕ) × (r : ℕ) × AreZones zone_types 0 32 n
    × IsBestOf zone_types n (record { zone = best_zone zone_types; pri = r })
best_zone-IsBestOf_example = best_zone-IsBestOf zone_types

note_all-Alternates_example :
    Alternates false (note_all 0 (false ∷ false ∷ true ∷ false ∷ [])).1
    × (3
        ≡ reported (note_all 0 (false ∷ false ∷ true ∷ false ∷ [])).1
          + (note_all 0 (false ∷ false ∷ true ∷ false ∷ [])).0)
unfolding failures
note_all-Alternates_example = note_all-Alternates (false ∷ false ∷ true ∷ false ∷ [])
