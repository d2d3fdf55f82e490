-- ===== src/Metrics/Cpu/Shares.antt =====
-- The CPU shares of src/metrics.c against the ticks that really passed.
use minimoni.Prelude.{ap, arith, false, refl, some, true, ℕ, ◌%◌, ◌+◌, ◌<◌, ◌==◌, ◌^◌, ◌∙◌, ◌≡◌}
use minimoni.Double.{Double}
use minimoni.Db.Snapshot.{Metrics}
use minimoni.Metrics.Cpu.{
  CpuRaw, advance, collect_cpu, minus_ull, percent, set_cpu, ticks_idle, ticks_system, ticks_total,
  ticks_user,
}

-- The counters after so many ticks more, each of which wraps at 2^64.
abbrev pub after : CpuRaw → CpuRaw → CpuRaw
after p k = record {
  user = (p.user + k.user) % 2 ^ 64;
  nice = (p.nice + k.nice) % 2 ^ 64;
  system = (p.system + k.system) % 2 ^ 64;
  idle = (p.idle + k.idle) % 2 ^ 64;
  iowait = (p.iowait + k.iowait) % 2 ^ 64;
  irq = (p.irq + k.irq) % 2 ^ 64;
  softirq = (p.softirq + k.softirq) % 2 ^ 64;
}

abbrev pub all_ticks : CpuRaw → ℕ
all_ticks k = k.user + k.nice + k.system + k.idle + k.iowait + k.irq + k.softirq

-- What strtoull gives.
abbrev pub IsUll : CpuRaw → Type 0
IsUll p =
    (p.user < 2 ^ 64)
    × (p.nice < 2 ^ 64)
    × (p.system < 2 ^ 64)
    × (p.idle < 2 ^ 64)
    × (p.iowait < 2 ^ 64)
    × (p.irq < 2 ^ 64)
    × (p.softirq < 2 ^ 64)

minus_ull-after : (p k : ℕ) → p < 2 ^ 64 → k < 2 ^ 64 → minus_ull ((p + k) % 2 ^ 64) p ≡ k
minus_ull-after p k hp hk = omega arith

advance-after : (p k : CpuRaw) → IsUll p → all_ticks k < 2 ^ 64 → advance p (after p k) ≡ k
advance-after p k hp hk =
    rw
      (
        minus_ull-after p.user k.user hp.0 (omega arith),
        minus_ull-after p.nice k.nice hp.1 (omega arith),
        minus_ull-after p.system k.system hp.2 (omega arith),
        minus_ull-after p.idle k.idle hp.3 (omega arith),
        minus_ull-after p.iowait k.iowait hp.4 (omega arith),
        minus_ull-after p.irq k.irq hp.5 (omega arith),
        minus_ull-after p.softirq k.softirq hp.6 (omega arith),
      )
      refl

module _ {D : Type 0} ⦃d : Double D⦄ where
  set_cpu-ticks :
      (k : CpuRaw) (m : Metrics D)
      → 0 < all_ticks k
      → all_ticks k < 2 ^ 64
      → set_cpu k m ≡ record m {
        cpu_user_percent = percent (k.user + k.nice) (all_ticks k);
        cpu_system_percent = percent (k.system + k.irq + k.softirq) (all_ticks k);
        cpu_idle_percent = percent (k.idle + k.iowait) (all_ticks k);
        cpu_valid = true;
      }
  set_cpu-ticks k m some_tick hk =
      let whole : ticks_total k ≡ all_ticks k = omega arith in
      let user : ticks_user k ≡ k.user + k.nice = omega arith in
      let system : ticks_system k ≡ k.system + k.irq + k.softirq = omega arith in
      let idle : ticks_idle k ≡ k.idle + k.iowait = omega arith in
      let ticked : (all_ticks k == 0) ≡ false = ground arith in
      rw (whole, user, system, idle, ticked) refl

  -- Whatever a snapshot holds, after fewer than 2^64 ticks collect_cpu gives each share as the
  -- ticks of that kind out of all of them, also when counters wrapped in between.
  pub collect_cpu-after :
      (p k : CpuRaw) (m : Metrics D)
      → IsUll p
      → 0 < all_ticks k
      → all_ticks k < 2 ^ 64
      → collect_cpu (some p) (some (after p k)) m ≡ (
        some (after p k),
        record m {
          cpu_user_percent = percent (k.user + k.nice) (all_ticks k);
          cpu_system_percent = percent (k.system + k.irq + k.softirq) (all_ticks k);
          cpu_idle_percent = percent (k.idle + k.iowait) (all_ticks k);
          cpu_valid = true;
        },
      )
  unfolding collect_cpu
  collect_cpu-after p k m hp some_tick hk =
      let same = ap (λ t. set_cpu t m) (advance-after p k hp hk) in
      ap (λ x. (some (after p k), x)) (same ∙ set_cpu-ticks k m some_tick hk)
