-- ===== src/Metrics/Cpu.antt =====
-- The CPU of src/metrics.c: read_cpu_raw and collect_cpu. The counters are unsigned 64-bit numbers,
-- whose differences and sum wrap.
pub mod Shares
use minimoni.Prelude.{
  Bytes, List, Option, [], codes, drop, false, if◌then◌else◌, none, not, refuse, some, str_eq, take,
  true, ℕ, ◌%◌, ◌+◌, ◌-◌, ◌==◌, ◌>>=◌, ◌^◌, ◌∷◌,
}
use minimoni.Double.{Double}
use minimoni.Db.Snapshot.{Metrics}
use minimoni.Metrics.Read.{fgets, read_many, read_ull}

-- cpu_raw_t
pub record CpuRaw : Type 0 where
  pub user : ℕ
  pub nice : ℕ
  pub system : ℕ
  pub idle : ℕ
  pub iowait : ℕ
  pub irq : ℕ
  pub softirq : ℕ

abbrev to_cpu_raw : List ℕ → Option CpuRaw
to_cpu_raw (a ∷ b ∷ c ∷ e ∷ f ∷ g ∷ h ∷ []) =
    some (record { user = a; nice = b; system = c; idle = e; iowait = f; irq = g; softirq = h })
to_cpu_raw _ = none

unfoldable pub read_cpu_raw : Option Bytes → Option CpuRaw
read_cpu_raw stat = do
  file ← stat
  line ← fgets 256 file
  fields ← refuse (not (str_eq (take 4 line) (codes "cpu "))) (drop 3 line)
  numbers ← read_many read_ull 7 fields
  to_cpu_raw numbers

-- a - b of two unsigned 64-bit numbers
abbrev pub minus_ull : ℕ → ℕ → ℕ
minus_ull a b = (a + (2 ^ 64 - b)) % 2 ^ 64

abbrev pub advance : CpuRaw → CpuRaw → CpuRaw
advance prev cur = record {
  user = minus_ull cur.user prev.user;
  nice = minus_ull cur.nice prev.nice;
  system = minus_ull cur.system prev.system;
  idle = minus_ull cur.idle prev.idle;
  iowait = minus_ull cur.iowait prev.iowait;
  irq = minus_ull cur.irq prev.irq;
  softirq = minus_ull cur.softirq prev.softirq;
}

abbrev pub ticks_user : CpuRaw → ℕ
ticks_user d = (d.user + d.nice) % 2 ^ 64

abbrev pub ticks_system : CpuRaw → ℕ
ticks_system d = (d.system + d.irq + d.softirq) % 2 ^ 64

abbrev pub ticks_idle : CpuRaw → ℕ
ticks_idle d = (d.idle + d.iowait) % 2 ^ 64

abbrev pub ticks_total : CpuRaw → ℕ
ticks_total d = (d.user + d.nice + d.system + d.idle + d.iowait + d.irq + d.softirq) % 2 ^ 64

module _ {D : Type 0} ⦃d : Double D⦄ where
  -- (double)part * 100.0 / (double)total
  abbrev pub percent : ℕ → ℕ → D
  percent part total = d.over (d.times (d.literal part 0) (d.literal 100 0)) (d.literal total 0)

  abbrev pub set_cpu : CpuRaw → Metrics D → Metrics D
  set_cpu ticks m = if ticks_total ticks == 0 then record m { cpu_valid = false } else record m {
    cpu_user_percent = percent (ticks_user ticks) (ticks_total ticks);
    cpu_system_percent = percent (ticks_system ticks) (ticks_total ticks);
    cpu_idle_percent = percent (ticks_idle ticks) (ticks_total ticks);
    cpu_valid = true;
  }

  -- `s_prev_cpu` is the snapshot, `none` while s_prev_cpu_valid is 0.
  unfoldable pub collect_cpu : Option CpuRaw → Option CpuRaw → Metrics D → Option CpuRaw × Metrics D
  collect_cpu s_prev_cpu none m = (s_prev_cpu, record m { cpu_valid = false })
  collect_cpu none (some cur) m = (some cur, record m { cpu_valid = false })
  collect_cpu (some prev) (some cur) m = (some cur, set_cpu (advance prev cur) m)
