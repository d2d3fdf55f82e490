-- ===== src/Metrics/Collect.antt =====
-- metrics_collect and metrics_run_note of src/metrics.c, with collect_load, collect_disk and
-- collect_uptime. A failed collection leaves what it wrote before in m; here it gives `none`: its
-- callers drop m, and a later collection writes these fields again.
pub mod Notes
use minimoni.Prelude.{
  Bool, Bytes, List, Option, [], false, if◌then◌else◌, ltb, none, some, true, ℕ, ◌%◌, ◌*◌, ◌++◌,
  ◌+◌, ◌==◌, ◌>>=◌, ◌^◌, ◌∷◌,
}
use minimoni.Double.{Double}
use minimoni.Db.Snapshot.{Metrics}
use minimoni.Metrics.Read.{fgets, read_many}
use minimoni.Metrics.Cpu.{CpuRaw, collect_cpu, read_cpu_raw}
use minimoni.Metrics.Memory.{collect_meminfo}
use minimoni.Metrics.Rates.{Counters, Timespec, collect_net, sample_swap_io}
use minimoni.Metrics.Net.{read_net_raw}
use minimoni.Metrics.Temp.{collect_temp}

-- struct statvfs
pub record Statvfs : Type 0 where
  pub f_frsize : ℕ
  pub f_blocks : ℕ
  pub f_bavail : ℕ

-- What the host answers in one collection.
pub record Host : Type 0 where
  pub loadavg : Option Bytes
  pub meminfo : Option Bytes
  pub disk : Option Statvfs
  pub uptime : Option Bytes
  pub stat : Option Bytes
  pub zone_type : ℕ → Option Bytes
  pub zone_temp : ℕ → Option Bytes
  pub net_time : Timespec
  pub net_dev : Option Bytes
  pub vmstat_time : Timespec
  pub vmstat : Option Bytes

-- The static snapshots.
pub record Sampler : Type 0 where
  pub s_prev_cpu : Option CpuRaw
  pub s_prev_net : Option Counters
  pub s_prev_swap_io : Option Counters

abbrev pub no_snapshots : Sampler
no_snapshots = record { s_prev_cpu = none; s_prev_net = none; s_prev_swap_io = none }

-- strtod is `none` when it reads nothing.
module _ {D : Type 0} ⦃d : Double D⦄ (strtod : Bytes → Option (D × Bytes)) where
  abbrev pub set_load : List D → Metrics D → Option (Metrics D)
  set_load (a ∷ b ∷ c ∷ []) m = some (record m { load_1m = a; load_5m = b; load_15m = c })
  set_load _ m = none

  unfoldable pub collect_load : Option Bytes → Metrics D → Option (Metrics D)
  collect_load loadavg m = do
    file ← loadavg
    line ← fgets 128 file
    loads ← read_many strtod 3 line
    set_load loads m

  unfoldable pub collect_uptime : Option Bytes → Metrics D → Option (Metrics D)
  collect_uptime uptime m = do
    file ← uptime
    line ← fgets 64 file
    (v, rest) ← strtod line
    some (record m { uptime_seconds = v })

module _ {D : Type 0} ⦃d : Double D⦄ where
  -- (double)bytes / (1024.0 * 1024.0 * 1024.0)
  abbrev pub in_gb : ℕ → D
  in_gb bytes = let k = d.literal 1024 0 in d.over (d.literal bytes 0) (d.times (d.times k k) k)

  unfoldable pub collect_disk : Option Statvfs → Metrics D → Option (Metrics D)
  collect_disk disk m = do
    sv ← disk
    some (record m {
      disk_total_gb = in_gb (sv.f_blocks * sv.f_frsize % 2 ^ 64);
      disk_available_gb = in_gb (sv.f_bavail * sv.f_frsize % 2 ^ 64);
    })

module _ {D : Type 0} ⦃d : Double D⦄ (strtod : Bytes → Option (D × Bytes)) (long_max page : ℕ) where
  -- The sources that metrics_collect requires.
  unfoldable pub collect_required : Host → Metrics D → Option (Metrics D)
  collect_required host m = do
    a ← collect_load strtod host.loadavg m
    b ← collect_meminfo host.meminfo a
    c ← collect_disk host.disk b
    collect_uptime strtod host.uptime c

  -- The others.
  unfoldable pub collect_optional : Host → Sampler → Metrics D → Sampler × Metrics D
  collect_optional host s m =
      let (cpu, a) = collect_cpu s.s_prev_cpu (read_cpu_raw host.stat) m in
      let b = collect_temp long_max host.zone_type host.zone_temp a in
      let (net, c) = collect_net s.s_prev_net (read_net_raw host.net_time host.net_dev) b in
      let (swap_io, e) = sample_swap_io s.s_prev_swap_io page host.vmstat host.vmstat_time c in
      (record { s_prev_cpu = cpu; s_prev_net = net; s_prev_swap_io = swap_io }, e)

  -- `none` for the result -1, which leaves the snapshots.
  unfoldable pub metrics_collect : Host → Sampler → Metrics D → Sampler × Option (Metrics D)
  metrics_collect host s m = elim (collect_required host m) [
    | none ↦ (s, none)
    | some a ↦ let (s', b) = collect_optional host s a in (s', some b)
  ]

-- What metrics_run_note prints: that a collection failed, or that it recovered after n.
pub data Note : Type 0 where
  collection_failed : Note
  recovered_after : ℕ → Note

-- metrics_run_t is its field `failed`; `true` stands for a result of 0.
unfoldable pub metrics_run_note : ℕ → Bool → ℕ × List Note
metrics_run_note failed false = (failed + 1, if failed == 0 then collection_failed ∷ [] else [])
metrics_run_note failed true = (0, if ltb 0 failed then recovered_after failed ∷ [] else [])

-- A call for each cycle.
unfoldable pub note_all : ℕ → List Bool → ℕ × List Note
note_all failed [] = (failed, [])
note_all failed (rc ∷ rcs) =
    let (next, now) = metrics_run_note failed rc in
    let (last, later) = note_all next rcs in (last, now ++ later)
