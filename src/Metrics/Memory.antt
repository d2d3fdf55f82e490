-- ===== src/Metrics/Memory.antt =====
-- read_meminfo of src/metrics.c. The message that MemFree stands in is not modelled.
pub mod Last
use minimoni.Prelude.{
  Bytes, List, Option, [], codes, false, if◌then◌else◌, ltb, none, some, str_eq, true, ℕ, ◌-◌, ◌==◌,
  ◌^◌, ◌||◌, ◌∷◌,
}
use minimoni.Double.{Double}
use minimoni.Db.Snapshot.{Metrics}
use minimoni.Metrics.Read.{fgets_all, split_key_value}

pub record MemInfo : Type 0 where
  pub mem_total_kb : ℕ
  pub mem_free_kb : ℕ
  pub mem_available_kb : ℕ
  pub swap_total_kb : ℕ
  pub swap_free_kb : ℕ

-- ULLONG_MAX
abbrev pub ullong_max : ℕ
ullong_max = 2 ^ 64 - 1

abbrev pub no_info : MemInfo
no_info = record {
  mem_total_kb = 0;
  mem_free_kb = 0;
  mem_available_kb = ullong_max;
  swap_total_kb = 0;
  swap_free_kb = 0;
}

unfoldable pub note_key : Bytes → ℕ → MemInfo → MemInfo
note_key key val i =
    if str_eq key (codes "MemTotal:")
    then record i { mem_total_kb = val }
    else if str_eq key (codes "MemFree:")
    then record i { mem_free_kb = val }
    else if str_eq key (codes "MemAvailable:")
    then record i { mem_available_kb = val }
    else if str_eq key (codes "SwapTotal:")
    then record i { swap_total_kb = val }
    else if str_eq key (codes "SwapFree:")
    then record i { swap_free_kb = val }
    else i

abbrev pub note_pair : Option (Bytes × ℕ) → MemInfo → MemInfo
note_pair none i = i
note_pair (some (key, val)) i = note_key key val i

-- The loop over the lines.
unfoldable pub scan_meminfo : List Bytes → MemInfo → MemInfo
scan_meminfo [] i = i
scan_meminfo (line ∷ lines) i = scan_meminfo lines (note_pair (split_key_value line 64) i)

-- MemFree stands in.
abbrev pub available_kb : MemInfo → ℕ
available_kb i =
    if i.mem_available_kb == ullong_max || ltb i.mem_total_kb i.mem_available_kb
    then i.mem_free_kb
    else i.mem_available_kb

module _ {D : Type 0} ⦃d : Double D⦄ where
  -- (double)kb / 1024.0
  abbrev pub in_mb : ℕ → D
  in_mb kb = d.over (d.literal kb 0) (d.literal 1024 0)

  abbrev pub set_swap : MemInfo → Metrics D → Metrics D
  set_swap i m =
      if ltb 0 i.swap_total_kb
      then record m {
        swap_valid = true;
        swap_total_mb = in_mb i.swap_total_kb;
        swap_free_mb = in_mb i.swap_free_kb;
      }
      else record m { swap_valid = false }

  abbrev pub set_memory : MemInfo → Metrics D → Metrics D
  set_memory i m =
      set_swap i (record m {
        mem_total_mb = in_mb i.mem_total_kb;
        mem_available_mb = in_mb (available_kb i);
      })

  unfoldable pub read_meminfo : Bytes → Metrics D → Option (Metrics D)
  read_meminfo file m =
      let i = scan_meminfo (fgets_all 128 file) no_info in
      if i.mem_total_kb == 0 then none else some (set_memory i m)

  unfoldable pub collect_meminfo : Option Bytes → Metrics D → Option (Metrics D)
  collect_meminfo none m = none
  collect_meminfo (some file) m = read_meminfo file m
