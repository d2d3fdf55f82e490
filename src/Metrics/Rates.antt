-- ===== src/Metrics/Rates.antt =====
-- Rates from cumulative counters in src/metrics.c: counter_rates, collect_net's and sample_swap_io's
-- snapshots, and read_vmstat_swap. A signed difference that leaves its type is undefined in C; here
-- it is the integer.
pub mod Adjacent
use minimoni.Prelude.{
  Bool, Bytes, List, Option, [], codes, false, if◌then◌else◌, is_negative, minus_ℤ, negsuc, none,
  pos, refuse, some, str_eq, sub_ℕ, times_ℕ, to_int64, true, ℕ, ℤ, ◌+◌, ◌>>=◌, ◌||◌, ◌∷◌,
}
use minimoni.Double.{Double, nought}
use minimoni.Db.Snapshot.{Metrics}
use minimoni.Metrics.Read.{fgets_all, split_key_value}

-- struct timespec
pub record Timespec : Type 0 where
  pub tv_sec : ℕ
  pub tv_nsec : ℕ

-- counters_t: `inward` and `outward` for its in and out
pub record Counters : Type 0 where
  pub inward : ℤ
  pub outward : ℤ
  pub t : Timespec

module _ {D : Type 0} ⦃d : Double D⦄ where
  -- (double)z
  abbrev pub of_ℤ : ℤ → D
  of_ℤ (pos n) = d.literal n 0
  of_ℤ (negsuc n) = d.minus nought (d.literal (n + 1) 0)

  abbrev pub elapsed : Timespec → Timespec → D
  elapsed prev cur =
      d.plus (of_ℤ (sub_ℕ cur.tv_sec prev.tv_sec))
        (d.over (of_ℤ (sub_ℕ cur.tv_nsec prev.tv_nsec)) (d.literal 1000000000 0))

  abbrev pub is_gap : D → Counters → Counters → Bool
  is_gap dt prev cur =
      d.le dt nought
      || is_negative (minus_ℤ cur.inward prev.inward)
      || is_negative (minus_ℤ cur.outward prev.outward)

  -- *in_bps and *out_bps; `none` for a gap
  unfoldable pub counter_rates : Counters → Counters → Option (D × D)
  counter_rates prev cur = refuse (is_gap (elapsed prev.t cur.t) prev cur) (
    d.over (of_ℤ (minus_ℤ cur.inward prev.inward)) (elapsed prev.t cur.t),
    d.over (of_ℤ (minus_ℤ cur.outward prev.outward)) (elapsed prev.t cur.t),
  )

  abbrev pub set_net : Option (D × D) → Metrics D → Metrics D
  set_net none m = record m { net_valid = false }
  set_net (some (rx, tx)) m = record m { net_valid = true; net_rx_bps = rx; net_tx_bps = tx }

  abbrev pub set_swap_io : Option (D × D) → Metrics D → Metrics D
  set_swap_io none m = record m { swap_io_valid = false }
  set_swap_io (some (i, o)) m = record m { swap_io_valid = true; swap_in_bps = i; swap_out_bps = o }

  -- The argument before m is what read_net_raw found, and the snapshot before it is s_prev_net.
  unfoldable pub collect_net :
      Option Counters → Option Counters → Metrics D → Option Counters × Metrics D
  collect_net prev none m = (prev, record m { net_valid = false })
  collect_net none (some cur) m = (some cur, record m { net_valid = false })
  collect_net (some prev) (some cur) m = (some cur, set_net (counter_rates prev cur) m)

-- in_pages and out_pages, and which were found
pub record Pages : Type 0 where
  pub in_pages : Option ℤ
  pub out_pages : Option ℤ

unfoldable pub note_pages : Option (Bytes × ℕ) → Pages → Pages
note_pages none p = p
note_pages (some (key, val)) p =
    if str_eq key (codes "pswpin")
    then record p { in_pages = some (to_int64 val) }
    else if str_eq key (codes "pswpout")
    then record p { out_pages = some (to_int64 val) }
    else p

unfoldable pub scan_vmstat : List Bytes → Pages → Pages
scan_vmstat [] p = p
scan_vmstat (line ∷ lines) p = scan_vmstat lines (note_pages (split_key_value line 64) p)

-- found == 3
abbrev pub both : Pages → Option (ℤ × ℤ)
both p = do i ← p.in_pages; o ← p.out_pages; some (i, o)

unfoldable pub read_vmstat_swap : Bytes → Option (ℤ × ℤ)
read_vmstat_swap file =
    both (scan_vmstat (fgets_all 128 file) (record { in_pages = none; out_pages = none }))

-- The sample's counters: `page` is sysconf(_SC_PAGESIZE).
abbrev pub swap_counters : ℕ → Timespec → Option Bytes → Option Counters
swap_counters page now f = do
  file ← f
  (i, o) ← read_vmstat_swap file
  some (record { inward = times_ℕ i page; outward = times_ℕ o page; t = now })

module _ {D : Type 0} ⦃d : Double D⦄ where
  abbrev pub swap_rates : Option Counters → Bool → Counters → Option (D × D)
  swap_rates none swap_valid cur = none
  swap_rates (some prev) swap_valid cur = if swap_valid then counter_rates prev cur else none

  abbrev pub take_sample :
      Option Counters → Option Counters → Metrics D → Option Counters × Metrics D
  take_sample prev none m = (none, record m { swap_io_valid = false })
  take_sample prev (some cur) m = (some cur, set_swap_io (swap_rates prev m.swap_valid cur) m)

  -- s_prev_swap_io, `none` while s_prev_swap_io_valid is 0, comes first.
  unfoldable pub sample_swap_io :
      Option Counters → ℕ → Option Bytes → Timespec → Metrics D → Option Counters × Metrics D
  sample_swap_io prev page f now m = take_sample prev (swap_counters page now f) m
