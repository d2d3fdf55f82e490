-- ===== src/Metrics/Net.antt =====
-- read_net_raw, parse_link_speed and metrics_link_speed_mbit of src/metrics.c.
use minimoni.Prelude.{
  Bytes, List, Option, [], codes, drop, get_elem?, if◌then◌else◌, leb, length, ltb, negsuc, none,
  plus_ℤ, pos, refuse, some, str_eq, take, ℕ, ℤ, ◌&&◌, ◌+◌, ◌==◌, ◌>>=◌, ◌||◌, ◌∷◌,
}
use minimoni.Strtol.{strtol}
use minimoni.Metrics.Read.{fgets, fgets_all, read_ll, read_many}
use minimoni.Metrics.Rates.{Counters, Timespec}

-- What stands before and behind the first byte `c`: strchr.
unfoldable pub cut_at : ℕ → Bytes → Option (Bytes × Bytes)
cut_at c [] = none
cut_at c (x ∷ xs) =
    let rest = cut_at c xs in
    if x == c then some ([], xs) else do (before, behind) ← rest; some (x ∷ before, behind)

unfoldable pub skip_blanks : Bytes → Bytes
skip_blanks [] = []
skip_blanks (c ∷ cs) = if c == b' ' then skip_blanks cs else c ∷ cs

-- The bytes received and sent that a line counts, if it does: an interface other than lo with nine
-- columns.
unfoldable pub net_line : Bytes → Option (ℤ × ℤ)
net_line line = do
  (before, behind) ← cut_at b':' line
  name ←
      refuse
        (length (skip_blanks before) == 0
          || leb 64 (length (skip_blanks before))
          || str_eq (skip_blanks before) (codes "lo"))
        (skip_blanks before)
  cols ← read_many read_ll 9 behind
  rx ← get_elem? cols 0
  tx ← get_elem? cols 8
  some (rx, tx)

abbrev pub add_line : Option (ℤ × ℤ) → ℤ × ℤ → ℤ × ℤ
add_line none sum = sum
add_line (some (rx, tx)) sum = (plus_ℤ sum.0 rx, plus_ℤ sum.1 tx)

unfoldable pub sum_lines : List Bytes → ℤ × ℤ → ℤ × ℤ
sum_lines [] sum = sum
sum_lines (line ∷ lines) sum = sum_lines lines (add_line (net_line line) sum)

-- Behind the two header lines.
unfoldable pub read_net_raw : Timespec → Option Bytes → Option Counters
read_net_raw now none = none
read_net_raw now (some file) =
    let lines = fgets_all 256 file in
    refuse (ltb (length lines) 2) (record {
      inward = (sum_lines (drop 2 lines) (pos 0, pos 0)).0;
      outward = (sum_lines (drop 2 lines) (pos 0, pos 0)).1;
      t = now;
    })

-- v > 0 && v <= 1000000 ? (int)v : 0
abbrev pub speed_of : ℤ → ℕ
speed_of (pos n) = if ltb 0 n && leb n 1000000 then n else 0
speed_of (negsuc n) = 0

module _ (long_max : ℕ) where
  unfoldable pub parse_link_speed : Bytes → ℕ
  parse_link_speed s =
      let (v, rest) = strtol long_max s in if length rest == length s then 0 else speed_of v

  abbrev pub link_speed : Bytes → Option Bytes → ℕ
  link_speed name none = 0
  link_speed name (some line) = parse_link_speed line

  -- One entry of /sys/class/net, with its `speed` file.
  abbrev pub entry_speed : Bytes × Option Bytes → ℕ
  entry_speed (name, speed) =
      if str_eq (take 1 name) (codes ".") || str_eq name (codes "lo")
      then 0
      else link_speed name (speed >>= fgets 32)

  unfoldable pub metrics_link_speed_mbit : List (Bytes × Option Bytes) → ℕ
  metrics_link_speed_mbit [] = 0
  metrics_link_speed_mbit (e ∷ entries) = entry_speed e + metrics_link_speed_mbit entries
