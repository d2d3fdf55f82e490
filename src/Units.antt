-- ===== src/Units.antt =====
-- src/units.c: display units. A `unit` is the first byte of the configured text, 0 for the empty
-- text; the callers never pass a NULL one.
use minimoni.Prelude.{
  Bool, Option, if◌then◌else◌, ltb, none, not, some, suc, zero, ℕ, ◌&&◌, ◌+◌, ◌-◌, ◌==◌,
}
use minimoni.Double.{Double, above_nought, nought}
pub mod Ladder

-- Megabits per second are natural numbers: 0 stands for every value up to 0.
abbrev pub net_ref_mbit : ℕ → ℕ → ℕ
net_ref_mbit max_mbit detected_mbit =
    let mbit = if ltb 0 max_mbit then max_mbit else detected_mbit in
    if mbit == 0 then 1000 else mbit

module _ {D : Type 0} ⦃d : Double D⦄ where
  pub net_ref_bps : ℕ → ℕ → D
  net_ref_bps max_mbit detected_mbit =
      d.times (d.literal (net_ref_mbit max_mbit detected_mbit) 0) (d.literal 125000 0)

  pub net_convert : D → ℕ → D → D
  net_convert bps unit ref_bps =
      if unit == b'%'
      then (if above_nought ref_bps then d.over (d.times bps (d.literal 100 0)) ref_bps else nought)
      else bps

  -- max / pow(factor, i) > UNIT_DIGITS_MAX
  pub too_wide : D → D → ℕ → Bool
  too_wide max factor i = d.lt (d.literal 9999 0) (d.over max (d.pow factor i))

  -- The while loop; `left` counts down the rungs above `i`.
  pub climb : D → D → ℕ → ℕ → ℕ
  climb max factor zero i = i
  climb max factor (suc left) i =
      let next = climb max factor left (i + 1) in if too_wide max factor i then next else i

  -- `none` is -1.
  pub unit_step : D → ℕ → D → Option ℕ
  unit_step max steps factor =
      if not (above_nought max) then none else some (climb max factor (steps - 1) 0)

  pub temp_convert : D → ℕ → D → D
  temp_convert celsius unit ref =
      if unit == b'f'
      then d.plus (d.over (d.times celsius (d.literal 9 0)) (d.literal 5 0)) (d.literal 32 0)
      else if unit == b'%'
      then (if above_nought ref then d.over (d.times celsius (d.literal 100 0)) ref else celsius)
      else celsius

  pub load_convert : D → ℕ → ℕ → D
  load_convert load cores unit =
      if unit == b'%' && ltb 0 cores
      then d.over (d.times load (d.literal 100 0)) (d.literal cores 0)
      else load

  pub temp_ref : Bool → D → D → D
  temp_ref crit_valid crit fallback = if crit_valid then crit else fallback
