-- ===== src/Json/Magnitude.antt =====
-- json_serialize_units of src/json.c: the display units of a window, from its largest values.
use minimoni.Prelude.{
  Bool, Bytes, List, Option, [], codes, false, get_or, if◌then◌else◌, none, not, some, sym, true, ℕ,
  ◌&&◌, ◌++◌, ◌+◌, ◌==◌, ◌∷◌,
}
use minimoni.Double.{Double, max2, nought}
use minimoni.Units.{unit_step}
use minimoni.Db.Snapshot.{DbRow}
use minimoni.Config.Settings.{Config}
use minimoni.Json.Buffer.{Jbuf, cut, jbuf_raw, jbuf_sep, quoted}
use minimoni.Json.Serialize.{first, is_percent}

abbrev pub mb_ladder : List Bytes
mb_ladder = codes "MB" ∷ codes "GB" ∷ codes "TB" ∷ []

abbrev pub gb_ladder : List Bytes
gb_ladder = codes "GB" ∷ codes "TB" ∷ codes "PB" ∷ []

abbrev pub bytes_ladder : List Bytes
bytes_ladder = codes "KB/s" ∷ codes "MB/s" ∷ codes "GB/s" ∷ []

abbrev pub bits_ladder : List Bytes
bits_ladder = codes "Kbps" ∷ codes "Mbps" ∷ codes "Gbps" ∷ []

-- The largest values of a window.
pub record Peaks (D : Type 0) : Type 0 where
  pub mem : D
  pub swap : D
  pub swap_io : D
  pub disk : D
  pub net : D

abbrev pub entry_if : Bool → Jbuf → Jbuf → Jbuf
entry_if b j j' = if b then j' else j

abbrev pub is_bits : Bytes → Bool
is_bits (a ∷ b ∷ s) = a == b'b' && b == b'i'
is_bits _ = false

module _ {D : Type 0} ⦃d : Double D⦄ where
  abbrev pub peak_if : Bool → D → D → D → D
  peak_if valid m a b = if valid then max2 m (max2 a b) else m

  -- The loop's body.
  abbrev pub widen : Peaks D → DbRow D → Peaks D
  widen p r = record {
    mem = max2 p.mem (max2 r.mem_used_mb r.mem_available_mb);
    swap = peak_if r.swap_valid p.swap r.swap_used_mb r.swap_free_mb;
    swap_io = peak_if r.swap_io_valid p.swap_io r.swap_in_bps r.swap_out_bps;
    disk = max2 p.disk (max2 r.disk_used_gb r.disk_available_gb);
    net = peak_if r.net_valid p.net r.net_rx_bps r.net_tx_bps;
  }

  pub peaks_from : Peaks D → List (DbRow D) → Peaks D
  peaks_from p [] = p
  peaks_from p (r ∷ rows) = peaks_from (widen p r) rows

  abbrev pub no_peaks : Peaks D
  no_peaks = record { mem = nought; swap = nought; swap_io = nought; disk = nought; net = nought }

  abbrev pub entry_text : Bytes → Bytes → D → D → Bytes
  entry_text key sym mul div =
      quoted key
      ++ (codes ":{\"sym\":"
          ++ (quoted sym
              ++ (codes ",\"mul\":"
                  ++ (d.format_g 6 mul ++ (codes ",\"div\":" ++ (d.format_g 6 div ++ codes "}"))))))

  -- With the rung that unit_step answers, if any.
  pub unit_entry_at : Jbuf → Bytes → List Bytes → D → D → ℕ → Option ℕ → Jbuf
  unit_entry_at j key ladder mul factor base none = j
  unit_entry_at j key ladder mul factor base (some step) =
      let text = entry_text key (get_or ladder step []) mul (d.pow factor (step + base)) in
      jbuf_raw (jbuf_sep j) (cut 96 text)

  pub unit_entry : Jbuf → Bytes → D → List Bytes → ℕ → D → D → ℕ → Jbuf
  unit_entry j key max ladder steps mul factor base =
      unit_entry_at j key ladder mul factor base
        (unit_step (d.over (d.times max mul) (d.pow factor base)) steps factor)

  unfoldable pub json_serialize_units : Jbuf → List (DbRow D) → Config D → Jbuf
  json_serialize_units j rows cfg =
      let u = cfg.dashboard.units in
      let p = peaks_from no_peaks rows in
      let one = d.literal 1 0 in
      let kilo = d.literal 1024 0 in
      let bits = is_bits u.net_chart_unit in
      let j0 = record (jbuf_raw (jbuf_sep j) (codes "\"units\":{")) { comma = false } in
      let j1 =
        entry_if (not (is_percent u.memory_chart_unit)) j0
          (unit_entry j0 (codes "mem") p.mem mb_ladder 3 one kilo 0) in
      let j2 =
        entry_if (not (is_percent u.swap_chart_unit)) j1
          (unit_entry j1 (codes "swap") p.swap mb_ladder 3 one kilo 0) in
      let j3 =
        entry_if (first u.swap_io_chart_unit == b'b') j2
          (unit_entry j2 (codes "swap_io") p.swap_io bytes_ladder 3 one kilo 1) in
      let j4 =
        entry_if (not (is_percent u.disk_chart_unit)) j3
          (unit_entry j3 (codes "disk") p.disk gb_ladder 3 one kilo 0) in
      let j5 = entry_if (not (is_percent u.net_chart_unit)) j4 (
        unit_entry j4 (codes "net") p.net (if bits then bits_ladder else bytes_ladder) 3
          (if bits then d.literal 8 0 else one) (if bits then d.literal 1000 0 else kilo) 1) in
      record (jbuf_raw j5 (codes "}")) { comma = true }
