-- ===== src/Metrics/Temp.antt =====
-- collect_temp of src/metrics.c. `zone_type z` and `zone_temp z` are the files `type` and `temp` of
-- thermal_zone<z>.
pub mod Zone
use minimoni.Prelude.{
  Bytes, List, Option, [], codes, false, if◌then◌else◌, length, ltb, none, some, str_eq, suc, true,
  zero, ℕ, ◌&&◌, ◌+◌, ◌==◌, ◌>>=◌, ◌∷◌,
}
use minimoni.Double.{Double}
use minimoni.Strtol.{strtol}
use minimoni.Db.Snapshot.{Metrics}
use minimoni.Metrics.Read.{fgets}
use minimoni.Metrics.Rates.{of_ℤ}

abbrev pub preferred : List Bytes
preferred = codes "x86_pkg_temp" ∷ codes "cpu-thermal" ∷ codes "soc_thermal" ∷ []

-- best_zone and best_pri
pub record Best : Type 0 where
  pub zone : ℕ
  pub pri : ℕ

-- The loop over PREFERRED, at its index p.
unfoldable pub prefer : List Bytes → ℕ → Bytes → ℕ → Best → Best
prefer [] p type z best = best
prefer (name ∷ names) p type z best =
    prefer names (p + 1) type z
      (if str_eq type name && ltb p best.pri then record { zone = z; pri = p } else best)

-- type[strcspn(type, "\n")] = '\0'
unfoldable pub cut_line : Bytes → Bytes
cut_line [] = []
cut_line (c ∷ cs) = if c == b'\n' then [] else c ∷ cut_line cs

abbrev pub prefer_type : Option Bytes → ℕ → Best → Best
prefer_type none z best = best
prefer_type (some line) z best = prefer preferred 0 (cut_line line) z best

-- The loop over the zones: `left` of the 32 are left.
unfoldable pub best_of : (ℕ → Option Bytes) → ℕ → ℕ → Best → Best
best_of zone_type zero z best = best
best_of zone_type (suc left) z best = elim (zone_type z) [
  | none ↦ best
  | some file ↦ best_of zone_type left (z + 1) (prefer_type (fgets 32 file) z best)
]

unfoldable pub best_zone : (ℕ → Option Bytes) → ℕ
best_zone zone_type = (best_of zone_type 32 0 (record { zone = 0; pri = 4 })).zone

module _ {D : Type 0} ⦃d : Double D⦄ (long_max : ℕ) where
  abbrev pub set_temp : Option Bytes → Metrics D → Metrics D
  set_temp none m = record m { temp_valid = false }
  set_temp (some buf) m =
      let (millidegrees, rest) = strtol long_max buf in
      if length rest == length buf then record m { temp_valid = false } else record m {
        temp_celsius = d.over (of_ℤ millidegrees) (d.literal 1000 0);
        temp_valid = true;
      }

  unfoldable pub collect_temp : (ℕ → Option Bytes) → (ℕ → Option Bytes) → Metrics D → Metrics D
  collect_temp zone_type zone_temp m = set_temp (zone_temp (best_zone zone_type) >>= fgets 32) m
