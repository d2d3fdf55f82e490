-- ===== src/Config/Settings.antt =====
-- config_t of src/config.h, one record for each of its sections, and config_defaults and config_has
-- of src/config.c. The `charts` and `cards` hold the names up to their count; a count of -1, the
-- explicit empty list, is `hide_all`, and 0 is `show_all`. The arrays' bytes behind a NUL are not
-- kept.
use minimoni.Prelude.{
  Bool, Bool-cases, Bytes, In, List, [], arith, codes, false, false≢true, inl, inr, str_eq,
  str_eq_iff, true, ℕ, ◌||◌, ◌↔◌, ◌∷◌, ◌≡◌,
}
use minimoni.Double.{Double}

pub record AlertCfg (D : Type 0) : Type 0 where
  pub name : Bytes
  pub metric : Bytes
  pub op : Bytes
  pub threshold : D
  pub webhook : Bytes
  pub command : Bytes
  pub cooldown_seconds : ℕ

pub record ServerCfg : Type 0 where
  pub listen : Bytes
  pub max_dashboards : ℕ
  pub sse_keepalive_seconds : ℕ

pub record CollectCfg : Type 0 where
  pub interval_seconds : ℕ
  pub db_path : Bytes
  pub disk_path : Bytes

pub record WebhookCfg : Type 0 where
  pub insecure_skip_verify : Bool
  pub ca_file : Bytes

pub data Listing : Type 0 where
  show_all hide_all : Listing
  only : List Bytes → Listing

pub record UnitCfg : Type 0 where
  pub memory_card_unit : Bytes
  pub memory_chart_unit : Bytes
  pub swap_card_unit : Bytes
  pub swap_chart_unit : Bytes
  pub swap_io_card_unit : Bytes
  pub swap_io_chart_unit : Bytes
  pub disk_card_unit : Bytes
  pub disk_chart_unit : Bytes
  pub temp_card_unit : Bytes
  pub temp_chart_unit : Bytes
  pub cpu_load_card_unit : Bytes
  pub cpu_load_chart_unit : Bytes
  pub net_card_unit : Bytes
  pub net_chart_unit : Bytes
  pub uptime_unit : Bytes

pub record DashboardCfg (D : Type 0) : Type 0 where
  pub title : Bytes
  pub theme : Bytes
  pub show_footer : Bool
  pub refresh_seconds : ℕ
  pub units : UnitCfg
  pub temp_critical_fallback : D
  pub net_max_speed : ℕ
  pub charts : Listing
  pub cards : Listing
  pub ranges : List Bytes

pub record Config (D : Type 0) : Type 0 where
  pub server : ServerCfg
  pub collect : CollectCfg
  pub webhooks : WebhookCfg
  pub dashboard : DashboardCfg D
  pub alerts : List (AlertCfg D)

abbrev pub default_units : UnitCfg
default_units = record {
  memory_card_unit = codes "%";
  memory_chart_unit = codes "auto";
  swap_card_unit = codes "%";
  swap_chart_unit = codes "auto";
  swap_io_card_unit = codes "bytes";
  swap_io_chart_unit = codes "bytes";
  disk_card_unit = codes "%";
  disk_chart_unit = codes "auto";
  temp_card_unit = codes "c";
  temp_chart_unit = codes "c";
  cpu_load_card_unit = codes "abs";
  cpu_load_chart_unit = codes "abs";
  net_card_unit = codes "bytes";
  net_chart_unit = codes "bytes";
  uptime_unit = codes "auto";
}

module _ {D : Type 0} ⦃d : Double D⦄ where
  abbrev pub config_defaults : Config D
  config_defaults = record {
    server = record {
      listen = codes "0.0.0.0:8080";
      max_dashboards = 4;
      sse_keepalive_seconds = 1;
    };
    collect = record {
      interval_seconds = 60;
      db_path = codes "./metrics.db";
      disk_path = codes "/";
    };
    webhooks = record { insecure_skip_verify = false; ca_file = [] };
    dashboard = record {
      title = codes "minimoni";
      theme = codes "auto";
      show_footer = true;
      refresh_seconds = 30;
      units = default_units;
      temp_critical_fallback = d.literal 85 0;
      net_max_speed = 0;
      charts = show_all;
      cards = show_all;
      ranges = codes "1d" ∷ codes "7d" ∷ codes "30d" ∷ codes "90d" ∷ [];
    };
    alerts = [];
  }

-- in_list: a strcmp with each name
unfoldable pub in_list : Bytes → List Bytes → Bool
in_list name [] = false
in_list name (n ∷ names) = str_eq name n || in_list name names

unfoldable pub config_has : Listing → Bytes → Bool
config_has show_all name = true
config_has hide_all name = false
config_has (only names) name = in_list name names

pub in_list_iff : (name : Bytes) (names : List Bytes) → (in_list name names ≡ true) ↔ In name names
unfolding in_list
in_list_iff name [] = (λ h. absurd (false≢true h), λ h. absurd h)
in_list_iff name (n ∷ names) =
    let (sound, complete) = in_list_iff name names in
    let (same, eq) = str_eq_iff name n in
    (
      λ h. elim (Bool-cases (str_eq name n)) [
        | inl e ↦ inl (same e)
        | inr e ↦ inr (sound (ground arith))
      ],
      λ m. elim m [ inl e ↦ ground (arith, eq e) | inr i ↦ ground (arith, complete i) ],
    )
