-- ===== src/Config/Open.antt =====
-- config_open of src/config.c, and the start of config_load: `read path` is what toml_parse_file_ex
-- finds in a file, or `none`, and `readable` is access with R_OK.
use minimoni.Prelude.{
  Bool, Bytes, OnSome, OnSome-if, Option, arith, codes, if◌then◌else◌, none, some, ℕ,
}
use minimoni.Double.{Double}
use minimoni.Config.Settings.{Config, config_defaults}
use minimoni.Config.Datum.{Datum, Files}
use minimoni.Config.Load.{config_load}
use minimoni.Config.Load.Sound.{IsConfig, config_load_sound}

module _ (long_max : ℕ) {D : Type 0} (to_float : D → D) ⦃d : Double D⦄ where
  pub load_parsed : Files → Option (Bytes → Datum D) → Option (Config D)
  load_parsed files none = none
  load_parsed files (some seek) = config_load long_max to_float files seek

  pub config_open :
      Files → (Bytes → Option (Bytes → Datum D)) → (Bytes → Bool) → Option Bytes → Option (Config D)
  config_open files read readable (some explicit_path) = load_parsed files (read explicit_path)
  config_open files read readable none =
      if readable (codes "./config.toml")
      then load_parsed files (read (codes "./config.toml"))
      else if readable (codes "/etc/minimoni/config.toml")
      then load_parsed files (read (codes "/etc/minimoni/config.toml"))
      else some config_defaults

  load_parsed_sound :
      (files : Files) (parsed : Option (Bytes → Datum D))
      → OnSome IsConfig (load_parsed files parsed)
  unfolding load_parsed
  load_parsed_sound files none = tt
  load_parsed_sound files (some seek) = config_load_sound long_max to_float files seek

  defaults-IsConfig : IsConfig (config_defaults {D = D})
  defaults-IsConfig = record {
    dashboards = omega arith;
    interval = omega arith;
    refresh = omega arith;
    ranges_few = omega arith;
    ranges_fit = omega arith;
    alerts_few = omega arith;
    alerts_valid = tt;
  }

  -- Whatever file it is read from, or none, the configuration that config_open answers is one that
  -- the program can run with: it satisfies what config_load ensures.
  config_open-IsConfig :
      (files : Files) (read : Bytes → Option (Bytes → Datum D)) (readable : Bytes → Bool)
      (explicit_path : Option Bytes)
      → OnSome IsConfig (config_open files read readable explicit_path)
  unfolding config_open
  config_open-IsConfig files read readable (some path) = load_parsed_sound files (read path)
  config_open-IsConfig files read readable none =
      OnSome-if IsConfig (readable (codes "./config.toml")) _ _
        (λ e. load_parsed_sound files (read (codes "./config.toml")))
        (λ e.
          OnSome-if IsConfig (readable (codes "/etc/minimoni/config.toml")) _ _
            (λ f. load_parsed_sound files (read (codes "/etc/minimoni/config.toml")))
            (λ f. defaults-IsConfig))
