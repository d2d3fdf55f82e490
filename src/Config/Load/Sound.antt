-- ===== src/Config/Load/Sound.antt =====
-- What a configuration that config_load of src/config.c accepts satisfies.
use minimoni.Double.{Double}
use minimoni.Config.Duration.{parse_duration}
use minimoni.Config.Duration.Bounds.{parse_duration_bounds}
use minimoni.Config.Load.{
  alerts_from, clamp_refresh, config_load, cooldown_of, keeps_range, load_alert, load_alerts,
  load_collect, load_dashboard, load_server, load_webhooks, range_step, ranges_from, ranges_of,
}
use minimoni.Prelude.{
  All, Bool, Bool-cases, Bytes, List, OnSome, OnSome-bind, OnSome-if, OnSome-mono, OnSome-of,
  OnSome-then, Option, [], ap, arith, codes, false, false≢true, inl, inr, leb, length, ltb, negsuc,
  none, not, pos, refl, refuse, some, subst, suc, sym, true, zero, ℕ, ◌&&◌, ◌*◌, ◌<◌, ◌==◌, ◌∙◌,
  ◌∷◌, ◌≡◌, ◌≤◌,
}
use minimoni.Config.Settings.{
  AlertCfg, CollectCfg, Config, DashboardCfg, ServerCfg, config_defaults, in_list,
}
use minimoni.Config.Datum.{
  Datum, Elem, Files, Scalar, array, boolean, card_names, chart_names, elem_of, fit_field, fp, int,
  interval_of, is_empty, is_text, is_unknown, listing_of, max_dashboards_of, metric_names, or_zero,
  other, positive_of, required, scalar_of, single, str_copy, table, text, theme_of, threshold_of,
  unknown, valid_op, value,
}

module _ {D : Type 0} where
  -- What the rest of the program relies on in an alert.
  pub record IsAlert (a : AlertCfg D) : Type 0 where
    pub op_known : valid_op a.op ≡ true
    pub metric_known : in_list a.metric metric_names ≡ true
    pub acts : is_empty a.webhook && is_empty a.command ≡ false
    pub cooldown_bounded : a.cooldown_seconds ≤ 3653 * 86400

  pub record IsConfig (c : Config D) : Type 0 where
    pub dashboards : (1 ≤ c.server.max_dashboards) × (c.server.max_dashboards ≤ 256)
    pub interval : (1 ≤ c.collect.interval_seconds) × (c.collect.interval_seconds ≤ 3600)
    pub refresh :
        (1 ≤ c.dashboard.refresh_seconds)
        × (c.dashboard.refresh_seconds ≤ c.collect.interval_seconds)
    pub ranges_few : (1 ≤ length c.dashboard.ranges) × (length c.dashboard.ranges ≤ 8)
    pub ranges_fit : All (λ r. length r < 8) c.dashboard.ranges
    pub alerts_few : length c.alerts ≤ 16
    pub alerts_valid : All IsAlert c.alerts

fit_field-fits : (n : ℕ) (s : Bytes) → OnSome (λ r. length r < n) (fit_field n s)
fit_field-fits n s = OnSome-if _ (leb n (length s)) none (some s) (λ e. tt) (λ e. ground arith)

fit_field-same : (n : ℕ) (s : Bytes) → OnSome (λ r. r ≡ s) (fit_field n s)
fit_field-same n s = OnSome-if _ (leb n (length s)) none (some s) (λ e. tt) (λ e. refl)

refuse-checked :
    {A : Type 0} (bad : Bool) (a : A) → OnSome (λ x. (x ≡ a) × (bad ≡ false)) (refuse bad a)
refuse-checked true a = tt
refuse-checked false a = (refl, refl)

module _ {D : Type 0} where
  max_dashboards_of-bounds :
      (v : Scalar D) (dst : ℕ)
      → (1 ≤ dst) × (dst ≤ 256)
      → OnSome (λ n. (1 ≤ n) × (n ≤ 256)) (max_dashboards_of v dst)
  max_dashboards_of-bounds (int (pos zero)) dst h = tt
  max_dashboards_of-bounds (int (pos (suc n))) dst h = ground arith
  max_dashboards_of-bounds (int (negsuc n)) dst h = tt
  max_dashboards_of-bounds (text s) dst h = h
  max_dashboards_of-bounds (fp x) dst h = h
  max_dashboards_of-bounds (boolean b) dst h = h
  max_dashboards_of-bounds other dst h = h
  max_dashboards_of-bounds unknown dst h = h

  interval_of-bounds :
      (v : Scalar D) (dst : ℕ)
      → (1 ≤ dst) × (dst ≤ 3600)
      → OnSome (λ n. (1 ≤ n) × (n ≤ 3600)) (interval_of v dst)
  interval_of-bounds (int (pos zero)) dst h = tt
  interval_of-bounds (int (pos (suc n))) dst h = ground arith
  interval_of-bounds (int (negsuc n)) dst h = tt
  interval_of-bounds (text s) dst h = tt
  interval_of-bounds (fp x) dst h = h
  interval_of-bounds (boolean b) dst h = h
  interval_of-bounds other dst h = h
  interval_of-bounds unknown dst h = h

  positive_of-positive : (v : Scalar D) (n : ℕ) → 1 ≤ n → 1 ≤ positive_of v n
  positive_of-positive (int (pos zero)) n h = h
  positive_of-positive (int (pos (suc k))) n h = ground arith
  positive_of-positive (int (negsuc k)) n h = h
  positive_of-positive (text s) n h = h
  positive_of-positive (fp x) n h = h
  positive_of-positive (boolean b) n h = h
  positive_of-positive other n h = h
  positive_of-positive unknown n h = h

  load_server_sound :
      (seek : Bytes → Datum D) (c : ServerCfg)
      → (1 ≤ c.max_dashboards) × (c.max_dashboards ≤ 256)
      → OnSome (λ r. (1 ≤ r.max_dashboards) × (r.max_dashboards ≤ 256)) (load_server seek c)
  unfolding load_server
  load_server_sound seek c h =
      OnSome-then _ (str_copy 64 (scalar_of (seek (codes "server.listen"))) c.listen) _ (λ listen.
        OnSome-bind _ _
          (max_dashboards_of (scalar_of (seek (codes "server.max_dashboards"))) c.max_dashboards) _
          (max_dashboards_of-bounds (scalar_of (seek (codes "server.max_dashboards")))
            c.max_dashboards h)
          (λ n k. k))

  load_collect_sound :
      (files : Files) (seek : Bytes → Datum D) (c : CollectCfg)
      → (1 ≤ c.interval_seconds) × (c.interval_seconds ≤ 3600)
      → OnSome
          (λ r. (1 ≤ r.interval_seconds) × (r.interval_seconds ≤ 3600))
          (load_collect files seek c)
  unfolding load_collect
  load_collect_sound files seek c h =
      let v = scalar_of (seek (codes "collect.interval")) in
      let disk = scalar_of (seek (codes "collect.disk_path")) in
      OnSome-bind _ _ (interval_of v c.interval_seconds) _
        (interval_of-bounds v c.interval_seconds h)
        λ n k.
          OnSome-then _ (str_copy 256 (scalar_of (seek (codes "collect.db"))) c.db_path) _
            λ db_path. OnSome-then _ (str_copy 256 disk c.disk_path) _ λ disk_path.
              OnSome-if _ (is_text disk && not (files.statvfs_ok disk_path)) none
                (some (record { interval_seconds = n; db_path = db_path; disk_path = disk_path }))
                (λ e. tt) (λ e. k)

module _ {D : Type 0} where
  looser :
      (es : List (Elem D)) (rest : Option (List Bytes))
      → OnSome (λ rs. All (λ r. length r < 8) rs × (length rs ≤ length es)) rest
      → OnSome (λ rs. All (λ r. length r < 8) rs × (length rs ≤ suc (length es))) rest
  looser es none h = tt
  looser es (some rs) h = (h.0, omega arith)

  few_enough :
      (few : List (Elem D)) (e : Elem D) (es : List (Elem D)) (rs : List Bytes)
      → (few ≡ e ∷ es) × (ltb 8 (length (e ∷ es)) ≡ false)
      → length rs ≤ length few
      → length rs ≤ 8
  few_enough few e es rs q h =
      let same : length few ≡ length (e ∷ es) = ap length q.0 in ground arith

not-false : (b : Bool) → not b ≡ false → b ≡ true
not-false true h = refl
not-false false h = absurd (false≢true (sym h))

or_zero-bounded : (long_max : ℕ) (s : Bytes) → or_zero (parse_duration long_max s) ≤ 3653 * 86400
or_zero-bounded long_max s = bounded (parse_duration long_max s) refl
  where
    bounded : (o : Option ℕ) → parse_duration long_max s ≡ o → or_zero o ≤ 3653 * 86400
    bounded none e = omega arith
    bounded (some d) e = (parse_duration_bounds long_max s d e).1

module _ {D : Type 0} where
  sixteen :
      (few es : List (Elem D)) (l : List (AlertCfg D))
      → (few ≡ es) × (ltb 16 (length es) ≡ false)
      → length l ≡ length few
      → length l ≤ 16
  sixteen few es l q h = let same : length few ≡ length es = ap length q.0 in ground arith

  clamped :
      (interval : ℕ) (c : DashboardCfg D)
      → 1 ≤ interval
      → 1 ≤ c.refresh_seconds
      → (1 ≤ (clamp_refresh interval c).refresh_seconds)
        × ((clamp_refresh interval c).refresh_seconds ≤ interval)
  clamped interval c h k = elim (Bool-cases (ltb interval c.refresh_seconds)) [
    | inl e ↦ rw e (h, omega arith)
    | inr e ↦ rw e (k, ground arith)
  ]

  same_ranges : (interval : ℕ) (c : DashboardCfg D) → c.ranges ≡ (clamp_refresh interval c).ranges
  same_ranges interval c = elim (Bool-cases (ltb interval c.refresh_seconds)) [
    | inl e ↦ rw e refl
    | inr e ↦ rw e refl
  ]

module _ (long_max : ℕ) where
  module _ {D : Type 0} where
    cooldown_of-bounded : (v : Scalar D) → cooldown_of long_max v ≤ 3653 * 86400
    cooldown_of-bounded (text s) = or_zero-bounded long_max s
    cooldown_of-bounded (int z) = omega arith
    cooldown_of-bounded (fp x) = omega arith
    cooldown_of-bounded (boolean b) = omega arith
    cooldown_of-bounded other = omega arith
    cooldown_of-bounded unknown = omega arith

    range_step-fit :
        (interval : ℕ) (v : Scalar D) (es : List (Elem D)) (rest : Option (List Bytes))
        → OnSome (λ rs. All (λ r. length r < 8) rs × (length rs ≤ length es)) rest
        → OnSome
            (λ rs. All (λ r. length r < 8) rs × (length rs ≤ suc (length es)))
            (range_step long_max interval v rest)
    range_step-fit interval (text s) es rest h =
        elim (Bool-cases (keeps_range long_max interval s)) [
          | inl e ↦ rw e (
              OnSome-bind _ _ (fit_field 8 s) _ (fit_field-fits 8 s)
                λ r k. OnSome-bind _ _ rest _ h λ more q. ((k, q.0), omega arith))
          | inr e ↦ rw e (looser es rest h)
        ]
    range_step-fit interval (int z) es rest h = looser es rest h
    range_step-fit interval (fp x) es rest h = looser es rest h
    range_step-fit interval (boolean b) es rest h = looser es rest h
    range_step-fit interval other es rest h = looser es rest h
    range_step-fit interval unknown es rest h = looser es rest h

    ranges_from-fit :
        (interval : ℕ) (es : List (Elem D))
        → OnSome
            (λ rs. All (λ r. length r < 8) rs × (length rs ≤ length es))
            (ranges_from long_max interval es)
    unfolding ranges_from
    ranges_from-fit interval [] = (tt, omega arith)
    ranges_from-fit interval (e ∷ es) =
        range_step-fit interval (elem_of e) es (ranges_from long_max interval es)
          (ranges_from-fit interval es)

    ranges_of-fit :
        (interval : ℕ) (v : Datum D) (dst : List Bytes)
        → All (λ r. length r < 8) dst
        → (1 ≤ length dst) × (length dst ≤ 8)
        → OnSome
            (λ rs. All (λ r. length r < 8) rs × (1 ≤ length rs) × (length rs ≤ 8))
            (ranges_of long_max interval v dst)
    ranges_of-fit interval (single s) dst h k = (h, k.0, k.1)
    ranges_of-fit interval (array []) dst h k = (h, k.0, k.1)
    ranges_of-fit interval (array (e ∷ es)) dst h k =
        OnSome-bind _ _ (refuse (ltb 8 (length (e ∷ es))) (e ∷ es)) _
          (refuse-checked (ltb 8 (length (e ∷ es))) (e ∷ es))
          λ few q.
            OnSome-bind _ _ (ranges_from long_max interval few) _ (ranges_from-fit interval few)
              λ rs r.
                OnSome-if _ (length rs == 0) none (some rs) (λ z. tt)
                  (λ z. (r.0, ground arith, few_enough few e es rs q r.1))

  module _ {D : Type 0} (to_float : D → D) ⦃d : Double D⦄ where
    load_dashboard_sound :
        (interval : ℕ) (seek : Bytes → Datum D) (c : DashboardCfg D)
        → 1 ≤ c.refresh_seconds
        → All (λ r. length r < 8) c.ranges
        → (1 ≤ length c.ranges) × (length c.ranges ≤ 8)
        → OnSome
            (λ r.
              (1 ≤ r.refresh_seconds)
              × All (λ s. length s < 8) r.ranges
              × (1 ≤ length r.ranges)
              × (length r.ranges ≤ 8))
            (load_dashboard long_max to_float interval seek c)
    unfolding load_dashboard
    load_dashboard_sound interval seek c h k q =
        OnSome-then _ (str_copy 128 (scalar_of (seek (codes "dashboard.title"))) c.title) _ λ title.
          OnSome-then _ (theme_of (scalar_of (seek (codes "dashboard.theme"))) c.theme) _ λ theme.
            OnSome-then _ (listing_of chart_names (seek (codes "dashboard.charts"))) _ λ charts.
              OnSome-then _ (listing_of card_names (seek (codes "dashboard.cards"))) _ λ cards.
                OnSome-bind _ _
                  (ranges_of long_max interval (seek (codes "dashboard.ranges")) c.ranges) _
                  (ranges_of-fit interval (seek (codes "dashboard.ranges")) c.ranges k q)
                  λ rs r. (
                    positive_of-positive (scalar_of (seek (codes "dashboard.refresh")))
                        c.refresh_seconds h,
                    r.0,
                    r.1,
                    r.2,
                  )

    load_alert_sound : (e : Elem D) → OnSome IsAlert (load_alert long_max to_float e)
    unfolding load_alert
    load_alert_sound (value s) = tt
    load_alert_sound (table get) = OnSome-then _ (required (get (codes "name"))) _ λ dname.
        OnSome-then _ (required (get (codes "metric"))) _ λ dmet.
          OnSome-then _ (required (get (codes "operator"))) _ λ dop.
            OnSome-bind _ _ (refuse (not (valid_op dop)) dop) _
              (refuse-checked (not (valid_op dop)) dop)
              λ op ho.
                OnSome-bind _ _ (refuse (not (in_list dmet metric_names)) dmet) _
                  (refuse-checked (not (in_list dmet metric_names)) dmet)
                  λ metric hm. OnSome-then _ (threshold_of (get (codes "threshold"))) _ λ threshold.
                    OnSome-then _ (fit_field 64 dname) _ λ name.
                      OnSome-bind _ _ (fit_field 32 metric) _ (fit_field-same 32 metric)
                        λ metric_field sm.
                          OnSome-bind _ _ (fit_field 4 op) _ (fit_field-same 4 op) λ op_field so.
                            OnSome-then _ (str_copy 512 (get (codes "webhook")) []) _ λ webhook.
                              OnSome-then _ (str_copy 256 (get (codes "command")) []) _ λ command.
                                OnSome-if _ (is_empty webhook && is_empty command) none _ (λ b. tt)
                                  λ b. record {
                                    op_known =
                                        ap valid_op (so ∙ ho.0) ∙ not-false (valid_op dop) ho.1;
                                    metric_known =
                                        ap (λ m. in_list m metric_names) (sm ∙ hm.0)
                                        ∙ not-false (in_list dmet metric_names) hm.1;
                                    acts = b;
                                    cooldown_bounded = cooldown_of-bounded (get (codes "cooldown"));
                                  }

    alerts_from_sound :
        (es : List (Elem D))
        → OnSome (λ l. All IsAlert l × (length l ≡ length es)) (alerts_from long_max to_float es)
    unfolding alerts_from
    alerts_from_sound [] = (tt, refl)
    alerts_from_sound (e ∷ es) =
        OnSome-bind _ _ (load_alert long_max to_float e) _ (load_alert_sound e) λ a h.
          OnSome-bind _ _ (alerts_from long_max to_float es) _ (alerts_from_sound es)
            λ more k. ((h, k.0), ap suc k.1)

    load_alerts_sound :
        (v : Datum D)
        → OnSome (λ l. All IsAlert l × (length l ≤ 16)) (load_alerts long_max to_float v)
    load_alerts_sound (single s) =
        OnSome-if _ (not (is_unknown s)) none (some []) (λ e. tt) (λ e. (tt, omega arith))
    load_alerts_sound (array es) =
        OnSome-bind _ _ (refuse (ltb 16 (length es)) es) _ (refuse-checked (ltb 16 (length es)) es)
          λ few q.
            OnSome-mono _ _ (alerts_from long_max to_float few) (alerts_from_sound few)
              (λ l h. (h.0, sixteen few es l q h.1))

    pub config_load_sound :
        (files : Files) (seek : Bytes → Datum D)
        → OnSome IsConfig (config_load long_max to_float files seek)
    unfolding config_load
    config_load_sound files seek =
        let c : Config D = config_defaults in
        OnSome-bind _ _ (load_server seek c.server) _
          (load_server_sound seek c.server (omega arith, omega arith))
          λ server hs.
            OnSome-bind _ _ (load_collect files seek c.collect) _
              (load_collect_sound files seek c.collect (omega arith, omega arith))
              λ collect hc. OnSome-then _ (load_webhooks files seek c.webhooks) _ λ webhooks.
                OnSome-bind _ _
                  (load_dashboard long_max to_float collect.interval_seconds seek c.dashboard) _
                  (load_dashboard_sound collect.interval_seconds seek c.dashboard (omega arith)
                    (omega arith) (omega arith, omega arith))
                  λ dashboard hd.
                    OnSome-bind _ _ (load_alerts long_max to_float (seek (codes "alert"))) _
                      (load_alerts_sound (seek (codes "alert")))
                      λ alerts ha. record {
                        dashboards = hs;
                        interval = hc;
                        refresh = clamped collect.interval_seconds dashboard hc.0 hd.0;
                        ranges_few =
                            subst (λ rs. (1 ≤ length rs) × (length rs ≤ 8))
                              (same_ranges collect.interval_seconds dashboard) (hd.2, hd.3);
                        ranges_fit =
                            subst (λ rs. All (λ r. length r < 8) rs)
                              (same_ranges collect.interval_seconds dashboard) hd.1;
                        alerts_few = ha.1;
                        alerts_valid = ha.0;
                      }

    -- A configuration that config_load accepts allows 1 to 256 dashboards, collects every 1 to 3600
    -- seconds and refreshes at most that often, has 1 to 8 ranges that fit their field, and at most
    -- 16 alerts, each with a known operator and metric, an action, and a cooldown of at most 3653
    -- days.
    pub config_load-IsConfig :
        (files : Files) (seek : Bytes → Datum D) (c : Config D)
        → config_load long_max to_float files seek ≡ some c
        → IsConfig c
    config_load-IsConfig files seek c e =
        OnSome-of IsConfig (config_load long_max to_float files seek) (config_load_sound files seek)
          e
