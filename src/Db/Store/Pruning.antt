-- ===== src/Db/Store/Pruning.antt =====
-- The cooldown of an alert, and what pruning does to it: db_alert_on_cooldown, db_alert_log_fire and
-- db_prune of src/db.c.
use minimoni.Prelude.{
  All, Bool, Bool-cases, Bytes, In, In-append_left, In-append_right, In-select, List, [], ap, arith,
  false, if-holds, inl, inr, leb, length, lt→ltb, not, refl, select, select-nil, str_eq,
  str_eq_refl, true, ℕ, ◌*◌, ◌+◌, ◌<◌, ◌∷◌, ◌≡◌, ◌≤◌, ◌⊎◌,
}
use minimoni.Db.Store.{
  Fire, Rc, Store, busy, cooled, db_alert_log_fire, db_alert_on_cooldown, db_prune, done, error,
  failed, is_busy, is_done, is_recent, is_row, on_cooldown, row, step_with_retry,
}

abbrev pub works : ℕ → Rc
works i = done

abbrev pub answers : ℕ → Rc
answers i = row

module _ (name : Bytes) (cooldown now : ℕ) where
  recent_In :
      (log : List Fire) (f : Fire)
      → In f log
      → is_recent name cooldown now f ≡ true
      → 0 < length (select (is_recent name cooldown now) log)
  unfolding select
  recent_In [] f m h = elim m [ ]
  recent_In (g ∷ log) f (inl e) h = rw (← e, h) (omega arith)
  recent_In (g ∷ log) f (inr m) h = ground (arith, recent_In log f m h)

  none_recent :
      (log : List Fire)
      → All (λ f. is_recent name cooldown now f ≡ false) log
      → length (select (is_recent name cooldown now) log) ≡ 0
  none_recent log h = rw (select-nil (is_recent name cooldown now) log h)

  -- Fires that pruning drops are not recent, if the cooldown is within the retention.
  prune-recent :
      (retention : ℕ) (log : List Fire)
      → cooldown ≤ retention
      → select (is_recent name cooldown now) (select (λ f. leb now (f.fired_at + retention)) log)
        ≡ select (is_recent name cooldown now) log
  unfolding select
  prune-recent retention [] h = refl
  prune-recent retention (f ∷ log) h = ground (arith, prune-recent retention log h)

-- step_with_retry makes at most three calls and returns the first result that is not SQLITE_BUSY,
-- or SQLITE_BUSY if all three were.
pub step_with_retry-first :
    (step : ℕ → Rc)
    → ((i : ℕ) × (i < 3) × (step_with_retry step ≡ step i) × (is_busy (step i) ≡ false))
      ⊎ ((step_with_retry step ≡ busy)
          × (is_busy (step 0) ≡ true)
          × (is_busy (step 1) ≡ true)
          × (is_busy (step 2) ≡ true))
unfolding step_with_retry
step_with_retry-first step = elim (Bool-cases (is_busy (step 0))) [
  | inr a ↦ inl (0, omega arith, rw a, a)
  | inl a ↦ elim (Bool-cases (is_busy (step 1))) [
    | inr b ↦ inl (1, omega arith, rw (a, b), b)
    | inl b ↦ elim (Bool-cases (is_busy (step 2))) [
      | inr c ↦ inl (2, omega arith, rw (a, b, c), c)
      | inl c ↦ inr (rw (a, b, c), a, b, c)
    ]
  ]
]

row_or_not : (r : Rc) → (r ≡ row) ⊎ (is_row r ≡ false)
row_or_not done = inr refl
row_or_not row = inl refl
row_or_not busy = inr refl
row_or_not error = inr refl

module _ {V : Type 0} where
  -- A fire that the log holds keeps its alert on cooldown until the cooldown has passed.
  pub logged-on_cooldown :
      (name : Bytes) (cooldown now : ℕ) (step : ℕ → Rc) (s : Store V) (f : Fire)
      → In f s.alert_log
      → f.alert_name ≡ name
      → now < f.fired_at + cooldown
      → step_with_retry step ≡ row
      → db_alert_on_cooldown name cooldown now step s ≡ on_cooldown
  unfolding db_alert_on_cooldown
  logged-on_cooldown name cooldown now step s f m e h answered =
      let recent : is_recent name cooldown now f ≡ true =
        ground (arith, str_eq_refl name, ap (λ n. str_eq n name) e) in
      let found = lt→ltb _ _ (recent_In name cooldown now s.alert_log f m recent) in
      rw (answered, found)

  -- Pruning does not change the answer of a cooldown that is within the retention period.
  pub prune-on_cooldown :
      (name : Bytes) (cooldown days now : ℕ) (step a b : ℕ → Rc) (s : Store V)
      → cooldown ≤ days * 86400
      → db_alert_on_cooldown name cooldown now step (db_prune days now a b s).0
        ≡ db_alert_on_cooldown name cooldown now step s
  unfolding db_alert_on_cooldown db_prune
  prune-on_cooldown name cooldown days now step a b s h =
      ground (arith, prune-recent name cooldown now (days * 86400) s.alert_log)

  -- Pruning keeps a fire that is within the retention period.
  pub db_prune-In :
      (days now : ℕ) (a b : ℕ → Rc) (s : Store V) (f : Fire)
      → now ≤ f.fired_at + days * 86400
      → In f s.alert_log
      → In f (db_prune days now a b s).0.alert_log
  unfolding db_prune
  db_prune-In days now a b s f young m =
      if-holds {A = Store V × Bool} (λ p. In f p.0.alert_log) (not (is_done (step_with_retry a))) _
        _ (λ e. m)
        (λ e.
          if-holds {A = Store V × Bool} (λ p. In f p.0.alert_log)
            (not (is_done (step_with_retry b))) _ _ (λ e. m)
            (λ e.
              In-select (λ g. leb now (g.fired_at + days * 86400)) s.alert_log m (ground arith)))

  -- A cooldown that is longer than the retention period is cut short: once a fire is older than the
  -- retention, pruning drops it, and an alert that was on cooldown for it alone is free to fire.
  pub prune_cuts_cooldown :
      (name : Bytes) (cooldown days now fired : ℕ) (s : Store V)
      → s.alert_log ≡ record { alert_name = name; fired_at = fired } ∷ []
      → fired + days * 86400 < now
      → now < fired + cooldown
      → (db_alert_on_cooldown name cooldown now answers s ≡ on_cooldown)
        × (db_alert_on_cooldown name cooldown now answers (db_prune days now works works s).0
            ≡ cooled)
  unfolding db_alert_on_cooldown db_prune step_with_retry
  prune_cuts_cooldown name cooldown days now fired s only old running =
      rw only (unfold select in ground (arith, str_eq_refl name))

  pub db_alert_log_fire-In :
      (name : Bytes) (now : ℕ) (steps : ℕ → Rc) (s : Store V) (f : Fire)
      → In f s.alert_log
      → In f (db_alert_log_fire name now steps s).0.alert_log
  unfolding db_alert_log_fire
  db_alert_log_fire-In name now steps s f m = elim (Bool-cases (is_done (step_with_retry steps))) [
    | inl e ↦
        rw e (In-append_left s.alert_log (record { alert_name = name; fired_at = now } ∷ []) f m)
    | inr e ↦ rw e m
  ]

  pub db_alert_log_fire-logged :
      (name : Bytes) (now : ℕ) (steps : ℕ → Rc) (s : Store V)
      → step_with_retry steps ≡ done
      → In
          (record { alert_name = name; fired_at = now })
          (db_alert_log_fire name now steps s).0.alert_log
  unfolding db_alert_log_fire
  db_alert_log_fire-logged name now steps s h =
      let f : Fire = record { alert_name = name; fired_at = now } in
      rw h (In-append_right s.alert_log (f ∷ []) f (inl refl))

  unanswered :
      (name : Bytes) (cooldown now : ℕ) (steps : ℕ → Rc) (s : Store V)
      → is_row (step_with_retry steps) ≡ false
      → db_alert_on_cooldown name cooldown now steps s ≡ failed
  unfolding db_alert_on_cooldown
  unanswered name cooldown now steps s r = rw r

  pub logged-not_cooled :
      (name : Bytes) (cooldown now : ℕ) (steps : ℕ → Rc) (s : Store V) (f : Fire)
      → In f s.alert_log
      → f.alert_name ≡ name
      → now < f.fired_at + cooldown
      → (db_alert_on_cooldown name cooldown now steps s ≡ on_cooldown)
        ⊎ (db_alert_on_cooldown name cooldown now steps s ≡ failed)
  logged-not_cooled name cooldown now steps s f m e h = elim (row_or_not (step_with_retry steps)) [
    | inl r ↦ inl (logged-on_cooldown name cooldown now steps s f m e h r)
    | inr r ↦ inr (unanswered name cooldown now steps s r)
  ]
