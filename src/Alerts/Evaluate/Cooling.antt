-- ===== src/Alerts/Evaluate/Cooling.antt =====
-- When alerts_evaluate of src/alerts.c acts on an alert, and how long it then keeps quiet.
use minimoni.Db.Store.Pruning.{
  db_alert_log_fire-In, db_alert_log_fire-logged, db_prune-In, logged-not_cooled,
}
use minimoni.Prelude.{
  All, Bool-cases, In, List, [], arith, false, inl, inr, refl, true, ℕ, ◌&&◌, ◌*◌, ◌+◌, ◌<◌, ◌↔◌,
  ◌∷◌, ◌≡◌, ◌≢◌, ◌≤◌,
}
use minimoni.Double.{Double}
use minimoni.Config.Settings.{AlertCfg}
use minimoni.Config.Datum.{is_empty}
use minimoni.Db.Snapshot.{DbRow}
use minimoni.Db.Tiers.{Row}
use minimoni.Db.Store.{
  Fire, Rc, Store, cooled, db_alert_on_cooldown, db_prune, done, step_with_retry,
}
use minimoni.Alerts.Evaluate.{
  Attempt, alerts_evaluate, evaluate_alert, evaluate_from, is_delivered, is_free, is_met,
}

module _ {D V : Type 0} ⦃d : Double D⦄ where
  -- An alert with a webhook or a command acts exactly if its metric has a value that meets the
  -- condition and the cooldown check answers that it is cooled down.
  pub evaluate_alert-acts_iff :
      (att : Attempt) (r : DbRow D) (a : AlertCfg D) (s : Store V)
      → is_empty a.webhook && is_empty a.command ≡ false
      → ((evaluate_alert att r a s).1 ≢ []) ↔ (
          (is_met r a ≡ true)
          × (db_alert_on_cooldown a.name a.cooldown_seconds att.check_now att.check_steps s
              ≡ cooled))
  unfolding evaluate_alert
  evaluate_alert-acts_iff att r a s h = ground arith

  -- If no action is delivered, the store is as before: the cooldown does not start, and the next
  -- evaluation of the alert with the same answers of the database acts again.
  pub evaluate_alert-undelivered :
      (att : Attempt) (r : DbRow D) (a : AlertCfg D) (s : Store V)
      → is_delivered att a ≡ false
      → (evaluate_alert att r a s).0 ≡ s
  unfolding evaluate_alert
  evaluate_alert-undelivered att r a s h = ground arith

  -- The fires that the log holds are kept.
  evaluate_alert-In :
      (att : Attempt) (r : DbRow D) (a : AlertCfg D) (s : Store V) (f : Fire)
      → In f s.alert_log
      → In f (evaluate_alert att r a s).0.alert_log
  unfolding evaluate_alert
  evaluate_alert-In att r a s f m = elim (Bool-cases (is_met r a)) [
    | inr e ↦ rw e m
    | inl e ↦ elim (Bool-cases (is_free att a s)) [
      | inr g ↦ rw (e, g) m
      | inl g ↦ elim (Bool-cases (is_delivered att a)) [
        | inr h ↦ rw (e, g, h) m
        | inl h ↦ rw (e, g, h) (db_alert_log_fire-In a.name att.log_now att.log_steps s f m)
      ]
    ]
  ]

  evaluate_from-In :
      (att : ℕ → Attempt) (i : ℕ) (r : DbRow D) (rest : List (AlertCfg D)) (s : Store V) (f : Fire)
      → In f s.alert_log
      → In f (evaluate_from att i r rest s).0.alert_log
  unfolding evaluate_from
  evaluate_from-In att i r [] s f m = m
  evaluate_from-In att i r (a ∷ rest) s f m =
      evaluate_from-In att (i + 1) r rest (evaluate_alert (att i) r a s).0 f
        (evaluate_alert-In (att i) r a s f m)

  -- An alert with a fire in the log does nothing until its cooldown has passed, whatever the
  -- database answers.
  logged-silent :
      (att : Attempt) (r : DbRow D) (a : AlertCfg D) (s : Store V) (f : Fire)
      → In f s.alert_log
      → f.alert_name ≡ a.name
      → att.check_now < f.fired_at + a.cooldown_seconds
      → evaluate_alert att r a s ≡ (s, [])
  unfolding evaluate_alert
  logged-silent att r a s f m e h =
      elim (logged-not_cooled a.name a.cooldown_seconds att.check_now att.check_steps s f m e h) [
        | inl q ↦ ground arith
        | inr q ↦ ground arith
      ]

  delivered-In :
      (att : Attempt) (r : DbRow D) (a : AlertCfg D) (s : Store V)
      → is_met r a ≡ true
      → is_free att a s ≡ true
      → is_delivered att a ≡ true
      → step_with_retry att.log_steps ≡ done
      → In
          (record { alert_name = a.name; fired_at = att.log_now })
          (evaluate_alert att r a s).0.alert_log
  unfolding evaluate_alert
  delivered-In att r a s met free delivered recorded =
      rw (met, free, delivered)
        (db_alert_log_fire-logged a.name att.log_now att.log_steps s recorded)

-- What the daemon does with the tables between two evaluations of an alert: an evaluation of any
-- alerts, a pruning, and what leaves other rows of metrics, as db_insert and db_consolidate do.
pub data Between (D V : Type 0) : Type 0 where
  evaluated : (ℕ → Attempt) → DbRow D → List (AlertCfg D) → Between D V
  pruned : ℕ → (ℕ → Rc) → (ℕ → Rc) → Between D V
  rows_changed : List (Row V) → Between D V

module _ {D V : Type 0} ⦃d : Double D⦄ (days : ℕ) where
  unfoldable pub happen : Between D V → Store V → Store V
  happen (evaluated att r alerts) s = (alerts_evaluate att r alerts s).0
  happen (pruned now a b) s = (db_prune days now a b s).0
  happen (rows_changed rows) s = record s { metrics = rows }

  unfoldable pub happen_all : List (Between D V) → Store V → Store V
  happen_all [] s = s
  happen_all (e ∷ es) s = happen_all es (happen e s)

  -- The clock of a pruning.
  abbrev pub PrunedBy : ℕ → Between D V → Type 0
  PrunedBy t (pruned now a b) = now ≤ t
  PrunedBy t _ = Unit

  happen-In :
      (t : ℕ) (e : Between D V) (s : Store V) (f : Fire)
      → t ≤ f.fired_at + days * 86400
      → PrunedBy t e
      → In f s.alert_log
      → In f (happen e s).alert_log
  unfolding happen alerts_evaluate
  happen-In t (evaluated att r alerts) s f young by m = evaluate_from-In att 0 r alerts s f m
  happen-In t (pruned now a b) s f young by m = db_prune-In days now a b s f (omega arith) m
  happen-In t (rows_changed rows) s f young by m = m

  happen_all-In :
      (t : ℕ) (es : List (Between D V)) (s : Store V) (f : Fire)
      → t ≤ f.fired_at + days * 86400
      → All (PrunedBy t) es
      → In f s.alert_log
      → In f (happen_all es s).alert_log
  unfolding happen_all
  happen_all-In t [] s f young by m = m
  happen_all-In t (e ∷ es) s f young by m =
      happen_all-In t es (happen e s) f young by.1 (happen-In t e s f young by.0 m)

  -- Once a delivered action of an alert is recorded, the alert does nothing and writes nothing while
  -- its cooldown runs, if the cooldown is within the retention period: whatever alerts are evaluated
  -- in between, whatever becomes of the rows, however often the tables are pruned by a clock that is
  -- not ahead of the later check, and whatever the database answers.
  pub evaluate_alert-cooldown :
      (att later : Attempt) (between : List (Between D V)) (r r' : DbRow D) (a : AlertCfg D)
      (s : Store V)
      → is_met r a ≡ true
      → is_free att a s ≡ true
      → is_delivered att a ≡ true
      → step_with_retry att.log_steps ≡ done
      → later.check_now < att.log_now + a.cooldown_seconds
      → a.cooldown_seconds ≤ days * 86400
      → All (PrunedBy later.check_now) between
      → let s' = happen_all between (evaluate_alert att r a s).0 in
        evaluate_alert later r' a s' ≡ (s', [])
  evaluate_alert-cooldown att later between r r' a s met free delivered recorded running within by =
      let f : Fire = record { alert_name = a.name; fired_at = att.log_now } in
      let logged = delivered-In att r a s met free delivered recorded in
      let kept =
        happen_all-In later.check_now between (evaluate_alert att r a s).0 f (omega arith) by
          logged in
      logged-silent later r' a (happen_all between (evaluate_alert att r a s).0) f kept refl running
