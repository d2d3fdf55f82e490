-- ===== src/Serve/Cycle/Fresh.antt =====
-- The sample of a cycle of src/main.c, from the collector to the alerts.
use minimoni.Double.{Double}
use minimoni.Config.Settings.{AlertCfg}
use minimoni.Db.Snapshot.{Columns, Metrics, bind_row, read_row}
use minimoni.Db.Store.{
  Rc, Store, db_insert, db_prune, done, is_done, keep_rows, row, step_with_retry,
}
use minimoni.Alerts.Evaluate.{alerts_evaluate}
use minimoni.Serve.Cycle.{Storing, store_sample, tidy}
use minimoni.Db.Tiers.Steps.{apply_tier-eq}
use minimoni.Db.Tiers.Coverage.{consolidate_young, not_due_yet}
use minimoni.Prelude.{
  All, All-append, All-mono, All-select_of_All, Bool, Bytes, In, In-append_right, In-select, List,
  OnSome, Option, [], ap, arith, contains, false, false≢true, if-holds, inl, inr, leb, ltb, lt→ltb,
  map, none, not, refl, select, some, sym, true, ℕ, ◌*◌, ◌++◌, ◌+◌, ◌<◌, ◌∙◌, ◌∷◌, ◌≡◌, ◌≤◌, ◌⊎◌,
}
use minimoni.Db.Tiers.{
  Row, Tier, apply_tier, apply_tiers, bucket_start, db_consolidate, distinct, group_row, groups,
  is_due, tier_transitions,
}
use minimoni.Db.Query.{db_current, newer, newest}

bucket_start-le : (bs t : ℕ) → bucket_start bs t ≤ t
bucket_start-le bs t = grind arith

All-map_of :
    {A B : Type 0} (P : B → Type 0) (f : A → B) (xs : List A)
    → All (λ x. P (f x)) xs
    → All P (map f xs)
All-map_of P f [] h = tt
All-map_of P f (x ∷ xs) h = (h.0, All-map_of P f xs h.1)

All-distinct : (P : ℕ → Type 0) (ks : List ℕ) → All P ks → All P (distinct ks)
unfolding distinct
All-distinct P [] h = tt
All-distinct P (k ∷ ks) h =
    if-holds (All P) (contains k ks) (distinct ks) (k ∷ distinct ks)
      (λ again. All-distinct P ks h.1) (λ new. (h.0, All-distinct P ks h.1))

module _ {V : Type 0} where
  abbrev pub Before : ℕ → Row V → Type 0
  Before t q = q.ts < t

  abbrev pub Older : Row V → Row V → Type 0
  Older r q = (q ≡ r) ⊎ (q.ts < r.ts)

  newer-holds :
      (P : Row V → Type 0) (x : Row V) (o : Option (Row V)) → P x → OnSome P o → P (newer x o)
  newer-holds P x none hx ho = hx
  newer-holds P x (some n) hx ho = if-holds P (ltb n.ts x.ts) x n (λ e. hx) (λ e. ho)

  newest-All : (P : Row V → Type 0) (xs : List (Row V)) → All P xs → OnSome P (newest xs)
  unfolding newest
  newest-All P [] h = tt
  newest-All P (x ∷ xs) h = newer-holds P x (newest xs) h.0 (newest-All P xs h.1)

  newer-first : (r : Row V) (o : Option (Row V)) → OnSome (Older r) o → newer r o ≡ r
  newer-first r none h = refl
  newer-first r (some n) (inl e) =
      rw e (if-holds (λ q. q ≡ r) (ltb r.ts r.ts) r r (λ a. refl) (λ a. refl))
  newer-first r (some n) (inr lt) = rw (lt→ltb n.ts r.ts lt) refl

  newer-later : (r x : Row V) → Older r x → newer x (some r) ≡ r
  newer-later r x (inl e) = rw e (if-holds (λ q. q ≡ r) (ltb r.ts r.ts) r r (λ a. refl) (λ a. refl))
  newer-later r x (inr lt) = let late : ltb r.ts x.ts ≡ false = ground arith in rw late refl

  newest-Older : (r : Row V) (xs : List (Row V)) → In r xs → All (Older r) xs → newest xs ≡ some r
  unfolding newest
  newest-Older r [] m h = absurd m
  newest-Older r (x ∷ xs) (inl e) h =
      ap (λ y. some (newer y (newest xs))) (sym e)
      ∙ ap some (newer-first r (newest xs) (newest-All (Older r) xs h.1))
  newest-Older r (x ∷ xs) (inr i) h =
      ap (λ o. some (newer x o)) (newest-Older r xs i h.1) ∙ ap some (newer-later r x h.0)

module _ {V : Type 0} (avg : List V → V) (now : ℕ) where
  groups-Before :
      (t bs : ℕ) (rows : List (Row V)) → All (Before t) rows → All (Before t) (groups avg bs rows)
  unfolding groups
  groups-Before t bs rows h = All-map_of (Before t) (group_row avg bs rows) _ (
      All-distinct (λ k. k < t) _
        (All-map_of (λ k. k < t) (λ r. bucket_start bs r.ts) rows
          (All-mono (Before t) _ rows (λ r b. starts bs r.ts t b) h)))
    where
      starts : (bs a t : ℕ) → a < t → bucket_start bs a < t
      starts bs a t h = omega (arith, bucket_start-le bs a)

  due-Before :
      (r : Row V) (tier : Tier) (rows : List (Row V))
      → is_due now tier r ≡ false
      → All (Older r) rows
      → All (Before r.ts) (select (is_due now tier) rows)
  unfolding select
  due-Before r tier [] young h = tt
  due-Before r tier (x ∷ rows) young h =
      if-holds (All (Before r.ts)) (is_due now tier x) _ _
        (λ due. (older_due x due h.0, due-Before r tier rows young h.1))
        (λ kept. due-Before r tier rows young h.1)
    where
      older_due : (x : Row V) → is_due now tier x ≡ true → Older r x → x.ts < r.ts
      older_due x due (inl e) = absurd (false≢true (sym young ∙ ap (is_due now tier) (sym e) ∙ due))
      older_due x due (inr lt) = lt

  apply_tier-Older :
      (r : Row V) (tier : Tier) (table : List (Row V))
      → is_due now tier r ≡ false
      → All (Older r) table
      → All (Older r) (apply_tier avg now tier table)
  apply_tier-Older r tier table young h = rw apply_tier-eq (
      All-append (Older r) _ _ (All-select_of_All (Older r) _ table h) (
        All-mono (Before r.ts) (Older r) _ (λ q b. inr b)
          (groups-Before r.ts tier.bucket_sec _ (due-Before r tier table young h))))

  apply_tiers-Older :
      (r : Row V) (tiers : List Tier) (table : List (Row V))
      → All (λ t. is_due now t r ≡ false) tiers
      → All (Older r) table
      → All (Older r) (apply_tiers avg now tiers table)
  unfolding apply_tiers
  apply_tiers-Older r [] table young h = h
  apply_tiers-Older r (t ∷ tiers) table young h =
      apply_tiers-Older r tiers _ young.1 (apply_tier-Older r t table young.0 h)

  pub db_consolidate-Older :
      (r : Row V) (table : List (Row V)) (succeeds : Bool)
      → now ≤ r.ts + 7200
      → All (Older r) table
      → All (Older r) (db_consolidate avg succeeds now table).0
  unfolding db_consolidate
  db_consolidate-Older r table true h older =
      apply_tiers-Older r tier_transitions table (not_due_yet avg now table r h) older
  db_consolidate-Older r table false h older = older

module _ {V : Type 0} where
  -- What holds of a table and of its pruned one holds of what db_prune leaves.
  db_prune-metrics :
      (P : List (Row V) → Type 0) (days now : ℕ) (a b : ℕ → Rc) (s : Store V)
      → P s.metrics
      → P (keep_rows (days * 86400) now s.metrics)
      → P (db_prune days now a b s).0.metrics
  unfolding db_prune
  db_prune-metrics P days now a b s all kept =
      if-holds (λ (r : Store V × Bool). P r.0.metrics) (not (is_done (step_with_retry a))) _ _
        (λ e. all)
        (λ e.
          if-holds (λ (r : Store V × Bool). P r.0.metrics) (not (is_done (step_with_retry b))) _ _
            (λ f. kept) (λ f. kept))

module _ {D : Type 0} ⦃d : Double D⦄ (iso : ℕ → Bytes) (avg : List (Columns D) → Columns D)
    (interval days : ℕ) (alerts : List (AlertCfg D)) where
  abbrev pub row_of : Storing → Metrics D → Row (Columns D)
  row_of w m = record {
    ts = w.insert_now;
    bucket_sec = some interval;
    values = bind_row interval (iso w.insert_now) w.insert_now m;
  }

  abbrev pub stored : Storing → Metrics D → Store (Columns D) → Store (Columns D)
  stored w m s = record s { metrics = s.metrics ++ row_of w m ∷ [] }

  stored-In :
      (w : Storing) (m : Metrics D) (s : Store (Columns D)) → In (row_of w m) (stored w m s).metrics
  stored-In w m s = In-append_right s.metrics (row_of w m ∷ []) (row_of w m) (inl refl)

  stored-Older :
      (w : Storing) (m : Metrics D) (s : Store (Columns D))
      → All (Before w.insert_now) s.metrics
      → All (Older (row_of w m)) (stored w m s).metrics
  stored-Older w m s h =
      All-append (Older (row_of w m)) s.metrics (row_of w m ∷ [])
        (All-mono (Before w.insert_now) (Older (row_of w m)) s.metrics (λ q b. inr b) h)
        (inl refl, tt)

  tidy-newest :
      (w : Storing) (m : Metrics D) (s : Store (Columns D))
      → All (Before w.insert_now) s.metrics
      → w.consolidate_now ≤ w.insert_now + 7200
      → w.prune_now ≤ w.insert_now + days * 86400
      → newest (tidy iso avg interval days alerts w (stored w m s)).metrics ≡ some (row_of w m)
  unfolding tidy
  tidy-newest w m s h soon kept =
      let r = row_of w m in
      let table = (db_consolidate avg w.consolidated w.consolidate_now (stored w m s).metrics).0 in
      let here : In r table =
        consolidate_young avg w.consolidate_now (stored w m s).metrics r w.consolidated
          (stored-In w m s) soon in
      let older : All (Older r) table =
        db_consolidate-Older avg w.consolidate_now r (stored w m s).metrics w.consolidated soon
          (stored-Older w m s h) in
      db_prune-metrics (λ t. newest t ≡ some r) days w.prune_now w.prune_metrics_steps
        w.prune_alerts_steps (record s { metrics = table }) (newest-Older r table here older)
        (newest-Older r _
          (In-select (λ q. leb w.prune_now (q.ts + days * 86400)) table here (ground arith))
          (All-select_of_All (Older r) _ table older))

  -- From the collector to the alerts: when the sample is inserted, later than every row that the
  -- table holds, and consolidation and pruning follow within two hours, and the retention period,
  -- then the alerts are judged on that very sample, neither averaged nor an older one, with the
  -- table as consolidated and pruned.
  pub store_sample-judged :
      (w : Storing) (m : Metrics D) (s : Store (Columns D))
      → step_with_retry w.insert_steps ≡ done
      → All (Before w.insert_now) s.metrics
      → w.consolidate_now ≤ w.insert_now + 7200
      → w.prune_now ≤ w.insert_now + days * 86400
      → w.current_prepared ≡ true
      → w.current_step ≡ row
      → store_sample iso avg interval days alerts w m s ≡ (
          let (judged, acts) =
            alerts_evaluate w.attempts
              (read_row (bind_row interval (iso w.insert_now) w.insert_now m))
              alerts
              (tidy iso avg interval days alerts w (stored w m s)) in
          (judged, acts, true))
  unfolding store_sample db_insert db_current
  store_sample-judged w m s inserted h soon kept prepared stepped_to =
      simp (inserted, prepared, stepped_to, tidy-newest w m s h soon kept) refl
