-- ===== src/Serve/Cycle/Loop.antt =====
-- The loop of run_serve in src/main.c.
use minimoni.Prelude.{
  Bool, Bool-cases, Bytes, List, Option, ap, arith, false, if◌then◌else◌, inl, inr, none, refl,
  some, suc, sym, true, zero, ℕ, ◌*◌, ◌+◌, ◌<◌, ◌||◌, ◌∙◌, ◌≡◌,
}
use minimoni.Double.{Double}
use minimoni.Config.Settings.{AlertCfg}
use minimoni.Db.Snapshot.{Columns, Metrics}
use minimoni.Metrics.Collect.{Sampler, metrics_collect}
use minimoni.Serve.Cycle.{Daemon, Wake, after_collect, cycle, serve_loop}

-- The cycles among the first n turns: those whose sleep was not interrupted.
unfoldable pub cycles_of : (ℕ → Wake) → ℕ → ℕ
cycles_of wakes zero = 0
cycles_of wakes (suc n) = cycles_of wakes n + (if (wakes n).slept then 1 else 0)

plus_one : (i : ℕ) → i + 1 ≡ suc i
plus_one i = omega arith

plus_none : (n : ℕ) → 0 + n ≡ n
plus_none n = omega arith

none_more : (n : ℕ) → n + 0 ≡ n
none_more n = omega arith

abbrev pub asks_stop : Wake → Bool
asks_stop w = w.flag_before || w.flag_after

module _ {D : Type 0} ⦃d : Double D⦄ (iso : ℕ → Bytes) (avg : List (Columns D) → Columns D)
    (strtod : Bytes → Option (D × Bytes)) (long_max page : ℕ) (interval days : ℕ)
    (alerts : List (AlertCfg D)) where
  abbrev run_cycle : Wake → Daemon D → Daemon D
  run_cycle = cycle iso avg strtod long_max page interval days alerts

  -- The daemon after n turns, a cycle in each whose sleep was not interrupted.
  unfoldable pub after_turns : (ℕ → Wake) → ℕ → Daemon D → Daemon D
  after_turns wakes zero x = x
  after_turns wakes (suc n) x =
      let before = after_turns wakes n x in
      if (wakes n).slept then run_cycle (wakes n) before else before

  abbrev loop_from : (ℕ → Wake) → ℕ → ℕ → Daemon D → Option (Daemon D)
  loop_from = serve_loop iso avg strtod long_max page interval days alerts

  loop_step :
      (wakes : ℕ → Wake) (turns i : ℕ) (x : Daemon D)
      → asks_stop (wakes i) ≡ false
      → loop_from wakes (suc turns) i (after_turns wakes i x)
        ≡ loop_from wakes turns (i + 1) (after_turns wakes (i + 1) x)
  unfolding serve_loop after_turns
  loop_step wakes turns i x quiet =
      rw (quiet, plus_one i)
        (elim (Bool-cases (wakes i).slept) [ inl e ↦ rw e refl | inr e ↦ rw e refl ])

  loop_runs :
      (wakes : ℕ → Wake) (k turns i : ℕ) (x : Daemon D)
      → ((j : ℕ) → j < i + k → asks_stop (wakes j) ≡ false)
      → loop_from wakes (k + turns) i (after_turns wakes i x)
        ≡ loop_from wakes turns (i + k) (after_turns wakes (i + k) x)
  loop_runs wakes zero turns i x quiet =
      let here : i ≡ i + 0 = omega arith in
      let all : turns ≡ 0 + turns = omega arith in
      ap (λ j. loop_from wakes (0 + turns) j (after_turns wakes j x)) here
      ∙ ap (λ t. loop_from wakes t (i + 0) (after_turns wakes (i + 0) x)) (sym all)
  loop_runs wakes (suc k) turns i x quiet =
      let all : suc k + turns ≡ suc (k + turns) = omega arith in
      let there : i + 1 + k ≡ i + suc k = omega arith in
      ap (λ t. loop_from wakes t i (after_turns wakes i x)) all
      ∙ loop_step wakes (k + turns) i x (quiet i (omega arith))
      ∙ loop_runs wakes k turns (i + 1) x (λ j h. quiet j (omega arith))
      ∙ ap (λ j. loop_from wakes turns j (after_turns wakes j x)) there

  after_collect-next :
      (w : Wake) (p : Sampler × Option (Metrics D)) (x : Daemon D)
      → (after_collect iso avg strtod long_max page interval days alerts w p x).next_sec
        ≡ x.next_sec + interval
  after_collect-next w (sampler, none) x = refl
  after_collect-next w (sampler, some m) x = refl

  run_cycle-next : (w : Wake) (x : Daemon D) → (run_cycle w x).next_sec ≡ x.next_sec + interval
  unfolding cycle
  run_cycle-next w x =
      after_collect-next w (metrics_collect strtod long_max page w.host x.sampler x.m) x

  after_turns-next :
      (wakes : ℕ → Wake) (n : ℕ) (x : Daemon D)
      → (after_turns wakes n x).next_sec ≡ x.next_sec + cycles_of wakes n * interval
  unfolding after_turns cycles_of cycle
  after_turns-next wakes zero x = omega arith
  after_turns-next wakes (suc n) x =
      let before = after_turns-next wakes n x in
      let more = run_cycle-next (wakes n) (after_turns wakes n x) in
      elim (Bool-cases (wakes n).slept) [ inl e ↦ rw e (grind arith) | inr e ↦ rw e (grind arith) ]

  at_start : (wakes : ℕ → Wake) (x : Daemon D) → after_turns wakes 0 x ≡ x
  unfolding after_turns
  at_start wakes x = refl

  no_turns : (wakes : ℕ → Wake) (i : ℕ) (x : Daemon D) → loop_from wakes 0 i x ≡ none
  unfolding serve_loop
  no_turns wakes i x = refl

  stops_at :
      (wakes : ℕ → Wake) (n turns : ℕ) (x : Daemon D)
      → asks_stop (wakes n) ≡ true
      → loop_from wakes (suc turns) n x ≡ some x
  unfolding serve_loop
  stops_at wakes n turns x stop = rw stop refl

  -- The loop ends in the turn in which it sees shutdown_flag, if not in an earlier one: with n quiet
  -- turns before, it has run one cycle for each of them whose sleep was not interrupted, and
  -- nothing after them; and whatever the cycles took, the next one is due as many intervals after
  -- the first as there were cycles.
  pub serve_loop-stops :
      (wakes : ℕ → Wake) (n : ℕ) (x : Daemon D)
      → ((j : ℕ) → j < n → asks_stop (wakes j) ≡ false)
      → asks_stop (wakes n) ≡ true
      → (serve_loop iso avg strtod long_max page interval days alerts wakes (n + 1) 0 x
          ≡ some (after_turns wakes n x))
        × (serve_loop iso avg strtod long_max page interval days alerts wakes n 0 x ≡ none)
        × ((after_turns wakes n x).next_sec ≡ x.next_sec + cycles_of wakes n * interval)
  serve_loop-stops wakes n x quiet stop = (
    ap (λ y. loop_from wakes (n + 1) 0 y) (sym (at_start wakes x))
        ∙ loop_runs wakes n 1 0 x (λ j h. quiet j (omega arith))
        ∙ ap (λ j. loop_from wakes 1 j (after_turns wakes j x)) (plus_none n)
        ∙ stops_at wakes n 0 (after_turns wakes n x) stop,
    ap (λ y. loop_from wakes n 0 y) (sym (at_start wakes x))
        ∙ ap (λ t. loop_from wakes t 0 (after_turns wakes 0 x)) (sym (none_more n))
        ∙ loop_runs wakes n 0 0 x (λ j h. quiet j (omega arith))
        ∙ no_turns wakes (0 + n) (after_turns wakes (0 + n) x),
    after_turns-next wakes n x,
  )
