-- ===== src/Metrics/Collect/Notes.antt =====
-- metrics_run_note of src/metrics.c over many cycles.
use minimoni.Prelude.{
  Bool, List, [], arith, false, ltb, suc, true, zero, ℕ, ◌+◌, ◌<◌, ◌==◌, ◌∷◌, ◌≡◌,
}
use minimoni.Metrics.Collect.{Note, collection_failed, metrics_run_note, note_all, recovered_after}

-- The failed cycles.
unfoldable pub failures : List Bool → ℕ
failures [] = 0
failures (true ∷ rcs) = failures rcs
failures (false ∷ rcs) = failures rcs + 1

-- The cycles that the messages of a recovery count.
unfoldable pub reported : List Note → ℕ
reported [] = 0
reported (collection_failed ∷ ns) = reported ns
reported (recovered_after n ∷ ns) = n + reported ns

-- A failure is followed by its recovery, of one cycle or more, and a recovery by a failure: `true`
-- in a run.
unfoldable pub Alternates : Bool → List Note → Type 0
Alternates b [] = Unit
Alternates false (collection_failed ∷ ns) = Alternates true ns
Alternates true (collection_failed ∷ ns) = ⊥
Alternates false (recovered_after n ∷ ns) = ⊥
Alternates true (recovered_after n ∷ ns) = (0 < n) × Alternates false ns

note_all_from-Alternates :
    (rcs : List Bool) (failed : ℕ) → Alternates (ltb 0 failed) (note_all failed rcs).1
unfolding note_all metrics_run_note Alternates
note_all_from-Alternates [] failed = tt
note_all_from-Alternates (true ∷ rcs) zero = note_all_from-Alternates rcs 0
note_all_from-Alternates (true ∷ rcs) (suc n) =
    let ran : ltb 0 (suc n) ≡ true = ground arith in
    rw ran (omega arith, note_all_from-Alternates rcs 0)
note_all_from-Alternates (false ∷ rcs) zero = note_all_from-Alternates rcs 1
note_all_from-Alternates (false ∷ rcs) (suc n) =
    let running : (suc n == 0) ≡ false = ground arith in
    let same : ltb 0 (suc n + 1) ≡ ltb 0 (suc n) = ground arith in
    rw (running, ← same) (note_all_from-Alternates rcs (suc n + 1))

note_all-counts :
    (rcs : List Bool) (failed : ℕ)
    → failed + failures rcs ≡ reported (note_all failed rcs).1 + (note_all failed rcs).0
unfolding note_all metrics_run_note failures reported
note_all-counts [] failed = omega arith
note_all-counts (true ∷ rcs) zero = omega (arith, note_all-counts rcs 0)
note_all-counts (true ∷ rcs) (suc n) =
    let ran : ltb 0 (suc n) ≡ true = ground arith in rw ran (omega (arith, note_all-counts rcs 0))
note_all-counts (false ∷ rcs) zero = omega (arith, note_all-counts rcs 1)
note_all-counts (false ∷ rcs) (suc n) =
    let running : (suc n == 0) ≡ false = ground arith in
    rw running (omega (arith, note_all-counts rcs (suc n + 1)))

-- Over any cycles from the start the messages are a failure and a recovery in turn, and every
-- failed cycle is counted by one recovery, or is in the run that has not ended.
pub note_all-Alternates :
    (rcs : List Bool)
    → Alternates false (note_all 0 rcs).1
      × (failures rcs ≡ reported (note_all 0 rcs).1 + (note_all 0 rcs).0)
note_all-Alternates rcs = (note_all_from-Alternates rcs 0, omega (arith, note_all-counts rcs 0))
