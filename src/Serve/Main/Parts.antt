-- ===== src/Serve/Main/Parts.antt =====
-- The parts that run_serve and run_collect of src/main.c open.
use minimoni.Prelude.{
  Bool, List, [], false, if-holds, inl, inr, not, refl, true, ℕ, ◌&&◌, ◌||◌, ◌∷◌, ◌≡◌, ◌⊎◌,
}
use minimoni.Serve.Main.{
  CollectAnswers, Part, ServeAnswers, Step, closed, db, db_ro, http, judged, looped, opened,
  run_collect, run_serve,
}

abbrev same_part : Part → Part → Bool
same_part db db = true
same_part db_ro db_ro = true
same_part http http = true
same_part _ _ = false

-- Every part that is opened is closed, the last opened first, and work is done only with the
-- database open: `true` if so, with these parts open at the start.
unfoldable pub nested : List Part → List Step → Bool
nested [] [] = true
nested (p ∷ ps) [] = false
nested ps (opened p ∷ steps) = nested (p ∷ ps) steps
nested [] (closed q ∷ steps) = false
nested (p ∷ ps) (closed q ∷ steps) = same_part p q && nested ps steps
nested [] (_ ∷ steps) = false
nested ps (_ ∷ steps) = nested ps steps

unfoldable pub loops : List Step → Bool
loops [] = false
loops (looped ∷ steps) = true
loops (_ ∷ steps) = loops steps

unfoldable pub judges : List Step → Bool
judges [] = false
judges (judged ∷ steps) = true
judges (_ ∷ steps) = judges steps

-- It exits with 0 exactly if it did its work, and closes what it opened.
abbrev pub EndsWell : (List Step → Bool) → List Step × ℕ → Type 0
EndsWell works (steps, code) =
    (nested [] steps ≡ true)
    × (((code ≡ 0) × (works steps ≡ true)) ⊎ ((code ≡ 1) × (works steps ≡ false)))

run_serve-EndsWell : (a : ServeAnswers) → EndsWell loops (run_serve a)
unfolding run_serve nested loops
run_serve-EndsWell a =
    if-holds (EndsWell loops) (not a.config_ok) _ _ (λ e. (refl, inr (refl, refl)))
      (λ e.
        if-holds (EndsWell loops) (not a.db_ok) _ _ (λ e. (refl, inr (refl, refl)))
          (λ e.
            if-holds (EndsWell loops) (not a.db_ro_ok) _ _ (λ e. (refl, inr (refl, refl)))
              (λ e.
                if-holds (EndsWell loops) (not a.http_ok) _ _ (λ e. (refl, inr (refl, refl)))
                  (λ e. (refl, inl (refl, refl))))))

run_collect-EndsWell : (a : CollectAnswers) → EndsWell judges (run_collect a)
unfolding run_collect nested judges
run_collect-EndsWell a =
    if-holds (EndsWell judges) (not a.config_ok || not a.db_ok) _ _ (λ e. (refl, inr (refl, refl)))
      (λ e.
        if-holds (EndsWell judges) (not a.seed_ok) _ _ (λ e. (refl, inr (refl, refl)))
          (λ e.
            if-holds (EndsWell judges) (not a.sample_ok) _ _ (λ e. (refl, inr (refl, refl)))
              (λ e.
                if-holds (EndsWell judges) (not a.insert_ok) _ _ (λ e. (refl, inr (refl, refl)))
                  (λ e. (refl, inl (refl, refl))))))

-- Whatever fails on the way, both commands close every part that they opened, the last opened
-- first, work only while the database is open, and exit with 0 exactly if they got to their work.
pub run-EndsWell :
    (a : ServeAnswers) (b : CollectAnswers)
    → EndsWell loops (run_serve a) × EndsWell judges (run_collect b)
run-EndsWell a b = (run_serve-EndsWell a, run_collect-EndsWell b)
