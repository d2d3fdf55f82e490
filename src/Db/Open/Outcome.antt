-- ===== src/Db/Open/Outcome.antt =====
-- What db_open of src/db.c leaves.
use minimoni.Prelude.{
  Bool, List, [], arith, false, if-holds, if◌then◌else◌, inl, inr, not, refl, select, select-append,
  suc, true, zero, ℕ, ◌&&◌, ◌++◌, ◌+◌, ◌||◌, ◌∙◌, ◌∷◌, ◌≡◌, ◌⊎◌,
}
use minimoni.Db.Open.{
  Answers, Db, Effect, application_id, check_or_create, close_handle, create_file, create_schema,
  db_close, db_open, holds, open_handle, pragmas, prepare_all, prepare_from, schema_version,
  write_application_id, write_user_version, zeroed,
}

-- What stamps a database as this version's.
abbrev pub stamps : Effect → Bool
stamps create_schema = true
stamps write_application_id = true
stamps write_user_version = true
stamps _ = false

abbrev pub opens : Effect → ℕ
opens open_handle = 1
opens _ = 0

abbrev pub closes : Effect → ℕ
closes close_handle = 1
closes _ = 0

unfoldable pub total : (Effect → ℕ) → List Effect → ℕ
total f [] = 0
total f (e ∷ es) = f e + total f es

abbrev pub Ready : Db → Type 0
Ready db = (db.handle ≡ true) × (db.statements ≡ 5) × (db.sql_consolidate ≡ true)

-- Every handle opened is closed again, and db_t holds none.
abbrev pub Released : Db → List Effect → Type 0
Released db effects = (db ≡ zeroed) × (total opens effects ≡ total closes effects)

abbrev pub IsOurs : Answers → Type 0
IsOurs a = (holds application_id a.app_id ≡ true) × (holds schema_version a.version ≡ true)

abbrev pub Outcome : Answers → Db × List Effect × Bool → Type 0
Outcome a (db, effects, ok) =
    ((ok ≡ true)
      × Ready db
      × ((a.existed_before ≡ false) ⊎ (IsOurs a × (select stamps effects ≡ []))))
    ⊎ ((ok ≡ false)
        × Released db effects
        × ((a.existed_before ≡ false) ⊎ (select stamps effects ≡ [])))

total-append : (f : Effect → ℕ) (xs ys : List Effect) → total f (xs ++ ys) ≡ total f xs + total f ys
unfolding total
total-append f [] ys = omega arith
total-append f (x ∷ xs) ys = omega (arith, total-append f xs ys)

-- One handle is open.
abbrev OneOpen : List Effect → Type 0
OneOpen effects = total opens effects ≡ total closes effects + 1

-- The file is new, or has this version and was not stamped.
abbrev IsSpared : Answers → List Effect → Type 0
IsSpared a effects = (a.existed_before ≡ false) ⊎ (select stamps effects ≡ [])

IsSpared-append :
    (a : Answers) (effects more : List Effect)
    → IsSpared a effects
    → IsSpared a more
    → IsSpared a (effects ++ more)
IsSpared-append a effects more (inl new) small = inl new
IsSpared-append a effects more (inr clean) (inl new) = inl new
IsSpared-append a effects more (inr clean) (inr small) =
    inr (select-append stamps effects more ∙ rw (clean, small) refl)

total_more :
    (effects more : List Effect)
    → OneOpen effects
    → total opens more + 1 ≡ total closes more
    → total opens (effects ++ more) ≡ total closes (effects ++ more)
total_more effects more one close =
    omega (arith, total-append opens effects more, total-append closes effects more)

closed-Released :
    (a : Answers) (effects more : List Effect)
    → OneOpen effects
    → IsSpared a effects
    → total opens more + 1 ≡ total closes more
    → IsSpared a more
    → Outcome a (zeroed, effects ++ more, false)
closed-Released a effects more one spared close small =
    inr
      (refl, (refl, total_more effects more one close), IsSpared-append a effects more spared small)

prepare_from-all :
    (prepared : ℕ → Bool) (left i : ℕ)
    → (prepare_from prepared left i).1 ≡ true
    → (prepare_from prepared left i).0 ≡ i + left
unfolding prepare_from
prepare_from-all prepared zero i h = omega arith
prepare_from-all prepared (suc left) i h = ground (arith, prepare_from-all prepared left (i + 1))

IsSpared-of :
    (a : Answers) (effects : List Effect)
    → (a.existed_before ≡ false) ⊎ (IsOurs a × (select stamps effects ≡ []))
    → IsSpared a effects
IsSpared-of a effects (inl new) = inl new
IsSpared-of a effects (inr (ours, clean)) = inr clean

prepare_all-Outcome :
    (a : Answers) (effects : List Effect)
    → OneOpen effects
    → (a.existed_before ≡ false) ⊎ (IsOurs a × (select stamps effects ≡ []))
    → Outcome a (prepare_all a effects)
unfolding prepare_all db_close
prepare_all-Outcome a effects one ours =
    let five = prepare_from-all a.prepared 5 0 in
    if-holds (Outcome a) ((prepare_from a.prepared 5 0).1 && a.allocated)
      (
        record {
          handle = true;
          statements = (prepare_from a.prepared 5 0).0;
          sql_consolidate = (prepare_from a.prepared 5 0).1 && a.allocated;
        },
        effects,
        true,
      )
      (zeroed, effects ++ close_handle ∷ [], false)
      (λ e. inl (refl, (refl, ground (arith, five), e), ours))
      (λ e.
        closed-Released a effects (close_handle ∷ []) one (IsSpared-of a effects ours)
          (unfold total in omega arith) (inr (unfold select in refl)))

created_one :
    (effects : List Effect)
    → OneOpen effects
    → OneOpen (effects ++ create_schema ∷ write_application_id ∷ write_user_version ∷ [])
created_one effects one =
    let more : List Effect = create_schema ∷ write_application_id ∷ write_user_version ∷ [] in
    let none_opened : total opens more ≡ 0 = unfold total in refl in
    let none_closed : total closes more ≡ 0 = unfold total in refl in
    omega (arith, total-append opens effects more, total-append closes effects more)

check_or_create-Outcome :
    (a : Answers) (effects : List Effect)
    → OneOpen effects
    → select stamps effects ≡ []
    → Outcome a (check_or_create a effects)
unfolding check_or_create
check_or_create-Outcome a effects one clean =
    if-holds (Outcome a) a.existed_before _ _
      (λ old.
        if-holds (Outcome a)
          (not (holds application_id a.app_id) || not (holds schema_version a.version)) _ _
          (λ other.
            closed-Released a effects (close_handle ∷ []) one (inr clean)
              (unfold total in omega arith) (inr (unfold select in refl)))
          (λ same.
            prepare_all-Outcome a effects one
              (inr ((ground (arith, same), ground (arith, same)), clean))))
      (λ new.
        if-holds (Outcome a) (not a.schema_created) _ _
          (λ failed.
            closed-Released a effects (create_schema ∷ close_handle ∷ []) one (inr clean)
              (unfold total in omega arith) (inl new))
          (λ made. prepare_all-Outcome a _ (created_one effects one) (inl new)))

abbrev file_made : Bool → List Effect
file_made existed = if existed then [] else create_file ∷ []

opened_one : (existed : Bool) → OneOpen (file_made existed ++ open_handle ∷ pragmas)
unfolding total
opened_one true = refl
opened_one false = refl

opened_clean : (existed : Bool) → select stamps (file_made existed ++ open_handle ∷ pragmas) ≡ []
unfolding select
opened_clean true = refl
opened_clean false = refl

not_opened :
    (a : Answers) (existed : Bool)
    → Outcome a (zeroed, file_made existed ++ open_handle ∷ close_handle ∷ [], false)
unfolding select total
not_opened a true = inr (refl, (refl, refl), inr refl)
not_opened a false = inr (refl, (refl, refl), inr refl)

untouched : (a : Answers) → Outcome a (zeroed, [], false)
unfolding select total
untouched a = inr (refl, (refl, refl), inr refl)

-- db_open either succeeds with the connection, its five statements and its buffer ready, on a new
-- file or one of this application and version, or it fails with every handle closed and db_t empty.
-- A file that was there is never stamped with the schema, the application id or the version.
pub db_open-Outcome : (a : Answers) → Outcome a (db_open a)
unfolding db_open
db_open-Outcome a =
    if-holds (Outcome a) (a.existed_before && a.is_directory) _ _ (λ directory. untouched a)
      (λ file.
        if-holds (Outcome a) (not a.existed_before && not a.created) _ _ (λ missing. untouched a)
          (λ there.
            if-holds (Outcome a) (not a.opened) _ _ (λ failed. not_opened a a.existed_before)
              (λ opened_file.
                check_or_create-Outcome a _ (opened_one a.existed_before)
                  (opened_clean a.existed_before))))
