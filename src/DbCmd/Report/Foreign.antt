-- ===== src/DbCmd/Report/Foreign.antt =====
-- What db_cmd_info of src/db_cmd.c reads of another application's file.
use minimoni.Prelude.{Bytes, Option, ap, false, none, refl, some, subst, ℕ, ℤ, ◌∙◌, ◌≡◌}
use minimoni.Double.{Double}
use minimoni.Db.Open.{application_id, holds}
use minimoni.DbCmd.Report.{InfoAnswers, db_cmd_info, head_text, sized}

module _ {D : Type 0} ⦃d : Double D⦄ (fixed : ℕ → D → Bytes) (timestamp : ℤ → Bytes) where
  abbrev AgreeOn : InfoAnswers D → InfoAnswers D → Type 0
  AgreeOn a b =
      ((a.db_size ≡ b.db_size) × (a.wal_size ≡ b.wal_size) × (a.shm_size ≡ b.shm_size))
      × ((a.opened ≡ b.opened) × (a.app_id ≡ b.app_id) × (a.version ≡ b.version))

  sized-foreign :
      (size : Option ℕ) (db_path : Bytes) (a b : InfoAnswers D)
      → holds application_id (some b.app_id) ≡ false
      → AgreeOn a b
      → sized fixed timestamp size db_path a ≡ sized fixed timestamp size db_path b
  unfolding head_text
  sized-foreign none db_path a b foreign agree = refl
  sized-foreign (some s) db_path a b foreign ((size, wal, shm), (opens, app, ver)) =
      rw (wal, shm, opens, app, ver) (simp foreign refl)

  -- What `db info` prints of a file whose application_id is not minimoni's depends on the file's
  -- sizes, its application_id and its user_version only: whatever its tables hold, nothing of it is
  -- printed, and the exit code is the same.
  db_cmd_info-foreign :
      (db_path : Bytes) (a b : InfoAnswers D)
      → holds application_id (some a.app_id) ≡ false
      → AgreeOn a b
      → db_cmd_info fixed timestamp db_path a ≡ db_cmd_info fixed timestamp db_path b
  unfolding db_cmd_info
  db_cmd_info-foreign db_path a b foreign agree =
      let foreign_b = subst (λ z. holds application_id (some z) ≡ false) agree.1.1 foreign in
      ap (λ size. sized fixed timestamp size db_path a) agree.0.0
      ∙ sized-foreign b.db_size db_path a b foreign_b agree
