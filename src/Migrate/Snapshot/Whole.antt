-- ===== src/Migrate/Snapshot/Whole.antt =====
-- The results of migrate_snapshot in src/migrate/snapshot.c.
use minimoni.Prelude.{
  All, Bool, Bool-cases, ap, arith, false, if-holds, if◌then◌else◌, inl, inr, not, refl, subst, sym,
  true, ◌&&◌, ◌∙◌, ◌≡◌, ◌⊎◌,
}
use minimoni.Migrate.Snapshot.{
  Content, Copying, Files, SqliteFile, copied, database, dst, fill_tmp, fresh, journal,
  migrate_snapshot, nothing, put, remove_file, remove_sidecars, rename_over, replace_dst, shm,
  suffixes, tmp, unlink_tmp, vacuum, wal,
}
use minimoni.Migrate.Snapshot.Removed.{
  all_removable, remove_from-Spared, remove_from-apart, remove_from-gone, removes,
}

-- Whether nothing fails.
abbrev pub works : Copying → Bool
works env =
    env.tmp_path_fits
    && (env.removable tmp database
        && (all_removable env tmp suffixes
            && (env.created && (env.vacuumed && (all_removable env dst suffixes && env.renamed)))))

module _ (env : Copying) where
  -- The copy stands at the destination with nothing beside it.
  abbrev pub IsReplaced : Files → Type 0
  IsReplaced after =
      (after dst database ≡ copied)
      × (after tmp database ≡ nothing)
      × All (λ f. after dst f ≡ nothing) suffixes

  -- The destination is as it was, but that a file beside it may be gone once the copy was complete;
  -- and the temporary name is free, unless its removal failed, at first or at the end.
  abbrev pub IsKept : Files → Files → Type 0
  IsKept fs after =
      (after dst database ≡ fs dst database)
      × All (λ f. (after dst f ≡ fs dst f) ⊎ ((env.vacuumed ≡ true) × (after dst f ≡ nothing)))
          suffixes
      × ((after tmp database ≡ nothing)
          ⊎ ((env.tmp_path_fits && env.removable tmp database) ≡ false)
          ⊎ (env.tmp_unlinked ≡ false))

  abbrev pub IsSnapshot : Files → Files × Bool → Type 0
  IsSnapshot fs (after, ok) = ((ok ≡ true) × IsReplaced after) ⊎ ((ok ≡ false) × IsKept fs after)

  unlink_tmp-dst : (fs : Files) (f : SqliteFile) → unlink_tmp env fs dst f ≡ fs dst f
  unlink_tmp-dst fs f = elim (Bool-cases env.tmp_unlinked) [
    | inl e ↦ simp e refl
    | inr e ↦ simp e refl
  ]

  unlink_tmp-tmp :
      (fs : Files) → (unlink_tmp env fs tmp database ≡ nothing) ⊎ (env.tmp_unlinked ≡ false)
  unlink_tmp-tmp fs = elim (Bool-cases env.tmp_unlinked) [
    | inl e ↦ inl (simp e refl)
    | inr e ↦ inr e
  ]

  -- What a failure leaves that unlinks tmp, of a state whose destination is as it was.
  unlinked-IsKept :
      (fs bare : Files)
      → bare dst database ≡ fs dst database
      → ((f : SqliteFile)
          → (bare dst f ≡ fs dst f) ⊎ ((env.vacuumed ≡ true) × (bare dst f ≡ nothing)))
      → IsKept fs (unlink_tmp env bare)
  unlinked-IsKept fs bare same beside = (
    unlink_tmp-dst bare database ∙ same,
    (at journal, (at wal, (at shm, tt))),
    elim (unlink_tmp-tmp bare) [ inl e ↦ inl e | inr e ↦ inr (inr e) ],
  )
    where
      at :
          (f : SqliteFile)
          → (unlink_tmp env bare dst f ≡ fs dst f)
            ⊎ ((env.vacuumed ≡ true) × (unlink_tmp env bare dst f ≡ nothing))
      at f = elim (beside f) [
        | inl e ↦ inl (unlink_tmp-dst bare f ∙ e)
        | inr (v, e) ↦ inr (v, unlink_tmp-dst bare f ∙ e)
      ]

  renamed-IsReplaced :
      (bare : Files)
      → bare tmp database ≡ copied
      → All (λ f. bare dst f ≡ nothing) suffixes
      → IsReplaced (put tmp database nothing (put dst database (bare tmp database) bare))
  renamed-IsReplaced bare whole gone = (whole, refl, gone)

  replace_dst-IsSnapshot :
      (fs : Files)
      → env.vacuumed ≡ true
      → fs tmp database ≡ copied
      → IsSnapshot fs (replace_dst env fs)
  unfolding replace_dst
  replace_dst-IsSnapshot fs v whole =
      let bare = (remove_sidecars env dst fs).0 in
      let same = remove_from-apart env dst suffixes fs dst database (refl, (refl, (refl, tt))) in
      let there = remove_from-apart env dst suffixes fs tmp database (refl, (refl, (refl, tt))) in
      let beside = λ (f : SqliteFile). spared v (remove_from-Spared env dst suffixes fs dst f) in
      if-holds (IsSnapshot fs) (not (remove_sidecars env dst fs).1) (unlink_tmp env bare, false)
        (rename_over env bare) (λ stuck. inr (refl, unlinked-IsKept fs bare same beside))
        (λ removed.
          if-holds (IsSnapshot fs) (not env.renamed) (unlink_tmp env bare, false) _
            (λ held. inr (refl, unlinked-IsKept fs bare same beside))
            (λ renamed.
              let ok : all_removable env dst suffixes ≡ true =
                sym (removes env dst suffixes fs) ∙ removed_all _ removed in
              inl (
                refl,
                renamed-IsReplaced bare (there ∙ whole) (remove_from-gone env dst suffixes fs ok),
              )))
    where
      removed_all : (ok : Bool) → not ok ≡ false → ok ≡ true
      removed_all ok h = ground arith

      spared :
          {x y : Content}
          → env.vacuumed ≡ true
          → (y ≡ x) ⊎ (y ≡ nothing)
          → (y ≡ x) ⊎ ((env.vacuumed ≡ true) × (y ≡ nothing))
      spared v (inl e) = inl e
      spared v (inr e) = inr (v, e)

  -- Behind steps that leave the destination as it is.
  IsSnapshot-behind :
      (fs mid : Files) (r : Files × Bool)
      → ((f : SqliteFile) → mid dst f ≡ fs dst f)
      → IsSnapshot mid r
      → IsSnapshot fs r
  IsSnapshot-behind fs mid (after, ok) same (inl done) = inl done
  IsSnapshot-behind fs mid (after, ok) same (inr (e, (kept, (a, (b, (c, d))), free))) =
      inr (e, (kept ∙ same database, (at journal a, (at wal b, (at shm c, tt))), free))
    where
      at :
          (f : SqliteFile)
          → (after dst f ≡ mid dst f) ⊎ ((env.vacuumed ≡ true) × (after dst f ≡ nothing))
          → (after dst f ≡ fs dst f) ⊎ ((env.vacuumed ≡ true) × (after dst f ≡ nothing))
      at f (inl e) = inl (e ∙ same f)
      at f (inr e) = inr e

  fill_tmp-IsSnapshot : (fs : Files) → fs tmp database ≡ nothing → IsSnapshot fs (fill_tmp env fs)
  unfolding fill_tmp
  fill_tmp-IsSnapshot fs free =
      let filled = vacuum env (put tmp database fresh fs) in
      if-holds (IsSnapshot fs) (not env.created) (fs, false) _
        (λ refused. inr (refl, (refl, (inl refl, (inl refl, (inl refl, tt))), inl free)))
        (λ made.
          if-holds (IsSnapshot fs) (not env.vacuumed) (unlink_tmp env filled, false)
            (replace_dst env filled)
            (λ failed. inr (refl, unlinked-IsKept fs filled refl (λ f. inl refl)))
            (λ full.
              let v : env.vacuumed ≡ true = ground arith in
              IsSnapshot-behind fs filled (replace_dst env filled) (λ f. refl)
                (replace_dst-IsSnapshot filled v (rw v refl))))

  -- A failure that leaves all as it was.
  untouched-IsKept :
      (fs : Files) → (env.tmp_path_fits && env.removable tmp database) ≡ false → IsKept fs fs
  untouched-IsKept fs stuck = (refl, (inl refl, (inl refl, (inl refl, tt))), inr (inl stuck))

  -- Once the temporary name is free.
  cleared-IsSnapshot :
      (fs : Files)
      → let cleared = put tmp database nothing fs in
        let (bare, ok) = remove_sidecars env tmp cleared in
        IsSnapshot fs (if not ok then (bare, false) else fill_tmp env bare)
  cleared-IsSnapshot fs =
      let cleared = put tmp database nothing fs in
      let bare = (remove_sidecars env tmp cleared).0 in
      let free =
        remove_from-apart env tmp suffixes cleared tmp database (refl, (refl, (refl, tt))) in
      let same = λ (f : SqliteFile).
        remove_from-apart env tmp suffixes cleared dst f (refl, (refl, (refl, tt))) in
      if-holds (IsSnapshot fs) (not (remove_sidecars env tmp cleared).1) (bare, false)
        (fill_tmp env bare)
        (λ stuck. inr (
          refl,
          (same database, (inl (same journal), (inl (same wal), (inl (same shm), tt))), inl free),
        ))
        (λ removed.
          IsSnapshot-behind fs bare (fill_tmp env bare) same (fill_tmp-IsSnapshot bare free))

  migrate_snapshot-stuck :
      (fs : Files)
      → (env.tmp_path_fits ≡ false) ⊎ (env.removable tmp database ≡ false)
      → migrate_snapshot env fs ≡ (fs, false)
  unfolding migrate_snapshot remove_file
  migrate_snapshot-stuck fs (inl e) = simp e refl
  migrate_snapshot-stuck fs (inr h) = elim (Bool-cases env.tmp_path_fits) [
    | inl e ↦ simp (e, h) refl
    | inr e ↦ simp e refl
  ]

  migrate_snapshot-cleared :
      (fs : Files)
      → env.tmp_path_fits ≡ true
      → env.removable tmp database ≡ true
      → migrate_snapshot env fs ≡ (
          let cleared = put tmp database nothing fs in
          let (bare, ok) = remove_sidecars env tmp cleared in
          if not ok then (bare, false) else fill_tmp env bare)
  unfolding migrate_snapshot remove_file
  migrate_snapshot-cleared fs e h = simp (e, h) refl

  stuck-IsSnapshot :
      (fs : Files)
      → (env.tmp_path_fits ≡ false) ⊎ (env.removable tmp database ≡ false)
      → (env.tmp_path_fits && env.removable tmp database) ≡ false
      → IsSnapshot fs (migrate_snapshot env fs)
  stuck-IsSnapshot fs e both =
      subst (IsSnapshot fs) (sym (migrate_snapshot-stuck fs e))
        (inr (refl, untouched-IsKept fs both))

  migrate_snapshot-IsSnapshot : (fs : Files) → IsSnapshot fs (migrate_snapshot env fs)
  migrate_snapshot-IsSnapshot fs = elim (Bool-cases env.tmp_path_fits) [
    | inr e ↦ stuck-IsSnapshot fs (inl e) (ground arith)
    | inl e ↦ elim (Bool-cases (env.removable tmp database)) [
      | inr h ↦ stuck-IsSnapshot fs (inr h) (ground arith)
      | inl h ↦
          subst (IsSnapshot fs) (sym (migrate_snapshot-cleared fs e h)) (cleared-IsSnapshot fs)
    ]
  ]

  if_ok :
      (ok : Bool) (x : Files) (y : Files × Bool) → (if not ok then (x, false) else y).1 ≡ ok && y.1
  if_ok true x y = refl
  if_ok false x y = refl

  renamed_true : env.renamed && true ≡ env.renamed
  renamed_true = ground arith

  replace_dst-works :
      (fs : Files) → (replace_dst env fs).1 ≡ all_removable env dst suffixes && env.renamed
  unfolding replace_dst
  replace_dst-works fs =
      let bare = (remove_sidecars env dst fs).0 in
      if_ok (remove_sidecars env dst fs).1 (unlink_tmp env bare) (rename_over env bare)
      ∙ ap (λ ok. (remove_sidecars env dst fs).1 && ok)
          (if_ok env.renamed (unlink_tmp env bare) _ ∙ renamed_true)
      ∙ ap (λ ok. ok && env.renamed) (removes env dst suffixes fs)

  fill_tmp-works :
      (fs : Files)
      → (fill_tmp env fs).1
        ≡ env.created && (env.vacuumed && (all_removable env dst suffixes && env.renamed))
  unfolding fill_tmp
  fill_tmp-works fs =
      let filled = vacuum env (put tmp database fresh fs) in
      if_ok env.created fs _
      ∙ ap (λ ok. env.created && ok)
          (if_ok env.vacuumed (unlink_tmp env filled) (replace_dst env filled)
            ∙ ap (λ ok. env.vacuumed && ok) (replace_dst-works filled))

  remove_file-works :
      (fs : Files) → (remove_file env tmp database fs).1 ≡ env.removable tmp database
  unfolding remove_file
  remove_file-works fs = ground arith

  migrate_snapshot-works : (fs : Files) → (migrate_snapshot env fs).1 ≡ works env
  unfolding migrate_snapshot
  migrate_snapshot-works fs =
      let cleared = (remove_file env tmp database fs).0 in
      let bare = (remove_sidecars env tmp cleared).0 in
      let filled = if_ok (remove_sidecars env tmp cleared).1 bare (fill_tmp env bare) in
      if_ok env.tmp_path_fits fs _
      ∙ ap (λ ok. env.tmp_path_fits && ok)
          (if_ok (remove_file env tmp database fs).1 cleared _
            ∙ ap (λ ok. (remove_file env tmp database fs).1 && ok) filled
            ∙ rw (remove_file-works fs, removes env tmp suffixes cleared, fill_tmp-works bare) refl)

  -- Success is answered exactly if no step fails. Then the complete copy stands at the destination,
  -- with nothing at the temporary name and no file of the replaced database beside it. After a
  -- failure the file at the destination is as it was, and so is each file beside it, but that it may
  -- be gone where the copy was complete already; and nothing stands at the temporary name, unless
  -- its name is too long or its removal failed, at first or at the end.
  pub migrate_snapshot-whole :
      (fs : Files)
      → ((migrate_snapshot env fs).1 ≡ works env) × IsSnapshot fs (migrate_snapshot env fs)
  migrate_snapshot-whole fs = (migrate_snapshot-works fs, migrate_snapshot-IsSnapshot fs)
