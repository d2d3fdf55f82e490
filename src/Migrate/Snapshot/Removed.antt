-- ===== src/Migrate/Snapshot/Removed.antt =====
-- What remove_sidecars of src/migrate/snapshot.c removes and leaves.
use minimoni.Prelude.{
  All, Bool, Bool-cases, List, [], arith, false, inl, inr, refl, subst, sym, true, ◌&&◌, ◌∙◌, ◌∷◌,
  ◌≡◌, ◌⊎◌,
}
use minimoni.Migrate.Snapshot.{
  Base, Content, Copying, Files, SqliteFile, database, dst, is_at, journal, nothing, put,
  remove_file, remove_from, shm, tmp, wal,
}

-- Whether every file of these names can be removed.
unfoldable pub all_removable : Copying → Base → List SqliteFile → Bool
all_removable env b [] = true
all_removable env b (f ∷ rest) =
    env.side_fits b f && (env.removable b f && all_removable env b rest)

module _ (env : Copying) where
  pub removes :
      (b : Base) (rest : List SqliteFile) (fs : Files)
      → (remove_from env b rest fs).1 ≡ all_removable env b rest
  unfolding remove_from remove_file all_removable
  removes b [] fs = refl
  removes b (f ∷ rest) fs = elim (Bool-cases (env.side_fits b f)) [
    | inr e ↦ simp e refl
    | inl e ↦ elim (Bool-cases (env.removable b f)) [
      | inr h ↦ simp (e, h) refl
      | inl h ↦ simp (e, h) (removes b rest (put b f nothing fs))
    ]
  ]

  -- A removal leaves each file, or leaves none in its place.
  abbrev Spared : Files → Files → Base → SqliteFile → Type 0
  Spared fs after c g = (after c g ≡ fs c g) ⊎ (after c g ≡ nothing)

  put-Spared :
      (b : Base) (f : SqliteFile) (fs : Files) (c : Base) (g : SqliteFile)
      → Spared fs (put b f nothing fs) c g
  put-Spared b f fs c g = elim (Bool-cases (is_at b f c g)) [
    | inl e ↦ inr (rw e refl)
    | inr e ↦ inl (rw e refl)
  ]

  chained :
      {x y z : Content}
      → (z ≡ y) ⊎ (z ≡ nothing)
      → (y ≡ x) ⊎ (y ≡ nothing)
      → (z ≡ x) ⊎ (z ≡ nothing)
  chained (inr h) k = inr h
  chained (inl h) (inl k) = inl (h ∙ k)
  chained (inl h) (inr k) = inr (h ∙ k)

  pub remove_from-Spared :
      (b : Base) (rest : List SqliteFile) (fs : Files) (c : Base) (g : SqliteFile)
      → Spared fs (remove_from env b rest fs).0 c g
  unfolding remove_from remove_file
  remove_from-Spared b [] fs c g = inl refl
  remove_from-Spared b (f ∷ rest) fs c g = elim (Bool-cases (env.side_fits b f)) [
    | inr e ↦ simp e (inl refl)
    | inl e ↦ elim (Bool-cases (env.removable b f)) [
      | inr h ↦ simp (e, h) (inl refl)
      | inl h ↦
          simp (e, h)
            (chained (remove_from-Spared b rest (put b f nothing fs) c g) (put-Spared b f fs c g))
    ]
  ]

  -- A file with another name stays.
  pub remove_from-apart :
      (b : Base) (rest : List SqliteFile) (fs : Files) (c : Base) (g : SqliteFile)
      → All (λ f. is_at b f c g ≡ false) rest
      → (remove_from env b rest fs).0 c g ≡ fs c g
  unfolding remove_from remove_file
  remove_from-apart b [] fs c g h = refl
  remove_from-apart b (f ∷ rest) fs c g (one, others) = elim (Bool-cases (env.side_fits b f)) [
    | inr e ↦ simp e refl
    | inl e ↦ elim (Bool-cases (env.removable b f)) [
      | inr h ↦ simp (e, h) refl
      | inl h ↦ simp (e, h) (remove_from-apart b rest (put b f nothing fs) c g others ∙ rw one refl)
    ]
  ]

  settled : {x y : Content} → (y ≡ x) ⊎ (y ≡ nothing) → x ≡ nothing → y ≡ nothing
  settled (inl h) k = h ∙ k
  settled (inr h) k = h

  same_at : (b : Base) (f : SqliteFile) → is_at b f b f ≡ true
  same_at dst database = refl
  same_at dst journal = refl
  same_at dst wal = refl
  same_at dst shm = refl
  same_at tmp database = refl
  same_at tmp journal = refl
  same_at tmp wal = refl
  same_at tmp shm = refl

  remove_from-next :
      (b : Base) (f : SqliteFile) (rest : List SqliteFile) (fs : Files)
      → env.side_fits b f ≡ true
      → env.removable b f ≡ true
      → remove_from env b (f ∷ rest) fs ≡ remove_from env b rest (put b f nothing fs)
  unfolding remove_from remove_file
  remove_from-next b f rest fs e h = simp (e, h) refl

  pub remove_from-gone :
      (b : Base) (rest : List SqliteFile) (fs : Files)
      → all_removable env b rest ≡ true
      → All (λ f. (remove_from env b rest fs).0 b f ≡ nothing) rest
  unfolding all_removable
  remove_from-gone b [] fs ok = tt
  remove_from-gone b (f ∷ rest) fs ok =
      let next = remove_from-next b f rest fs (ground arith) (ground arith) in
      let gone =
        settled (remove_from-Spared b rest (put b f nothing fs) b f) (rw (same_at b f) refl) in
      subst (λ r. All (λ g. r.0 b g ≡ nothing) (f ∷ rest)) (sym next)
        (gone, remove_from-gone b rest (put b f nothing fs) (ground arith))
