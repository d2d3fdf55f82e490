-- ===== src/Db/Query/Whole.antt =====
-- The growing block of db_query_range in src/db.c.
use minimoni.Db.Store.{busy, done, error}
use minimoni.Prelude.{
  Bool, List, [], ap, append-nil, append_assoc, arith, false, if◌then◌else◌, length, length-append,
  map, none, refl, set, some, subst, suc, true, zero, ℕ, ◌*◌, ◌++◌, ◌+◌, ◌-◌, ◌==◌, ◌∙◌, ◌∷◌, ◌≡◌,
  ◌≤◌,
}
use minimoni.Db.Query.{Growing, blank, fetch, fetch_all, room_for, started, write_row}

module _ {A : Type 0} where
  -- The first cells hold the rows read so far, in order, and k more are allocated and blank.
  abbrev pub HoldsRows : List A → ℕ → Growing A → Type 0
  HoldsRows seen k g =
      (g.rows ≡ map some seen ++ blank k)
      × (g.cap ≡ length seen + k)
      × (g.cnt ≡ length seen)
      × (g.cap ≤ 512 + 2 * length seen)
      × (512 ≤ g.cap)

  set-blank :
      (seen : List A) (k : ℕ) (a : A)
      → set (map some seen ++ blank (suc k)) (length seen) (some a)
        ≡ map some (seen ++ a ∷ []) ++ blank k
  set-blank [] k a = refl
  set-blank (x ∷ seen) k a = ap (◌∷◌ (some x)) (set-blank seen k a)

  abbrev grown : Growing A → Growing A
  grown g = if g.cnt == g.cap then record g { cap = g.cap * 2; rows = g.rows ++ blank g.cap } else g

  room_for-grown : (g : Growing A) → room_for true g ≡ some (grown g)
  room_for-grown g = ground arith

  HoldsRows-grown :
      (seen : List A) (k : ℕ) (g : Growing A)
      → HoldsRows seen k g
      → (j : ℕ) × HoldsRows seen (suc j) (grown g)
  HoldsRows-grown seen zero g (cells, whole, count, low, high) =
      let full : (g.cnt == g.cap) ≡ true = ground arith in
      let more : g.cap ≡ suc (g.cap - 1) = omega arith in
      rw full (
        g.cap - 1,
        (
          ap (λ l. l ++ blank g.cap) cells
              ∙ append_assoc (map some seen) [] (blank g.cap)
              ∙ ap (λ n. map some seen ++ blank n) more,
          omega arith,
          count,
          omega arith,
          omega arith,
        ),
      )
  HoldsRows-grown seen (suc j) g (cells, whole, count, low, high) =
      let roomy : (g.cnt == g.cap) ≡ false = ground arith in
      rw roomy (j, (cells, whole, count, low, high))

  length-snoc : (seen : List A) (a : A) → length (seen ++ a ∷ []) ≡ length seen + 1
  length-snoc seen a = length-append seen (a ∷ [])

  HoldsRows-write :
      (seen : List A) (j : ℕ) (g : Growing A) (a : A)
      → HoldsRows seen (suc j) g
      → HoldsRows (seen ++ a ∷ []) j (write_row a g)
  HoldsRows-write seen j g a (cells, whole, count, low, high) = (
    ap (λ l. set l g.cnt (some a)) cells
        ∙ ap (λ n. set (map some seen ++ blank (suc j)) n (some a)) count
        ∙ set-blank seen j a,
    omega (arith, length-snoc seen a),
    omega (arith, length-snoc seen a),
    omega (arith, length-snoc seen a),
    high,
  )

  fetch-HoldsRows :
      (alloc : ℕ → Bool) (rows seen : List A) (k : ℕ) (g : Growing A)
      → ((n : ℕ) → alloc n ≡ true)
      → HoldsRows seen k g
      → (h : Growing A) × (j : ℕ) × (fetch alloc rows g ≡ some h) × HoldsRows (seen ++ rows) j h
  unfolding fetch
  fetch-HoldsRows alloc [] seen k g ok held = (g, k, refl, rw append-nil held)
  fetch-HoldsRows alloc (a ∷ rows) seen k g ok held =
      let (j, roomy) = HoldsRows-grown seen k g held in
      let (h, i, read, all) =
        fetch-HoldsRows alloc rows (seen ++ a ∷ []) j (write_row a (grown g)) ok
          (HoldsRows-write seen j (grown g) a roomy) in
      rw (ok (g.cap * 2), room_for-grown g)
        (h, i, read, subst (λ l. HoldsRows l i h) (append_assoc seen (a ∷ []) rows) all)

  -- If memory is there, the growing block ends up with all the rows that the statement gave, in
  -- their order, for any number of them: their count is returned, no write is outside of the block,
  -- and the block is at most 512 rows and twice the count. A statement that ends with an error gives
  -- nothing.
  pub fetch_all-whole :
      (alloc : ℕ → Bool) (rows : List A)
      → ((n : ℕ) → alloc n ≡ true)
      → ((h : Growing A) × (j : ℕ) × (fetch_all alloc rows done ≡ some h) × HoldsRows rows j h)
        × (fetch_all alloc rows error ≡ none)
        × (fetch_all alloc rows busy ≡ none)
  unfolding fetch_all
  fetch_all-whole alloc rows ok =
      let (h, j, read, held) =
        fetch-HoldsRows alloc rows [] 512 started ok
          (refl, omega arith, refl, omega arith, omega arith) in
      rw (ok 512, read) ((h, j, refl, held), refl, refl)
