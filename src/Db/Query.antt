-- ===== src/Db/Query.antt =====
-- src/db.c: db_current, db_count_range and db_query_range. `prepared` is whether
-- sqlite3_prepare_v2 succeeds. A heap block is the list of its cells, `none` while not written; a write
-- outside of it changes nothing. The counts are ints, which memory bounds first.
pub mod Whole
use minimoni.Prelude.{
  Bool, List, Option, [], if◌then◌else◌, leb, length, ltb, none, not, refuse, replicate, select,
  set, some, ℕ, ◌&&◌, ◌*◌, ◌++◌, ◌+◌, ◌==◌, ◌>>=◌, ◌∷◌,
}
use minimoni.Db.Tiers.{Row, groups}
use minimoni.Db.Store.{Rc, Store, is_done, is_row, row}

-- What db_current answers: 0 with the row, 1 and -1.
pub data Current (V : Type 0) : Type 0 where
  current : Row V → Current V
  no_rows : Current V
  not_prepared : Current V

-- cap and cnt, with the block that `rows` points to
pub record Growing (A : Type 0) : Type 0 where
  pub cap : ℕ
  pub cnt : ℕ
  pub rows : List (Option A)

module _ {V : Type 0} where
  abbrev pub newer : Row V → Option (Row V) → Row V
  newer r none = r
  newer r (some n) = if ltb n.ts r.ts then r else n

  -- ORDER BY timestamp DESC LIMIT 1: of equal timestamps the row that was inserted last.
  unfoldable pub newest : List (Row V) → Option (Row V)
  newest [] = none
  newest (r ∷ rs) = some (newer r (newest rs))

  abbrev pub stepped : Rc → Option (Row V) → Current V
  stepped row (some r) = current r
  stepped _ _ = no_rows

  unfoldable pub db_current : Bool → Rc → Store V → Current V
  db_current prepared rc s = if not prepared then not_prepared else stepped rc (newest s.metrics)

  -- WHERE timestamp >= now - range
  abbrev pub in_range : ℕ → ℕ → Row V → Bool
  in_range range_seconds now r = leb now (r.ts + range_seconds)

  -- `none` for -1
  unfoldable pub db_count_range : ℕ → ℕ → Bool → Rc → Store V → Option ℕ
  db_count_range range_seconds now prepared rc s =
      if prepared && is_row rc
      then some (length (select (in_range range_seconds now) s.metrics))
      else none

  -- ORDER BY ts
  unfoldable pub insert_by_ts : Row V → List (Row V) → List (Row V)
  insert_by_ts r [] = r ∷ []
  insert_by_ts r (x ∷ xs) =
      let rest = insert_by_ts r xs in if leb r.ts x.ts then r ∷ x ∷ xs else x ∷ rest

  unfoldable pub order_by_ts : List (Row V) → List (Row V)
  order_by_ts [] = []
  order_by_ts (r ∷ rs) = insert_by_ts r (order_by_ts rs)

  -- The rows that the two statements give, in order.
  unfoldable pub range_rows : (List V → V) → ℕ → ℕ → ℕ → Store V → List (Row V)
  range_rows avg range_seconds now bucket_sec s =
      let rows = select (in_range range_seconds now) s.metrics in
      order_by_ts (if bucket_sec == 0 then rows else groups avg bucket_sec rows)

module _ {A : Type 0} where
  abbrev pub blank : ℕ → List (Option A)
  blank n = replicate n none

  abbrev pub write_row : A → Growing A → Growing A
  write_row a g = record g { cnt = g.cnt + 1; rows = set g.rows g.cnt (some a) }

  -- cap *= 2; realloc, which gives `none` when it fails
  abbrev pub double : Bool → Growing A → Option (Growing A)
  double realloced g =
      refuse (not realloced) (record g { cap = g.cap * 2; rows = g.rows ++ blank g.cap })

  abbrev pub room_for : Bool → Growing A → Option (Growing A)
  room_for realloced g = if g.cnt == g.cap then double realloced g else some g

  -- The loop. `alloc n` is whether the allocation of n rows succeeds, and the rows are those that
  -- sqlite3_step gives before its last result.
  unfoldable pub fetch : (ℕ → Bool) → List A → Growing A → Option (Growing A)
  fetch alloc [] g = some g
  fetch alloc (a ∷ as_rows) g = do
    roomy ← room_for (alloc (g.cap * 2)) g
    fetch alloc as_rows (write_row a roomy)

  abbrev pub started : Growing A
  started = record { cap = 512; cnt = 0; rows = blank 512 }

  -- `last` is the result that ends the loop.
  unfoldable pub fetch_all : (ℕ → Bool) → List A → Rc → Option (Growing A)
  fetch_all alloc rows last = do
    g ← refuse (not (alloc 512)) started
    full ← fetch alloc rows g
    refuse (not (is_done last)) full

module _ {V : Type 0} where
  -- *out_rows, with its count; `none` for -1
  unfoldable pub db_query_range :
      (List V → V) → Bool → (ℕ → Bool) → Rc → ℕ → ℕ → ℕ → Store V → Option (Growing (Row V))
  db_query_range avg prepared alloc last range_seconds now bucket_sec s =
      if not prepared
      then none
      else fetch_all alloc (range_rows avg range_seconds now bucket_sec s) last
