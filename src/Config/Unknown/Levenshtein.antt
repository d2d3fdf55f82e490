-- ===== src/Config/Unknown/Levenshtein.antt =====
-- key_distance of src/config.c against the recursive definition of the distance.
use Prim.Native.Nat.{min}
use minimoni.Prelude.{
  Bytes, List, [], ap, arith, if◌then◌else◌, leb, length, refl, suc, ℕ, ◌+◌, ◌==◌, ◌∙◌, ◌∷◌, ◌≡◌,
}
use minimoni.Config.Unknown.{best_of, count_up, key_distance, last_of_row, row_step, rows_from}

-- The bytes from the last to the first, before those of `acc`.
unfoldable pub reverse_onto : Bytes → Bytes → Bytes
reverse_onto acc [] = acc
reverse_onto acc (c ∷ cs) = reverse_onto (c ∷ acc) cs

abbrev pub change : ℕ → ℕ → ℕ
change x y = if x == y then 0 else 1

-- The Levenshtein distance of two reversed texts: the fewest insertions, deletions and changes of
-- a byte, by its recursion on the last bytes.
unfoldable pub levenshtein : Bytes → Bytes → ℕ
levenshtein [] b = length b
levenshtein (x ∷ a) [] = length a + 1
levenshtein (x ∷ a) (y ∷ b) =
    min (min (levenshtein a b + change x y) (levenshtein a (y ∷ b) + 1)) (levenshtein (x ∷ a) b + 1)

best_of-min :
    (x y diag above left : ℕ)
    → best_of (x == y) diag above left ≡ min (min (diag + change x y) (above + 1)) (left + 1)
best_of-min x y diag above left = ground arith

-- The row of a prefix of a, behind its first entry: the distances to the longer and longer prefixes
-- of b.
unfoldable row_for : Bytes → Bytes → Bytes → List ℕ
row_for ra rb [] = []
row_for ra rb (y ∷ b) = levenshtein ra (y ∷ rb) ∷ row_for ra (y ∷ rb) b

row_step-next :
    (c : ℕ) (ra rb b : Bytes)
    → row_step c (levenshtein ra rb) (levenshtein (c ∷ ra) rb) b (row_for ra rb b)
      ≡ row_for (c ∷ ra) rb b
unfolding row_step row_for levenshtein
row_step-next c ra rb [] = refl
row_step-next c ra rb (y ∷ b) =
    ap (λ v. v ∷ row_step c (levenshtein ra (y ∷ rb)) v b (row_for ra (y ∷ rb) b))
      (best_of-min c y (levenshtein ra rb) (levenshtein ra (y ∷ rb)) (levenshtein (c ∷ ra) rb))
    ∙ ap (◌∷◌ (levenshtein (c ∷ ra) (y ∷ rb))) (row_step-next c ra (y ∷ rb) b)

plus_one : (n : ℕ) → n + 1 ≡ suc n
plus_one n = omega arith

count_up-row : (b rb : Bytes) → count_up (length rb) b ≡ row_for [] rb b
unfolding count_up row_for levenshtein
count_up-row [] rb = refl
count_up-row (y ∷ b) rb =
    ap (λ n. n ∷ count_up n b) (plus_one (length rb))
    ∙ ap (◌∷◌ (suc (length rb))) (count_up-row b (y ∷ rb))

last-row :
    (ra b rb : Bytes)
    → last_of_row (levenshtein ra rb) (row_for ra rb b) ≡ levenshtein ra (reverse_onto rb b)
unfolding last_of_row row_for reverse_onto
last-row ra [] rb = refl
last-row ra (y ∷ b) rb = last-row ra b (y ∷ rb)

rows_from-last :
    (a ra b : Bytes)
    → (let (row0, row) = rows_from (length ra) a b (levenshtein ra []) (row_for ra [] b) in
        last_of_row row0 row)
      ≡ levenshtein (reverse_onto ra a) (reverse_onto [] b)
unfolding rows_from reverse_onto levenshtein
rows_from-last [] ra b = last-row ra b []
rows_from-last (c ∷ a) ra b =
    ap
      (λ n.
        last_of_row
          (rows_from n a b (length ra + 1)
            (row_step c (levenshtein ra []) (length ra + 1) b (row_for ra [] b))).0
          (rows_from n a b (length ra + 1)
            (row_step c (levenshtein ra []) (length ra + 1) b (row_for ra [] b))).1)
      (plus_one (length ra))
    ∙ ap
        (λ row.
          last_of_row (rows_from (suc (length ra)) a b (length ra + 1) row).0
            (rows_from (suc (length ra)) a b (length ra + 1) row).1)
        (row_step-next c ra [] b)
    ∙ rows_from-last a (c ∷ ra) b

-- The distance of a key to a known key of less than 64 bytes is their Levenshtein distance, and to a
-- longer one it is 99.
pub key_distance-levenshtein :
    (a b : Bytes)
    → key_distance a b
      ≡ (if leb 64 (length b) then 99 else levenshtein (reverse_onto [] a) (reverse_onto [] b))
unfolding key_distance levenshtein
key_distance-levenshtein a b =
    let last = rows_from-last a [] b in
    ap
      (λ row.
        if leb 64 (length b)
        then 99
        else last_of_row (rows_from 0 a b 0 row).0 (rows_from 0 a b 0 row).1)
      (count_up-row b [])
    ∙ ap (λ n. if leb 64 (length b) then 99 else n) last
