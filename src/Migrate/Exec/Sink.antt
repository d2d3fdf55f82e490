-- ===== src/Migrate/Exec/Sink.antt =====
-- What a read of sink_read in src/migrate/exec.c keeps of a stream.
use Prim.Native.Nat.{min}
use minimoni.Prelude.{
  ==_iff, Bool, Bool-cases, Bytes, [], ap, append-nil, append_assoc, arith, drop, false, false≢true,
  if-holds, if◌then◌else◌, inl, inr, is_positive, length, length-append, length-drop, length-take,
  ltb, ltb→lt, not, pos, refl, suc, sym, take, true, zero, ℕ, ◌++◌, ◌+◌, ◌-◌, ◌<◌, ◌==◌, ◌∙◌, ◌∷◌,
  ◌≡◌, ◌≤◌, ◌⊎◌,
}
use minimoni.Migrate.Exec.{Pipe, read_bytes, read_if, room, sink_read}

-- A pipe that will have captured the first size - 1 bytes of its stream, if it is read on; none is
-- left once it is closed, unless F: that its stream was cut off.
abbrev pub Captures : Type 0 → Bytes → ℕ → Pipe → Type 0
Captures F stream size p =
    (p.kept ++ take (room p) p.left ≡ take (size - 1) stream)
    × (p.size ≡ size)
    × ((p.open_fd ≡ true) ⊎ (p.left ≡ []) ⊎ F)

-- The reads that it may still take.
abbrev pub weight : Pipe → ℕ
weight p = if p.open_fd then length p.left + 1 else 0

take-take :
    (n r : ℕ) (l : Bytes) → n ≤ r → n ≤ length l → take n l ++ take (r - n) (drop n l) ≡ take r l
take-take zero r l h k = ap (λ m. take m l) (omega arith)
take-take (suc n) zero l h k = absurd (omega arith)
take-take (suc n) (suc r) [] h k = absurd (omega arith)
take-take (suc n) (suc r) (c ∷ l) h k =
    let less : suc r - suc n ≡ r - n = omega arith in
    ap (◌∷◌ c)
      (ap (λ m. take n l ++ take m (drop n l)) less ∙ take-take n r l (omega arith) (omega arith))

no_bytes : (l : Bytes) → length l ≡ 0 → l ≡ []
no_bytes [] h = refl
no_bytes (c ∷ l) h = absurd (omega arith)

none_left : (more : ℕ) (p : Pipe) → (read_bytes more p == 0) ≡ true → length p.left ≡ 0
none_left more p h = elim (Bool-cases (ltb (length p.kept + 1) p.size)) [
  | inl keep ↦
      let none_read : read_bytes more p ≡ 0 = (==_iff (read_bytes more p) 0).0 h in
      let n : min (more + 1) (min (room p) (length p.left)) ≡ 0 = simp keep at none_read in
      let space = ltb→lt _ _ keep in omega arith
  | inr full ↦
      let none_read : read_bytes more p ≡ 0 = (==_iff (read_bytes more p) 0).0 h in
      let n : min (more + 1) (min 1024 (length p.left)) ≡ 0 = simp full at none_read in omega arith
]

read_in_room :
    (more : ℕ) (p : Pipe) → ltb (length p.kept + 1) p.size ≡ true → read_bytes more p ≤ room p
read_in_room more p keep = simp keep (omega arith)

read_in_left : (more : ℕ) (p : Pipe) → read_bytes more p ≤ length p.left
read_in_left more p = omega arith

weight-open : (p : Pipe) → p.open_fd ≡ true → weight p ≡ length p.left + 1
weight-open p o = simp o refl

lighter :
    (p : Pipe) (n : ℕ)
    → p.open_fd ≡ true
    → 0 < n
    → n ≤ length p.left
    → (if p.open_fd then length (drop n p.left) + 1 else 0) < weight p
lighter p n o h k = simp o (omega (arith, length-drop n p.left))

no_room :
    (p : Pipe) (n : ℕ)
    → ltb (length p.kept + 1) p.size ≡ false
    → p.kept ++ take (room p) (drop n p.left) ≡ p.kept ++ take (room p) p.left
no_room p n full = let none : room p ≡ 0 = ground arith in rw none refl

kept_more :
    (p : Pipe) (n : ℕ)
    → n ≤ room p
    → n ≤ length p.left
    → (p.kept ++ take n p.left)
        ++ take (p.size - 1 - length (p.kept ++ take n p.left)) (drop n p.left)
      ≡ p.kept ++ take (room p) p.left
kept_more p n h k =
    let held = length-append p.kept (take n p.left) in
    let took = length-take n p.left in
    let less : p.size - 1 - length (p.kept ++ take n p.left) ≡ room p - n = omega arith in
    append_assoc p.kept (take n p.left) _
    ∙ ap (λ m. p.kept ++ (take n p.left ++ take m (drop n p.left))) less
    ∙ ap (λ l. p.kept ++ l) (take-take n (room p) p.left h k)

-- A read from an open pipe brings it nearer to its end.
sink_read-Captures :
    (F : Type 0) (stream : Bytes) (size : ℕ) (fails : Bool) (more : ℕ) (p : Pipe)
    → (fails ≡ true → F)
    → p.open_fd ≡ true
    → Captures F stream size p
    → Captures F stream size (sink_read fails more p) × (weight (sink_read fails more p) < weight p)
unfolding sink_read
sink_read-Captures F stream size true more p cut o (cells, sized, live) =
    ((cells, sized, inr (inr (cut refl))), omega (arith, weight-open p o))
sink_read-Captures F stream size false more p cut o (cells, sized, live) =
    let n = read_bytes more p in
    let P = λ (q : Pipe). Captures F stream size q × (weight q < weight p) in
    if-holds P (not (is_positive (pos n))) (record p { open_fd = false }) _
      (λ ended. (
        (cells, sized, inr (inl (no_bytes p.left (none_left more p (nothing_read n ended))))),
        omega (arith, weight-open p o),
      ))
      (λ some_read.
        if-holds P (ltb (length p.kept + 1) p.size)
          (record p { left = drop n p.left; kept = p.kept ++ take n p.left })
          (record p { left = drop n p.left })
          (λ keep. (
            (kept_more p n (read_in_room more p keep) (read_in_left more p) ∙ cells, sized, inl o),
            lighter p n o (something_read n some_read) (read_in_left more p),
          ))
          (λ full. (
            (no_room p n full ∙ cells, sized, inl o),
            lighter p n o (something_read n some_read) (read_in_left more p),
          )))
  where
    nothing_read : (n : ℕ) → not (is_positive (pos n)) ≡ true → (n == 0) ≡ true
    nothing_read zero h = refl
    nothing_read (suc n) h = absurd (false≢true h)

    something_read : (n : ℕ) → not (is_positive (pos n)) ≡ false → 0 < n
    something_read zero h = absurd (false≢true (sym h))
    something_read (suc n) h = omega arith

pub read_if-Captures :
    (F : Type 0) (stream : Bytes) (size : ℕ) (fails : Bool) (more : ℕ) (ready : Bool) (p : Pipe)
    → (fails ≡ true → F)
    → (ready ≡ true → p.open_fd ≡ true)
    → Captures F stream size p
    → Captures F stream size (read_if ready fails more p)
      × ((weight (read_if ready fails more p) < weight p)
          ⊎ ((ready ≡ false) × (weight (read_if ready fails more p) ≡ weight p)))
read_if-Captures F stream size fails more true p cut o held =
    let (next, less) = sink_read-Captures F stream size fails more p cut (o refl) held in
    (next, inl less)
read_if-Captures F stream size fails more false p cut o held = (held, inr (refl, refl))

-- What a buffer holds at the end: a start of what it has room for of its stream, and all of that
-- unless the stream was cut off.
abbrev pub Holds : Type 0 → Bytes → ℕ → Pipe → Type 0
Holds F stream size p =
    ((rest : Bytes) × (take (size - 1) stream ≡ p.kept ++ rest))
    × ((p.kept ≡ take (size - 1) stream) ⊎ F)

take-nil : (n : ℕ) → take {A = ℕ} n [] ≡ []
take-nil zero = refl
take-nil (suc n) = refl

whole :
    (stream : Bytes) (size : ℕ) (p : Pipe)
    → p.kept ++ take (room p) p.left ≡ take (size - 1) stream
    → p.left ≡ []
    → p.kept ≡ take (size - 1) stream
whole stream size p cells at_end =
    sym (append-nil p.kept)
    ∙ ap (λ l. p.kept ++ l) (sym (take-nil (room p)))
    ∙ ap (λ l. p.kept ++ take (room p) l) (sym at_end)
    ∙ cells

-- The pipe is closed, or cut off.
pub captured :
    (F : Type 0) (stream : Bytes) (size : ℕ) (p : Pipe)
    → (p.open_fd ≡ false) ⊎ F
    → Captures F stream size p
    → Holds F stream size p
captured F stream size p (inr cut) (cells, sized, live) =
    ((take (room p) p.left, sym cells), inr cut)
captured F stream size p (inl shut) (cells, sized, inl still) =
    absurd (false≢true (sym shut ∙ still))
captured F stream size p (inl shut) (cells, sized, inr (inl at_end)) =
    ((take (room p) p.left, sym cells), inl (whole stream size p cells at_end))
captured F stream size p (inl shut) (cells, sized, inr (inr cut)) =
    ((take (room p) p.left, sym cells), inr cut)
