-- ===== src/Trust/Buffer/Grown.antt =====
-- The growing block of src/trust.c.
use minimoni.Prelude.{
  Bool, Bytes, List, [], ap, append-nil, append_assoc, arith, flatten, if-holds, inl, inr, length,
  length-append, ltb, not, refl, suc, sym, true, zero, ℕ, ◌*◌, ◌++◌, ◌+◌, ◌-◌, ◌<◌, ◌∙◌, ◌∷◌, ◌≡◌,
  ◌≤◌, ◌⊎◌,
}
use minimoni.Trust.Buffer.{Block, append_all, bytes_append, empty, first_cap, grow, new_cap}

-- What is used lies in the block.
abbrev pub Fits : Block → Type 0
Fits b = length b.data_bytes ≤ b.cap

grow-enough :
    (fuel used more cap_now : ℕ)
    → 0 < cap_now
    → used ≤ cap_now
    → used + more ≤ cap_now + fuel
    → used + more ≤ grow fuel used more cap_now
unfolding grow
grow-enough zero used more cap_now h low enough = omega arith
grow-enough (suc fuel) used more cap_now h low enough =
    let rest = grow-enough fuel used more (cap_now * 2) (omega arith) (omega arith) (omega arith) in
    if-holds (λ c. used + more ≤ c) (ltb (cap_now - used) more) _ _ (λ small. rest)
      (λ large. ground arith)

-- One call: a block of which the used part lies in it keeps that, and its bytes are the old ones
-- with the new ones behind them, or it has failed.
abbrev AppendsTo : Block → Bytes → Block → Type 0
AppendsTo b src c = Fits c × ((c.failed_alloc ≡ true) ⊎ (c.data_bytes ≡ b.data_bytes ++ src))

new_cap-Fits : (b : Block) (src : Bytes) → Fits b → length (b.data_bytes ++ src) ≤ new_cap b src
new_cap-Fits b src fits =
    let more = length-append b.data_bytes src in
    let room : 0 < first_cap b.cap = ground arith in
    let held =
      grow-enough (length b.data_bytes + length src) (length b.data_bytes) (length src)
        (first_cap b.cap) room (ground arith) (omega arith) in
    omega arith

bytes_append-Fits :
    (realloc : ℕ → Bool) (b : Block) (src : Bytes)
    → Fits b
    → AppendsTo b src (bytes_append realloc b src)
unfolding bytes_append
bytes_append-Fits realloc b src fits =
    if-holds (AppendsTo b src) b.failed_alloc _ _ (λ failed. (fits, inl failed))
      (λ works.
        if-holds (AppendsTo b src) (not (ltb (b.cap - length b.data_bytes) (length src))) _ _
          (λ room. (ground (arith, length-append b.data_bytes src), inr refl))
          (λ full.
            if-holds (AppendsTo b src) (not (realloc (new_cap b src))) _ _
              (λ none_left. (fits, inl refl)) (λ more. (new_cap-Fits b src fits, inr refl))))

failed-stays :
    (realloc : ℕ → Bool) (srcs : List Bytes) (b : Block)
    → b.failed_alloc ≡ true
    → append_all realloc b srcs ≡ b
unfolding append_all bytes_append
failed-stays realloc [] b h = refl
failed-stays realloc (src ∷ srcs) b h = simp h (failed-stays realloc srcs b h)

append_all-from :
    (realloc : ℕ → Bool) (srcs : List Bytes) (b : Block)
    → Fits b
    → Fits (append_all realloc b srcs)
      × (((append_all realloc b srcs).failed_alloc ≡ true)
          ⊎ ((append_all realloc b srcs).data_bytes ≡ b.data_bytes ++ flatten srcs))
unfolding append_all flatten
append_all-from realloc [] b fits = (fits, inr (sym (append-nil b.data_bytes)))
append_all-from realloc (src ∷ srcs) b fits =
    let (next, what) = bytes_append-Fits realloc b src fits in
    let (held, rest) = append_all-from realloc srcs (bytes_append realloc b src) next in
    (
      held,
      elim what [
        | inl failed ↦ inl (ap (λ c. c.failed_alloc) (failed-stays realloc srcs _ failed) ∙ failed)
        | inr grown ↦ elim rest [
          | inl failed ↦ inl failed
          | inr all ↦ inr (
              all
              ∙ ap (λ d. d ++ flatten srcs) grown
              ∙ append_assoc b.data_bytes src (flatten srcs))
        ]
      ],
    )

-- However a decoder cuts its output into calls, the block holds all of it in order, or the failure
-- of an allocation is recorded; and what is used always lies in the block.
pub append_all-flatten :
    (realloc : ℕ → Bool) (srcs : List Bytes)
    → Fits (append_all realloc empty srcs)
      × (((append_all realloc empty srcs).failed_alloc ≡ true)
          ⊎ ((append_all realloc empty srcs).data_bytes ≡ flatten srcs))
append_all-flatten realloc srcs = append_all-from realloc srcs empty (omega arith)
