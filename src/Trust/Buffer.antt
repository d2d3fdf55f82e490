-- ===== src/Trust/Buffer.antt =====
-- bytes_t and bytes_append of src/trust.c. `data` is the used part of the block, so that b->len is its
-- length. Sizes past size_t are not reached: memory ends first.
pub mod Grown
use minimoni.Prelude.{
  Bool, Bytes, List, [], false, if◌then◌else◌, length, ltb, not, suc, true, zero, ℕ, ◌*◌, ◌++◌, ◌+◌,
  ◌-◌, ◌==◌, ◌∷◌,
}

pub record Block : Type 0 where
  pub data_bytes : Bytes
  pub cap : ℕ
  pub failed_alloc : Bool

abbrev pub empty : Block
empty = record { data_bytes = []; cap = 0; failed_alloc = false }

-- while (len > cap - b->len) cap *= 2, at most `fuel` times
unfoldable pub grow : ℕ → ℕ → ℕ → ℕ → ℕ
grow zero used more cap_now = cap_now
grow (suc fuel) used more cap_now =
    let rest = grow fuel used more (cap_now * 2) in
    if ltb (cap_now - used) more then rest else cap_now

abbrev pub first_cap : ℕ → ℕ
first_cap cap_now = if cap_now == 0 then 1024 else cap_now

-- Doubled as often as there are bytes to hold, a capacity of 1 or more holds them.
abbrev pub new_cap : Block → Bytes → ℕ
new_cap b src =
    grow (length b.data_bytes + length src) (length b.data_bytes) (length src) (first_cap b.cap)

abbrev pub appended : Block → Bytes → ℕ → Block
appended b src size = record { data_bytes = b.data_bytes ++ src; cap = size; failed_alloc = false }

unfoldable pub bytes_append : (ℕ → Bool) → Block → Bytes → Block
bytes_append realloc b src =
    if b.failed_alloc
    then b
    else if not (ltb (b.cap - length b.data_bytes) (length src))
    then appended b src b.cap
    else if not (realloc (new_cap b src))
    then record b { failed_alloc = true }
    else appended b src (new_cap b src)

-- The calls of a decoder.
unfoldable pub append_all : (ℕ → Bool) → Block → List Bytes → Block
append_all realloc b [] = b
append_all realloc b (src ∷ srcs) = append_all realloc (bytes_append realloc b src) srcs
