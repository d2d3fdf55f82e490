-- ===== src/Strtol/Suffix.antt =====
-- What strtol leaves behind the number.
use minimoni.Prelude.{
  Bool, Bool-cases, Bytes, [], ap, append_assoc, inl, inr, refl, sym, ℕ, ◌++◌, ◌==◌, ◌∙◌, ◌∷◌, ◌≡◌,
}
use minimoni.Strtol.{from_digits, is_digit, is_space, skip_spaces, strtol, take_digits, take_sign}

abbrev pub Suffix : Bytes → Bytes → Type 0
Suffix rest s = (p : Bytes) × (s ≡ p ++ rest)

Suffix-cons : (c : ℕ) (rest s : Bytes) → Suffix rest s → Suffix rest (c ∷ s)
Suffix-cons c rest s (p, e) = (c ∷ p, ap (◌∷◌ c) e)

Suffix-trans : (a b c : Bytes) → Suffix a b → Suffix b c → Suffix a c
Suffix-trans a b c (p, e) (q, f) = (q ++ p, f ∙ ap (λ x. q ++ x) e ∙ sym (append_assoc q p a))

skip_spaces-Suffix : (s : Bytes) → Suffix (skip_spaces s) s
unfolding skip_spaces
skip_spaces-Suffix [] = ([], refl)
skip_spaces-Suffix (c ∷ s) = elim (Bool-cases (is_space c)) [
  | inl e ↦ rw e (Suffix-cons c _ s (skip_spaces-Suffix s))
  | inr e ↦ rw e ([], refl)
]

take_sign-Suffix : (s : Bytes) → Suffix (take_sign s).1 s
unfolding take_sign
take_sign-Suffix [] = ([], refl)
take_sign-Suffix (c ∷ s) = elim (Bool-cases (c == b'-')) [
  | inl e ↦ rw e (c ∷ [], refl)
  | inr e ↦ elim (Bool-cases (c == b'+')) [
    | inl f ↦ rw (e, f) (c ∷ [], refl)
    | inr f ↦ rw (e, f) ([], refl)
  ]
]

take_digits-Suffix : (s : Bytes) (acc : ℕ) → Suffix (take_digits acc s).1 s
unfolding take_digits
take_digits-Suffix [] acc = ([], refl)
take_digits-Suffix (c ∷ s) acc = elim (Bool-cases (is_digit c)) [
  | inl e ↦ rw e (Suffix-cons c _ s (take_digits-Suffix s _))
  | inr e ↦ rw e ([], refl)
]

from_digits-Suffix :
    (long_max : ℕ) (s : Bytes) (negative : Bool) (body : Bytes)
    → Suffix body s
    → Suffix (from_digits long_max s negative body).1 s
unfolding from_digits
from_digits-Suffix long_max s negative [] h = ([], refl)
from_digits-Suffix long_max s negative (c ∷ body) h = elim (Bool-cases (is_digit c)) [
  | inl e ↦ rw e (Suffix-trans _ _ s (take_digits-Suffix (c ∷ body) 0) h)
  | inr e ↦ rw e ([], refl)
]

-- A bridge with the parts of strtol shut.
strtol-parts :
    (long_max : ℕ) (s : Bytes)
    → strtol long_max s
      ≡ from_digits long_max s (take_sign (skip_spaces s)).0 (take_sign (skip_spaces s)).1
unfolding strtol
strtol-parts long_max s = refl

pub strtol-Suffix : (long_max : ℕ) (s : Bytes) → Suffix (strtol long_max s).1 s
strtol-Suffix long_max s = rw strtol-parts (
    from_digits-Suffix long_max s _ _
      (Suffix-trans _ _ s (take_sign-Suffix (skip_spaces s)) (skip_spaces-Suffix s)))
