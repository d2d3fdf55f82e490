-- ===== src/Double.antt =====
-- What the program does with a C `double`, as an interface: the operations of the language and of
-- libm, and printf's %g. No law is assumed here; a lemma that needs one names it.
use minimoni.Prelude.{
  Bool, Bytes, [], if◌then◌else◌, leb, ltb, true, ℕ, ◌%◌, ◌*◌, ◌+◌, ◌-◌, ◌/◌, ◌^◌, ◌∷◌,
}

pub record Double (D : Type 0) : Type 0 where
  -- `literal m e` is the constant m / 10^e, and `literal n 0` the conversion of an integer.
  pub literal : ℕ → ℕ → D
  pub plus : D → D → D
  pub minus : D → D → D
  pub times : D → D → D
  pub over : D → D → D
  pub pow : D → ℕ → D
  -- <, <= and isfinite
  pub lt : D → D → Bool
  pub le : D → D → Bool
  pub is_finite : D → Bool
  -- printf("%.*g")
  pub format_g : ℕ → D → Bytes

module _ {D : Type 0} ⦃d : Double D⦄ where
  abbrev pub nought : D
  nought = d.literal 0 0

  -- x > 0
  abbrev pub above_nought : D → Bool
  above_nought x = d.lt nought x

  -- x > y ? x : y
  abbrev pub max2 : D → D → D
  max2 x y = if d.lt y x then x else y

-- Whole numbers, with the operations cut to them, as a value of the interface for tests.
instance abbrev pub whole_double : Double ℕ
whole_double = record {
  literal = λ m e. m / 10 ^ e;
  plus = λ a b. a + b;
  minus = λ a b. a - b;
  times = λ a b. a * b;
  over = λ a b. a / b;
  pow = λ a b. a ^ b;
  lt = ltb;
  le = leb;
  is_finite = λ a. true;
  format_g = λ p a. (b'0' + a % 10) ∷ [];
}
