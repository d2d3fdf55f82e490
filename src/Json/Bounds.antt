-- ===== src/Json/Bounds.antt =====
-- The memory bound of the writers of src/json.c.
use minimoni.Prelude.{
  Bool, Bool-cases, Bytes, List, Option, [], ap, append-nil, append_assoc, arith, false,
  if◌then◌else◌, inl, inr, leb, length, length-append, none, refl, some, sym, true, ◌++◌, ◌+◌, ◌||◌,
  ◌∙◌, ◌∷◌, ◌≡◌,
}
use minimoni.Double.{Double}
use minimoni.Json.Escape.{json_escape}
use minimoni.Json.Buffer.{
  Jbuf, jbuf_array_str, jbuf_array_str_of, jbuf_begin, jbuf_end, jbuf_field, jbuf_long, jbuf_null,
  jbuf_pair, jbuf_raw, jbuf_real, jbuf_sep, jbuf_str, jbuf_str_of, put_str, quoted,
}
use minimoni.Json.Call.{
  Call, array_str, begin, end, long, null, pair, perform, perform_all, raw, real, sep, str,
}
use minimoni.Json.Buffer.Fields.{Fits, Grows, comma_of}

pub Grows-refl : (j : Jbuf) → Fits j → Grows j j
Grows-refl j h = record {
  bounded = h;
  same_size = refl;
  extends = ([], sym (append-nil j.text));
  sticky = λ e. e;
}

pub Grows-trans : (a b c : Jbuf) → Grows a b → Grows b c → Grows a c
Grows-trans a b c g h = record {
  bounded = h.bounded;
  same_size = h.same_size ∙ g.same_size;
  extends = (
    g.extends.0 ++ h.extends.0,
    h.extends.1 ∙ ap (λ t. t ++ h.extends.0) g.extends.1 ∙ append_assoc a.text _ _,
  );
  sticky = λ e. h.sticky (g.sticky e);
}

-- A buffer that differs in the flags only, with no overflow taken back.
Grows-flags :
    (j : Jbuf) (comma overflow : Bool)
    → Fits j
    → (j.overflow ≡ true → overflow ≡ true)
    → Grows j (record j { comma = comma; overflow = overflow })
Grows-flags j comma overflow h keep = record {
  bounded = h;
  same_size = refl;
  extends = ([], sym (append-nil j.text));
  sticky = keep;
}

pub raw-Grows : (j : Jbuf) (s : Bytes) → Fits j → Grows j (jbuf_raw j s)
unfolding jbuf_raw
raw-Grows j s h = elim (Bool-cases (leb j.size (length j.text + length s))) [
  | inl full ↦ rw full (Grows-flags j j.comma true h (λ e. refl))
  | inr room ↦ rw room (record {
    bounded = rw length-append (ground arith);
    same_size = refl;
    extends = (s, refl);
    sticky = λ e. e;
  })
]

comma-Grows : (j r : Jbuf) (comma : Bool) → Grows j r → Grows j (record r { comma = comma })
comma-Grows j r comma g = record {
  bounded = g.bounded;
  same_size = g.same_size;
  extends = g.extends;
  sticky = g.sticky;
}

if-Grows : (b : Bool) (j x y : Jbuf) → Grows j x → Grows j y → Grows j (if b then x else y)
if-Grows true j x y g h = g
if-Grows false j x y g h = h

pub sep-Grows : (j : Jbuf) → Fits j → Grows j (jbuf_sep j)
unfolding jbuf_sep
sep-Grows j h =
    comma-Grows j _ true (if-Grows j.comma j _ j (raw-Grows j (b',' ∷ []) h) (Grows-refl j h))

begin-Grows : (j : Jbuf) → Fits j → Grows j (jbuf_begin j)
unfolding jbuf_begin
begin-Grows j h = comma-Grows j _ false (raw-Grows j (b'{' ∷ []) h)

end-Grows : (j : Jbuf) → Fits j → Grows j (jbuf_end j)
unfolding jbuf_end
end-Grows j h = raw-Grows j (b'}' ∷ []) h

field-Grows : (j : Jbuf) (f : Bytes) → Fits j → Grows j (jbuf_field j f).0
unfolding jbuf_field
field-Grows j f h =
    elim (Bool-cases (leb j.size (length j.text + (if j.comma then 1 else 0) + length f))) [
      | inl full ↦ rw full (Grows-flags j j.comma true h (λ e. refl))
      | inr room ↦
          let g = sep-Grows j h in
          rw room (Grows-trans j _ _ g (raw-Grows (jbuf_sep j) f g.bounded))
    ]

overflow-Grows : (j r : Jbuf) → Grows j r → Grows j (record r { overflow = true })
overflow-Grows j r g = record {
  bounded = g.bounded;
  same_size = g.same_size;
  extends = g.extends;
  sticky = λ e. refl;
}

put_str-Grows : (j : Jbuf) (tmp : Bytes) → Fits j → Grows j (put_str j tmp)
unfolding put_str
put_str-Grows j tmp h = elim (Bool-cases (leb 1152 (length tmp))) [
  | inl full ↦ rw full (overflow-Grows j j (Grows-refl j h))
  | inr short ↦ elim (Bool-cases (jbuf_field j tmp).1) [
    | inl done ↦ rw (short, done) (field-Grows j tmp h)
    | inr failed ↦ rw (short, failed) (overflow-Grows j _ (field-Grows j tmp h))
  ]
]

pub str_of-Grows : (j : Jbuf) (k v : Option Bytes) → Fits j → Grows j (jbuf_str_of j k v)
unfolding jbuf_str_of
str_of-Grows j (some k) (some v) h = put_str-Grows j _ h
str_of-Grows j (some k) none h = overflow-Grows j j (Grows-refl j h)
str_of-Grows j none v h = overflow-Grows j j (Grows-refl j h)

pub array_str_of-Grows :
    (j : Jbuf) (emitted : Bool) (s : Option Bytes)
    → Fits j
    → Grows j (jbuf_array_str_of j emitted s).0
unfolding jbuf_array_str_of
array_str_of-Grows j emitted none h = Grows-refl j h
array_str_of-Grows j emitted (some esc) h =
    elim (Bool-cases (
      leb 112 (length (comma_of emitted ++ quoted esc))
      || leb j.size (length j.text + length (comma_of emitted ++ quoted esc)))) [
        | inl full ↦ rw full (Grows-refl j h)
        | inr short ↦ rw short (raw-Grows j _ h)
      ]

module _ {D : Type 0} ⦃d : Double D⦄ where
  pub perform-Grows : (j : Jbuf) (c : Call D) → Fits j → Grows j (perform j c)
  unfolding perform jbuf_long jbuf_str jbuf_null jbuf_real jbuf_pair jbuf_array_str
  perform-Grows j (raw s) h = raw-Grows j s h
  perform-Grows j sep h = sep-Grows j h
  perform-Grows j begin h = begin-Grows j h
  perform-Grows j end h = end-Grows j h
  perform-Grows j (str k v) h = str_of-Grows j _ _ h
  perform-Grows j (long k n) h = field-Grows j _ h
  perform-Grows j (null k) h = field-Grows j _ h
  perform-Grows j (real k v) h = elim (Bool-cases (d.is_finite v)) [
    | inl e ↦ rw e (field-Grows j _ h)
    | inr e ↦ rw e (field-Grows j _ h)
  ]
  perform-Grows j (pair k w c) h = field-Grows j _ h
  perform-Grows j (array_str s emitted) h = array_str_of-Grows j emitted _ h

  -- Whatever calls of the JSON writers are made, in whatever order, the text and its closing NUL
  -- stay within the buffer, what has been written stays as it is, and an overflow is not forgotten.
  pub perform_all-Grows :
      (calls : List (Call D)) (j : Jbuf) → Fits j → Grows j (perform_all j calls)
  unfolding perform_all
  perform_all-Grows [] j h = Grows-refl j h
  perform_all-Grows (c ∷ calls) j h =
      let g = perform-Grows j c h in
      Grows-trans j _ _ g (perform_all-Grows calls (perform j c) g.bounded)

array_str_of-overflow :
    (j : Jbuf) (emitted : Bool) (s : Option Bytes)
    → (jbuf_array_str_of j emitted s).0.overflow ≡ j.overflow
unfolding jbuf_array_str_of jbuf_raw
array_str_of-overflow j emitted none = refl
array_str_of-overflow j emitted (some esc) = ground arith

-- jbuf_array_str never records an overflow, also where the element is dropped for want of room.
pub jbuf_array_str-overflow :
    (j : Jbuf) (s : Bytes) (emitted : Bool) → (jbuf_array_str j s emitted).0.overflow ≡ j.overflow
unfolding jbuf_array_str
jbuf_array_str-overflow j s emitted = array_str_of-overflow j emitted (json_escape 96 s)
