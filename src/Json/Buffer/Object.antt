-- ===== src/Json/Buffer/Object.antt =====
-- A sequence of fields between jbuf_begin and jbuf_end of src/json.c.
use minimoni.Prelude.{
  Bool, Bool-cases, Bytes, List, [], ap, append-nil, append_assoc, arith, false, inl, inr, leb,
  length, length-append, ltb, refl, sym, true, ℕ, ◌++◌, ◌+◌, ◌<◌, ◌∙◌, ◌∷◌, ◌≡◌, ◌≤◌, ◌⊎◌,
}
use minimoni.Json.Buffer.{Jbuf, jbuf_begin, jbuf_end, jbuf_field, jbuf_init, jbuf_raw}
use minimoni.Json.Buffer.Fields.{Fits, comma_of, jbuf_field-whole}

pub put_fields : Jbuf → List Bytes → Jbuf
put_fields j [] = j
put_fields j (f ∷ fs) = put_fields (jbuf_field j f).0 fs

pub put_object : ℕ → List Bytes → Jbuf
put_object size fs = jbuf_end (put_fields (jbuf_begin (jbuf_init size)) fs)

-- The fields with commas between them, and before the first if something stands there.
pub separated : Bool → List Bytes → Bytes
separated comma [] = []
separated comma (f ∷ fs) = comma_of comma ++ (f ++ separated true fs)

pub object_text : List Bytes → Bytes
object_text fs = b'{' ∷ (separated false fs ++ b'}' ∷ [])

-- After some fields: all of them are there, or one was dropped for want of room.
abbrev Outcome : Jbuf → List Bytes → Jbuf → Type 0
Outcome j fs r =
    Fits r
    × (r.size ≡ j.size)
    × ((length j.text + length (separated j.comma fs) < j.size)
          × (r.overflow ≡ j.overflow)
          × (r.text ≡ j.text ++ separated j.comma fs)
        ⊎ (j.size ≤ length j.text + length (separated j.comma fs)) × (r.overflow ≡ true))

length-field :
    (comma : Bool) (f : Bytes) (fs : List Bytes)
    → length (separated comma (f ∷ fs))
      ≡ length (comma_of comma) + length f + length (separated true fs)
unfolding separated
length-field comma f fs = rw (length-append, length-append) (omega arith)

put_fields-cons :
    (j : Jbuf) (f : Bytes) (fs : List Bytes)
    → put_fields j (f ∷ fs) ≡ put_fields (jbuf_field j f).0 fs
unfolding put_fields
put_fields-cons j f fs = refl

abbrev has_room : Jbuf → Bytes → Bool
has_room j f = ltb (length j.text + length (comma_of j.comma) + length f) j.size

abbrev with_field : Jbuf → Bytes → Jbuf
with_field j f = record j { text = j.text ++ (comma_of j.comma ++ f); comma = true }

put_fields-room :
    (j : Jbuf) (f : Bytes) (fs : List Bytes)
    → Fits j
    → has_room j f ≡ true
    → put_fields j (f ∷ fs) ≡ put_fields (with_field j f) fs
put_fields-room j f fs h room = put_fields-cons j f fs ∙ rw (jbuf_field-whole j f h, room)

put_fields-full :
    (j : Jbuf) (f : Bytes) (fs : List Bytes)
    → Fits j
    → has_room j f ≡ false
    → put_fields j (f ∷ fs) ≡ put_fields (record j { overflow = true }) fs
put_fields-full j f fs h full = put_fields-cons j f fs ∙ rw (jbuf_field-whole j f h, full)

with_field-Fits : (j : Jbuf) (f : Bytes) → has_room j f ≡ true → Fits (with_field j f)
with_field-Fits j f room = rw (length-append, length-append) (ground arith)

put_fields-dropped :
    (fs : List Bytes) (j : Jbuf)
    → Fits j
    → j.overflow ≡ true
    → Fits (put_fields j fs)
      × ((put_fields j fs).size ≡ j.size)
      × ((put_fields j fs).overflow ≡ true)
put_fields-dropped [] j h o = unfold put_fields in (h, refl, o)
put_fields-dropped (f ∷ fs) j h o = elim (Bool-cases (has_room j f)) [
  | inl room ↦
      rw (put_fields-room j f fs h room)
        (put_fields-dropped fs (with_field j f) (with_field-Fits j f room) o)
  | inr full ↦
      rw (put_fields-full j f fs h full)
        (put_fields-dropped fs (record j { overflow = true }) h refl)
]

Outcome-room :
    (j : Jbuf) (f : Bytes) (fs : List Bytes) (r : Jbuf)
    → Outcome (with_field j f) fs r
    → Outcome j (f ∷ fs) r
unfolding separated
Outcome-room j f fs r (fits, same, inl (short, kept, written)) = (
  fits,
  same,
  inl (
    rw (length-append, length-append) (omega (arith, rw (length-append, length-append) at short)),
    kept,
    written ∙ simp append_assoc,
  ),
)
Outcome-room j f fs r (fits, same, inr (long, dropped)) = (
  fits,
  same,
  inr (
    rw (length-append, length-append) (omega (arith, rw (length-append, length-append) at long)),
    dropped,
  ),
)

put_fields-Outcome : (fs : List Bytes) (j : Jbuf) → Fits j → Outcome j fs (put_fields j fs)
put_fields-Outcome [] j h =
    unfold put_fields separated in (h, refl, inl (omega arith, refl, sym (append-nil j.text)))
put_fields-Outcome (f ∷ fs) j h = elim (Bool-cases (has_room j f)) [
  | inl room ↦ rw (put_fields-room j f fs h room) (
      Outcome-room j f fs (put_fields (with_field j f) fs)
        (put_fields-Outcome fs (with_field j f) (with_field-Fits j f room)))
  | inr full ↦
      let (fits, same, dropped) = put_fields-dropped fs (record j { overflow = true }) h refl in
      rw (put_fields-full j f fs h full)
        (fits, same, inr (rw (length-field j.comma f fs) (ground arith), dropped))
]

abbrev Whole : ℕ → List Bytes → Jbuf → Type 0
Whole size fs r =
    (r.overflow ≡ leb size (length (object_text fs)))
    × ((r.text ≡ object_text fs) ⊎ (r.overflow ≡ true))

length-object_text : (fs : List Bytes) → length (object_text fs) ≡ length (separated false fs) + 2
unfolding object_text
length-object_text fs = omega (arith, length-append (separated false fs) (b'}' ∷ []))

abbrev opened : ℕ → Jbuf
opened size = record { text = b'{' ∷ []; size = size; comma = false; overflow = false }

end-Whole :
    (size : ℕ) (fs : List Bytes) (r : Jbuf)
    → Outcome (opened size) fs r
    → Whole size fs (jbuf_end r)
unfolding jbuf_end jbuf_raw object_text
end-Whole size fs r (fits, same, inl (short, kept, written)) =
    ground (arith, length-object_text fs, ap (λ (t : Bytes). length t) written)
end-Whole size fs r (fits, same, inr (long, dropped)) = ground (arith, length-object_text fs)

put_object-opened :
    (size : ℕ) (fs : List Bytes)
    → 1 < size
    → put_object size fs ≡ jbuf_end (put_fields (opened size) fs)
unfolding put_object jbuf_begin jbuf_raw
put_object-opened size fs h = let room : leb size 1 ≡ false = ground arith in rw room

abbrev unopened : ℕ → Jbuf
unopened size = record { text = []; size = size; comma = false; overflow = true }

put_object-unopened :
    (size : ℕ) (fs : List Bytes)
    → size ≤ 1
    → put_object size fs ≡ jbuf_end (put_fields (unopened size) fs)
unfolding put_object jbuf_begin jbuf_raw
put_object-unopened size fs h = let full : leb size 1 ≡ true = ground arith in rw full

end-dropped :
    (size : ℕ) (fs : List Bytes) (r : Jbuf)
    → size ≤ 1
    → r.overflow ≡ true
    → Whole size fs (jbuf_end r)
unfolding jbuf_end jbuf_raw
end-dropped size fs r h dropped = ground (arith, length-object_text fs)

-- Writing fields between jbuf_begin and jbuf_end into a fresh buffer gives the JSON object with all
-- of them, in order, if it leaves room for the closing NUL, and otherwise records an overflow.
pub put_object-text :
    (size : ℕ) (fs : List Bytes)
    → 0 < size
    → ((put_object size fs).overflow ≡ leb size (length (object_text fs)))
      × (((put_object size fs).text ≡ object_text fs) ⊎ ((put_object size fs).overflow ≡ true))
put_object-text size fs h = elim (Bool-cases (ltb 1 size)) [
  | inl two ↦
      rw (put_object-opened size fs (ground arith))
        (end-Whole size fs _ (put_fields-Outcome fs (opened size) (ground arith)))
  | inr one ↦
      let (fits, same, dropped) = put_fields-dropped fs (unopened size) h refl in
      rw (put_object-unopened size fs (ground arith)) (end-dropped size fs _ (ground arith) dropped)
]
