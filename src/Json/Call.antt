-- ===== src/Json/Call.antt =====
-- The calls of the writers of src/json.c that a serializer makes, in order.
use minimoni.Prelude.{Bool, Bytes, List, [], ℕ, ◌∷◌}
use minimoni.Double.{Double}
use minimoni.Json.Buffer.{
  Jbuf, jbuf_array_str, jbuf_begin, jbuf_end, jbuf_long, jbuf_null, jbuf_pair, jbuf_raw, jbuf_real,
  jbuf_sep, jbuf_str,
}

-- The calls that a serializer makes.
pub data Call (D : Type 0) : Type 0 where
  raw : Bytes → Call D
  sep begin end : Call D
  str : Bytes → Bytes → Call D
  null : Bytes → Call D
  long : Bytes → ℕ → Call D
  real : Bytes → D → Call D
  pair : Bytes → D → D → Call D
  array_str : Bytes → Bool → Call D

module _ {D : Type 0} ⦃d : Double D⦄ where
  unfoldable pub perform : Jbuf → Call D → Jbuf
  perform j (raw s) = jbuf_raw j s
  perform j sep = jbuf_sep j
  perform j begin = jbuf_begin j
  perform j end = jbuf_end j
  perform j (str k v) = jbuf_str j k v
  perform j (long k n) = jbuf_long j k n
  perform j (null k) = jbuf_null j k
  perform j (real k v) = jbuf_real j k v
  perform j (pair k w c) = jbuf_pair j k w c
  perform j (array_str s emitted) = (jbuf_array_str j s emitted).0

  unfoldable pub perform_all : Jbuf → List (Call D) → Jbuf
  perform_all j [] = j
  perform_all j (c ∷ cs) = perform_all (perform j c) cs
